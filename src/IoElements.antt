-- ===== src/IoElements.antt =====
-- ioelements/ioelements.go: the definitions of I/O elements, their lookup and the decoding of values.
pub mod Lookup
pub mod Printed
pub mod Values
use teltonika.Prelude.{
  ℕ, zero, suc, Bool, true, false, ◌&&◌, ◌||◌, not, List, [], ◌∷◌, length, ◌==◌, if◌then◌else◌,
  Result, ok, err, and_then, model_not_supported, element_not_found, undecodable,
}
use teltonika.Prelude.Int.{ℤ, to_signed}
use teltonika.Bytes.{uint16_be, uint32_be, uint64_be}
use teltonika.Hex.{encode_to_string}
use teltonika.Encode.Elements.{is_group_width}
use teltonika.Util.ByteReader.{first}

-- What the code does with float64: conversions, the product, and the comparisons with 0 and 1.
pub record Number (V : Type 0) : Type 0 where
  pub of_unsigned : ℕ → V
  pub of_signed : ℤ → V
  pub times : V → V → V
  pub is_zero : V → Bool
  pub is_one : V → Bool

-- `ElementType` is a uint8.
abbrev pub element_signed : ℕ
element_signed = 0

abbrev pub element_unsigned : ℕ
element_unsigned = 1

abbrev pub element_hex : ℕ
element_hex = 2

abbrev pub element_ascii : ℕ
element_ascii = 3

-- Strings are lists of bytes.
abbrev pub Text : Type 0
Text = List ℕ

pub record IoElementDefinition (V : Type 0) : Type 0 where
  pub id : ℕ
  pub name : Text
  pub num_bytes : ℤ
  pub type : ℕ
  pub min : V
  pub max : V
  pub multiplier : V
  pub units : Text
  pub description : Text
  pub supported_models : List Text
  pub groups : List Text

-- The dynamic types of `IOElement.Value`.
pub data Value (V : Type 0) : Type 0 where
  bool : Bool → Value V
  uint64 : ℕ → Value V
  int64 : ℤ → Value V
  float64 : V → Value V
  string : Text → Value V

pub record IoElement (V : Type 0) : Type 0 where
  pub id : ℕ
  pub value : Value V
  pub definition : IoElementDefinition V

-- `map[string]bool` is the function of its lookups.
pub record Decoder (V : Type 0) : Type 0 where
  pub definitions : List (IoElementDefinition V)
  pub supported_models : Text → Bool

-- Comparison of strings.
unfoldable pub same_text : Text → Text → Bool
same_text [] [] = true
same_text [] (d ∷ ds) = false
same_text (c ∷ cs) [] = false
same_text (c ∷ cs) (d ∷ ds) = c == d && same_text cs ds

-- `allSupportedModels[model] = true`
unfoldable pub add_model : Text → (Text → Bool) → Text → Bool
add_model model models x = if same_text x model then true else models x

unfoldable pub add_models : List Text → (Text → Bool) → Text → Bool
add_models [] models = models
add_models (m ∷ ms) models = add_models ms (add_model m models)

-- `"*"`
abbrev pub any_model : Text
any_model = b'*' ∷ []

-- The inner loop of `GetElementInfo`.
unfoldable pub supports : Text → List Text → Bool
supports model [] = false
supports model (v ∷ vs) =
    let rest = supports model vs in if not (same_text v model) then rest else true

-- The bytes of an integer, by the size of the buffer.
unfoldable pub unsigned_value : List ℕ → Result ℕ
unsigned_value buffer =
    if length buffer == 1
    then first buffer
    else if length buffer == 2
    then uint16_be buffer
    else if length buffer == 4
    then uint32_be buffer
    else uint64_be buffer

unfoldable pub signed_value : List ℕ → Result ℤ
signed_value buffer =
    if length buffer == 1
    then and_then (first buffer) (λ v. ok (to_signed 128 v))
    else if length buffer == 2
    then and_then (uint16_be buffer) (λ v. ok (to_signed 32768 v))
    else if length buffer == 4
    then and_then (uint32_be buffer) (λ v. ok (to_signed 2147483648 v))
    else and_then (uint64_be buffer) (λ v. ok (to_signed 9223372036854775808 v))

module _ {V : Type 0} where
  unfoldable pub all_models : List (IoElementDefinition V) → (Text → Bool) → Text → Bool
  all_models [] models = models
  all_models (it ∷ its) models = all_models its (add_models it.supported_models models)

  unfoldable pub new_decoder : List (IoElementDefinition V) → Decoder V
  new_decoder definitions = record {
    definitions = definitions;
    supported_models = all_models definitions (λ x. false);
  }

  -- The outer loop of `GetElementInfo`.
  unfoldable pub find_definition :
      Text → ℕ → List (IoElementDefinition V) → Result (IoElementDefinition V)
  find_definition model id [] = err (element_not_found id)
  find_definition model id (e ∷ es) =
      let rest = find_definition model id es in
      if not (e.id == id)
      then rest
      else if same_text model any_model
      then ok e
      else if supports model e.supported_models
      then ok e
      else rest

  unfoldable pub get_element_info : Decoder V → Text → ℕ → Result (IoElementDefinition V)
  get_element_info r model id =
      if not (same_text model any_model) && not (r.supported_models model)
      then err model_not_supported
      else find_definition model id r.definitions

  module _ ⦃num : Number V⦄ where
    -- A number, times the multiplier if there is one.
    unfoldable pub scaled : IoElementDefinition V → Value V → V → Value V
    scaled def plain v =
        if not (num.is_one def.multiplier) then float64 (num.times v def.multiplier) else plain

    unfoldable pub integer_value : IoElementDefinition V → List ℕ → Result (Value V)
    integer_value def buffer =
        if def.type == element_unsigned
        then and_then (unsigned_value buffer) (λ v. ok (scaled def (uint64 v) (num.of_unsigned v)))
        else and_then (signed_value buffer) (λ v. ok (scaled def (int64 v) (num.of_signed v)))

    unfoldable pub decode_value : IoElementDefinition V → List ℕ → Result (Value V)
    decode_value def buffer =
        let size = length buffer in
        if size == 1 && num.is_zero def.min && num.is_one def.max && def.type == element_unsigned
        then and_then (first buffer) (λ b. ok (bool (b == 1)))
        else if is_group_width size && (def.type == element_unsigned || def.type == element_signed)
        then integer_value def buffer
        else if def.type == element_hex
        then ok (string (encode_to_string buffer))
        else if def.type == element_ascii
        then ok (string buffer)
        else err (undecodable def.id)

    unfoldable pub decode_by_definition : IoElementDefinition V → List ℕ → Result (IoElement V)
    decode_by_definition def buffer =
        and_then (decode_value def buffer)
          λ res. ok (record { id = def.id; value = res; definition = def })

    unfoldable pub decode : Decoder V → Text → ℕ → List ℕ → Result (IoElement V)
    decode r model id buffer =
        and_then (get_element_info r model id) λ def. decode_by_definition def buffer
