-- ===== src/Generator/Rows.antt =====
-- tools/io_elements_gen.go: `parseTableRow`, from the texts of a row's cells to definitions.
pub mod Models
use teltonika.Prelude.{
  ℕ, zero, suc, ◌-◌, Bool, true, false, ◌&&◌, ◌||◌, not, Option, none, some, List, [], ◌∷◌, ◌++◌,
  map, length, ltb, leb, ◌==◌, if◌then◌else◌, Result, ok, panic,
}
use teltonika.Prelude.Int.{ℤ, pos, negsuc, to_unsigned}
use teltonika.IoElements.{
  Text, same_text, IoElementDefinition, element_signed, element_unsigned, element_hex,
  element_ascii,
}
use teltonika.Generator.{Float, same_int, unique}
use teltonika.Generator.Csv.{add_first, split}
use teltonika.Generator.Normalize.{normalize}

-- What the tool uses of the standard library on texts: Sscan of integers and of
-- floating-point numbers, where `none` is an error, Atoi, whose
-- value is used with an error too, ToLower, Trim of the characters " \n\t", and Sort.
pub record Library : Type 0 where
  pub scan_int : Text → Option ℤ
  pub atoi : Text → ℤ
  pub to_lower : Text → Text
  pub trim : Text → Text
  pub sort : List Text → List Text

pub record Scanner (V : Type 0) : Type 0 where
  pub scan_float : Text → Option V

abbrev pub string_type : Text
string_type = b'<' ∷ b's' ∷ b't' ∷ b'r' ∷ b'i' ∷ b'n' ∷ b'g' ∷ b'>' ∷ []

abbrev pub hex_prefix : Text
hex_prefix = b'0' ∷ b'x' ∷ []

abbrev pub first_port : Text
first_port = b'C' ∷ b'O' ∷ b'M' ∷ b'1' ∷ []

abbrev pub second_port : Text
second_port = b'C' ∷ b'O' ∷ b'M' ∷ b'2' ∷ []

abbrev pub dash : Text
dash = b'-' ∷ []

abbrev pub braking : Text
braking =
    b'a' ∷ b'c' ∷ b'c' ∷ b' ' ∷ b'a' ∷ b'n' ∷ b'd' ∷ b' ' ∷ b'b' ∷ b'r' ∷ b'a' ∷ b'k' ∷ b'i' ∷ b'n'
    ∷ b'g' ∷ b':' ∷ b' ' ∷ b'0' ∷ b'.' ∷ b'0' ∷ b'1' ∷ []

-- `strings.HasPrefix`, with its arguments swapped.
unfoldable pub is_prefix : Text → Text → Bool
is_prefix [] t = true
is_prefix (p ∷ ps) [] = false
is_prefix (p ∷ ps) (c ∷ cs) = p == c && is_prefix ps cs

-- `strings.Split` at a separator that is not empty, behind so many characters of one that was found.
unfoldable pub split_behind : Text → ℕ → Text → List Text
split_behind sep skip [] = [] ∷ []
split_behind sep (suc skip) (c ∷ cs) = split_behind sep skip cs
split_behind sep zero (c ∷ cs) = elim (is_prefix sep (c ∷ cs)) [
  | true ↦ [] ∷ split_behind sep (length sep - 1) cs
  | false ↦ add_first c (split_behind sep 0 cs)
]

unfoldable pub concat : List Text → Text
concat [] = []
concat (x ∷ xs) = x ++ concat xs

-- `strings.ReplaceAll` by the empty string.
unfoldable pub remove_all : Text → Text → Text
remove_all sep t = concat (split_behind sep 0 t)

-- `rowTypesMap`
unfoldable pub row_type : Text → Option ℕ
row_type t =
    if same_text t (b'u' ∷ b'n' ∷ b's' ∷ b'i' ∷ b'g' ∷ b'n' ∷ b'e' ∷ b'd' ∷ [])
    then some element_unsigned
    else if same_text t (b's' ∷ b'i' ∷ b'g' ∷ b'n' ∷ b'e' ∷ b'd' ∷ [])
    then some element_signed
    else if same_text t (b'h' ∷ b'e' ∷ b'x' ∷ [])
    then some element_hex
    else if same_text t (b'a' ∷ b's' ∷ b'c' ∷ b'i' ∷ b'i' ∷ [])
    then some element_ascii
    else if same_text t (
        b'u' ∷ b'n' ∷ b's' ∷ b'i' ∷ b'g' ∷ b'n' ∷ b'e' ∷ b'd' ∷ b' ' ∷ b'l' ∷ b'o' ∷ b'n' ∷ b'g'
        ∷ b' ' ∷ b'i' ∷ b'n' ∷ b't' ∷ [])
    then some element_unsigned
    else if same_text t (b'u' ∷ b'n' ∷ b's' ∷ b'i' ∷ b'g' ∷ b'e' ∷ b'd' ∷ [])
    then some element_unsigned
    else if same_text t string_type
    then some element_ascii
    else none

abbrev pub is_empty : Text → Bool
is_empty t = length t == 0

-- The texts that are not empty.
unfoldable pub nonempty : List Text → List Text
nonempty [] = []
nonempty (t ∷ ts) = let rest = nonempty ts in if not (is_empty t) then t ∷ rest else rest

abbrev pub is_above : ℤ → ℕ → Bool
is_above (pos n) k = ltb k n
is_above (negsuc n) k = false

unfoldable pub has_limits : Text → Text → Bool
has_limits raw_min raw_max =
    not (is_empty raw_min)
    && not (is_empty raw_max)
    && not (is_prefix hex_prefix raw_max)
    && not (is_prefix hex_prefix raw_min)

-- Integers that have no fixed number of bytes up to 8 are taken as HEX.
unfoldable pub fitting_type : ℕ → ℤ → ℕ
fitting_type type n =
    if not (type == element_hex)
      && not (type == element_ascii)
      && (same_int n (negsuc 0) || is_above n 8)
    then element_hex
    else type

module _ ⦃lib : Library⦄ where
  unfoldable pub scanned_bytes : Text → Text → ℤ
  scanned_bytes raw_bytes raw_type =
      if is_empty raw_bytes && same_text raw_type string_type
      then negsuc 0
      else elim (lib.scan_int raw_bytes) [ none ↦ negsuc 0 | some n ↦ n ]

  unfoldable pub row_groups : List Text → List Text
  row_groups (links ∷ groups ∷ more) = lib.sort (unique (map lib.trim (split groups)))
  row_groups _ = lib.sort []

  unfoldable pub row_models : Text → List Text → List Text
  row_models model links = lib.sort (unique (model ∷ nonempty links))

  -- The number of one port.
  unfoldable pub port_id : Text → ℤ
  port_id t = lib.atoi (lib.trim (remove_all dash t))

  module _ {V : Type 0} ⦃fl : Float V⦄ where
    unfoldable pub with_id : IoElementDefinition V → Text → ℤ → IoElementDefinition V
    with_id def name id =
        normalize lib.to_lower (record def { id = to_unsigned 32768 id; name = name })

    unfoldable pub both_ports :
        IoElementDefinition V → List Text → Result (Option (List (IoElementDefinition V)))
    both_ports def (id1 ∷ id2 ∷ more) = ok (
        some (
          with_id def (first_port ++ b' ' ∷ def.name) (port_id id1)
          ∷ with_id def (second_port ++ b' ' ∷ def.name) (port_id id2)
          ∷ []))
    both_ports def _ = panic

    -- What is returned for the number of a row, which may be those of two ports.
    unfoldable pub numbered :
        Text → IoElementDefinition V → Result (Option (List (IoElementDefinition V)))
    numbered raw_id def =
        if is_prefix first_port raw_id
        then both_ports def (split_behind second_port 0 (remove_all first_port raw_id))
        else ok (some (with_id def def.name (lib.atoi raw_id) ∷ []))

    -- The definition of a row without its number, if its limits and multiplier were scanned.
    unfoldable pub row_definition :
        Text
        → Text
        → Text
        → Text
        → Text
        → List Text
        → List Text
        → Option V
        → Option V
        → Option V
        → Option (IoElementDefinition V)
    row_definition name raw_bytes raw_type units description models groups (some min) (some max)
          (some multiplier) =
        let known = row_type (lib.to_lower raw_type) in
        let n : ℤ = elim known [ none ↦ negsuc 0 | some t ↦ scanned_bytes raw_bytes raw_type ] in
        let type : ℕ = elim known [ none ↦ element_unsigned | some t ↦ t ] in
        some (record {
          id = 0;
          name = name;
          num_bytes = n;
          type = fitting_type type n;
          min = min;
          max = max;
          multiplier = multiplier;
          units = units;
          description = description;
          supported_models = models;
          groups = groups;
        })
    row_definition name raw_bytes raw_type units description models groups _ _ _ = none

    unfoldable pub numbered_row :
        Text → Option (IoElementDefinition V) → Result (Option (List (IoElementDefinition V)))
    numbered_row raw_id none = ok none
    numbered_row raw_id (some def) = numbered raw_id def

    module _ ⦃sn : Scanner V⦄ where
      -- A number that is scanned if the test holds; `none` is the early return.
      unfoldable pub scanned : Bool → Text → V → Option V
      scanned test raw default = if test then sn.scan_float raw else some default

      -- The texts of the cells, and of the links in the tenth; nil is `none`. Fewer than nine cells are
      -- an index out of range.
      unfoldable pub parse_table_row :
          Text → List Text → List Text → Result (Option (List (IoElementDefinition V)))
      parse_table_row model (id ∷ name ∷ bytes ∷ type ∷ min ∷ max ∷ mult ∷ units ∷ desc ∷ more)
            links =
          let limited = has_limits min max in
          let factor = not (is_empty mult) && not (same_text mult braking) in
          numbered_row id (
            row_definition name bytes type units desc (row_models model links) (row_groups more)
              (scanned limited min (fl.of_nat 0)) (scanned limited max (fl.of_nat 0))
              (scanned factor mult (fl.of_nat 1)))
      parse_table_row model _ links = panic
