-- ===== src/Generator/Source/Rows.antt =====
-- tools/io_elements_gen.go: the lines with the models and the definitions, as a reader of the Go file
-- sees them: values between commas in braces.
use teltonika.Prelude.{
  ℕ, zero, suc, ◌≡◌, refl, ap, ◌∙◌, false, List, [], ◌∷◌, ◌++◌, map, append_assoc, arith, ◌==◌,
}
use teltonika.Prelude.Int.{pos}
use teltonika.IoElements.{Text, IoElementDefinition}
use teltonika.Generator.Csv.{join}
use teltonika.Generator.Rows.{nonempty, concat}
use teltonika.Generator.Source.{
  Printer, FloatPrinter, models_words, true_words, unsigned_type, signed_type, hex_type, ascii_type,
  strings_words, type_name, string_list, definition_line, models_line,
}

-- The values with commas between them.
abbrev pub listed : List Text → Text
listed [] = []
listed (t ∷ []) = t
listed (t ∷ u ∷ us) = t ++ b',' ∷ b' ' ∷ listed (u ∷ us)

-- The constant of ioelements for a type.
unfoldable pub constant_of : ℕ → Text
constant_of zero = signed_type
constant_of (suc zero) = unsigned_type
constant_of (suc (suc zero)) = hex_type
constant_of (suc (suc (suc zero))) = ascii_type
constant_of (suc (suc (suc (suc n)))) = []

module _ ⦃pr : Printer⦄ where
  -- A slice of strings without the empty ones.
  abbrev pub strings_of : List Text → Text
  strings_of ts = strings_words ++ (listed (map pr.wrap_str (nonempty ts)) ++ b'}' ∷ [])

  -- The map from each model to true.
  abbrev pub models_of : List Text → Text
  models_of models =
      models_words
      ++ (listed (map (λ t. pr.wrap_str t ++ b':' ∷ b' ' ∷ b't' ∷ b'r' ∷ b'u' ∷ b'e' ∷ []) models)
          ++ b'}' ∷ [])

module _ {V : Type 0} ⦃pr : Printer⦄ ⦃fp : FloatPrinter V⦄ where
  -- The fields of IOElementDefinition in their order, for a composite literal without names.
  abbrev pub fields_of : Text → IoElementDefinition V → List Text
  fields_of prefix m =
      pr.format_int (pos m.id)
      ∷ pr.wrap_str m.name
      ∷ pr.format_int m.num_bytes
      ∷ (prefix ++ constant_of m.type)
      ∷ fp.format_float m.min
      ∷ fp.format_float m.max
      ∷ fp.format_float m.multiplier
      ∷ pr.wrap_str m.units
      ∷ pr.wrap_str m.description
      ∷ strings_of m.supported_models
      ∷ strings_of m.groups
      ∷ []

  abbrev pub row_of : Text → IoElementDefinition V → Text
  row_of prefix m = b'\t' ∷ b'{' ∷ (listed (fields_of prefix m) ++ b'}' ∷ b',' ∷ [])

join-listed : (ts : List Text) → join ts ≡ listed ts
unfolding join
join-listed [] = refl
join-listed (t ∷ []) = refl
join-listed (t ∷ u ∷ us) = ap (λ r. t ++ b',' ∷ b' ' ∷ r) (join-listed (u ∷ us))

type_name-constant_of : (type : ℕ) → type_name type ≡ constant_of type
unfolding type_name constant_of
type_name-constant_of zero = refl
type_name-constant_of (suc zero) = refl
type_name-constant_of (suc (suc zero)) = refl
type_name-constant_of (suc (suc (suc zero))) = refl
type_name-constant_of (suc (suc (suc (suc n)))) =
    let type = suc (suc (suc (suc n))) in
    let not_0 : (type == 0) ≡ false = ground arith in
    let not_1 : (type == 1) ≡ false = ground arith in
    let not_2 : (type == 2) ≡ false = ground arith in
    let not_3 : (type == 3) ≡ false = ground arith in rw (not_1, not_0, not_2, not_3) refl

module _ ⦃pr : Printer⦄ where
  string_list-strings_of : (ts : List Text) → string_list ts ≡ strings_of ts
  unfolding string_list
  string_list-strings_of ts = rw (join-listed (map pr.wrap_str (nonempty ts))) refl

  pub models_line-models_of : (models : List Text) → models_line models ≡ models_of models
  unfolding models_line
  models_line-models_of models =
      rw (join-listed (map (λ t. pr.wrap_str t ++ true_words) models)) refl

-- The values with something behind the last one.
abbrev ending_in : List Text → Text → Text
ending_in [] e = e
ending_in (t ∷ []) e = t ++ e
ending_in (t ∷ u ∷ us) e = t ++ b',' ∷ b' ' ∷ ending_in (u ∷ us) e

listed-ending_in : (ts : List Text) (e : Text) → listed ts ++ e ≡ ending_in ts e
listed-ending_in [] e = refl
listed-ending_in (t ∷ []) e = refl
listed-ending_in (t ∷ u ∷ us) e =
    append_assoc t (b',' ∷ b' ' ∷ listed (u ∷ us)) e
    ∙ ap (λ r. t ++ b',' ∷ b' ' ∷ r) (listed-ending_in (u ∷ us) e)

module _ {V : Type 0} ⦃pr : Printer⦄ ⦃fp : FloatPrinter V⦄ where
  pub definition_line-row_of :
      (prefix : Text) (m : IoElementDefinition V) → definition_line prefix m ≡ row_of prefix m
  unfolding definition_line concat
  definition_line-row_of prefix m =
      rw
        (
          listed-ending_in (fields_of prefix m) (b'}' ∷ b',' ∷ []),
          type_name-constant_of m.type,
          string_list-strings_of m.supported_models,
          string_list-strings_of m.groups,
          append_assoc prefix (constant_of m.type),
        )
        refl
