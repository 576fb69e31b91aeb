-- ===== src/Generator/Source/Lines.antt =====
-- tools/io_elements_gen.go: the lines of the file that `generate` prints.
use teltonika.Prelude.{
  ℕ, ◌≡◌, refl, inl, inr, Bool, true, false, List, [], ◌∷◌, ◌++◌, map, All, arith, ◌==◌, Bool-cases,
  if◌then◌else◌,
}
use teltonika.Prelude.Int.{ℤ}
use teltonika.IoElements.{
  Text, IoElementDefinition, element_signed, element_unsigned, element_hex, element_ascii,
}
use teltonika.Generator.Cells.{count_byte}
use teltonika.Generator.Cells.Quoted.{count_byte-append}
use teltonika.Generator.Csv.{join, add_first}
use teltonika.Generator.Output.{all_supported_models}
use teltonika.Generator.Rows.{nonempty, concat}
use teltonika.Generator.Source.Rows.{
  models_of, row_of, models_line-models_of, definition_line-row_of,
}
use teltonika.Generator.Source.{
  Printer, FloatPrinter, package_words, import_line, import_prefix, models_words, true_words,
  definitions_words, type_words, unsigned_type, signed_type, hex_type, ascii_type, strings_words,
  brace, type_name, ended, string_list, definition_line, definition_lines, models_line,
  definitions_line, variables, generate,
}

-- The lines of a text.
unfoldable pub lines : Text → List Text
lines [] = [] ∷ []
lines (c ∷ cs) = let rest = lines cs in if c == b'\n' then [] ∷ rest else add_first c rest

-- A text without a line break.
abbrev pub IsOneLine : Text → Type 0
IsOneLine t = count_byte b'\n' t ≡ 0

-- What is printed by the standard library has none: json.Marshal escapes it.
pub record ArePlain {V : Type 0} (pr : Printer) (fp : FloatPrinter V) : Type 0 where
  pub str : (t : Text) → IsOneLine (pr.wrap_str t)
  pub int : (n : ℤ) → IsOneLine (pr.format_int n)
  pub float : (x : V) → IsOneLine (fp.format_float x)

lines-ended : (t rest : Text) → IsOneLine t → lines (ended t rest) ≡ t ∷ lines rest
unfolding lines count_byte
lines-ended [] rest h = refl
lines-ended (c ∷ cs) rest h = elim (Bool-cases (c == b'\n')) [
  | inl break ↦ absurd (omega (arith, rw break at h))
  | inr other ↦ rw (other, lines-ended cs rest (rw other at h)) refl
]

IsOneLine-append : (t u : Text) → IsOneLine t → IsOneLine u → IsOneLine (t ++ u)
IsOneLine-append t u h k = omega (arith, count_byte-append b'\n' t u)

-- A pair, for the facts on a list one by one.
infixr 4 ◌&◌
abbrev ◌&◌ : {A B : Type 0} → A → B → A × B
a & b = (a, b)

IsOneLine-concat : (ts : List Text) → All IsOneLine ts → IsOneLine (concat ts)
unfolding concat count_byte
IsOneLine-concat [] h = refl
IsOneLine-concat (t ∷ ts) (h, hs) = IsOneLine-append t (concat ts) h (IsOneLine-concat ts hs)

IsOneLine-join : (ts : List Text) → All IsOneLine ts → IsOneLine (join ts)
unfolding join count_byte
IsOneLine-join [] h = refl
IsOneLine-join (t ∷ []) (h, _) = h
IsOneLine-join (t ∷ u ∷ us) (h, hs) =
    IsOneLine-append t (b',' ∷ b' ' ∷ join (u ∷ us)) h (IsOneLine-join (u ∷ us) hs)

IsOneLine-map :
    (f : Text → Text) (ts : List Text) → ((t : Text) → IsOneLine (f t)) → All IsOneLine (map f ts)
IsOneLine-map f [] h = tt
IsOneLine-map f (t ∷ ts) h = (h t, IsOneLine-map f ts h)

IsOneLine-if : (b : Bool) (t u : Text) → IsOneLine t → IsOneLine u → IsOneLine (if b then t else u)
IsOneLine-if true t u h k = h
IsOneLine-if false t u h k = k

type_name-IsOneLine : (type : ℕ) → IsOneLine (type_name type)
unfolding type_name count_byte
type_name-IsOneLine type = IsOneLine-if (type == element_unsigned) unsigned_type _ refl (
    IsOneLine-if (type == element_signed) signed_type _ refl (
      IsOneLine-if (type == element_hex) hex_type _ refl
        (IsOneLine-if (type == element_ascii) ascii_type [] refl refl)))

-- A list in braces behind some words.
IsOneLine-braces :
    (front : Text) (ts : List Text)
    → IsOneLine front
    → All IsOneLine ts
    → IsOneLine (front ++ (join ts ++ brace))
unfolding count_byte
IsOneLine-braces front ts h hs =
    IsOneLine-append front (join ts ++ brace) h
      (IsOneLine-append (join ts) brace (IsOneLine-join ts hs) refl)

definitions_line-IsOneLine :
    (prefix : Text) → IsOneLine prefix → IsOneLine (definitions_line prefix)
unfolding definitions_line count_byte
definitions_line-IsOneLine prefix h =
    IsOneLine-append definitions_words (prefix ++ type_words) refl
      (IsOneLine-append prefix type_words h refl)

-- The prefix of the library's names.
abbrev pub prefix_for : Bool → Text
prefix_for internal = if internal then [] else import_prefix

abbrev pub import_lines : Bool → List Text
import_lines internal = if internal then [] else import_line ∷ [] ∷ []

module _ {V : Type 0} ⦃pr : Printer⦄ ⦃fp : FloatPrinter V⦄ (plain : ArePlain pr fp) where
  string_list-IsOneLine : (ts : List Text) → IsOneLine (string_list ts)
  unfolding string_list count_byte
  string_list-IsOneLine ts =
      IsOneLine-braces strings_words (map pr.wrap_str (nonempty ts)) refl
        (IsOneLine-map pr.wrap_str (nonempty ts) plain.str)

  models_line-IsOneLine : (ts : List Text) → IsOneLine (models_line ts)
  unfolding models_line count_byte
  models_line-IsOneLine ts =
      IsOneLine-braces models_words (map (λ t. pr.wrap_str t ++ true_words) ts) refl (
        IsOneLine-map (λ t. pr.wrap_str t ++ true_words) ts
          λ t. IsOneLine-append (pr.wrap_str t) true_words (plain.str t) refl)

  definition_line-IsOneLine :
      (prefix : Text) (m : IoElementDefinition V)
      → IsOneLine prefix
      → IsOneLine (definition_line prefix m)
  unfolding definition_line count_byte
  definition_line-IsOneLine prefix m h = IsOneLine-concat _ (
      refl
      & plain.int _
      & refl
      & plain.str m.name
      & refl
      & plain.int m.num_bytes
      & refl
      & h
      & type_name-IsOneLine m.type
      & refl
      & plain.float m.min
      & refl
      & plain.float m.max
      & refl
      & plain.float m.multiplier
      & refl
      & plain.str m.units
      & refl
      & plain.str m.description
      & refl
      & string_list-IsOneLine m.supported_models
      & refl
      & string_list-IsOneLine m.groups
      & refl
      & tt)

  definition_lines-lines :
      (prefix : Text) (ms : List (IoElementDefinition V))
      → IsOneLine prefix
      → lines (definition_lines prefix ms) ≡ map (row_of prefix) ms ++ brace ∷ [] ∷ []
  unfolding definition_lines lines
  definition_lines-lines prefix [] h = refl
  definition_lines-lines prefix (m ∷ ms) h =
      rw
        (
          lines-ended _ (definition_lines prefix ms) (definition_line-IsOneLine prefix m h),
          definition_lines-lines prefix ms h,
          definition_line-row_of prefix m,
        )
        refl

  variables-lines :
      (sort : List Text → List Text) (prefix : Text) (defs : List (IoElementDefinition V))
      → IsOneLine prefix
      → lines (variables sort prefix defs)
        ≡ models_of (all_supported_models sort defs)
          ∷ []
          ∷ (definitions_words ++ (prefix ++ type_words))
          ∷ (map (row_of prefix) defs ++ brace ∷ [] ∷ [])
  unfolding variables definitions_line count_byte
  variables-lines sort prefix defs h =
      let models = all_supported_models sort defs in
      rw
        (
          lines-ended (models_line models) _ (models_line-IsOneLine models),
          lines-ended [] _ refl,
          lines-ended (definitions_line prefix) _ (definitions_line-IsOneLine prefix h),
          definition_lines-lines prefix defs h,
          models_line-models_of models,
        )
        refl

  -- The file that is generated consists of the package clause, the import unless the file is for use
  -- in ioelements, the variable with the models, which is a map from each to true, and the variable
  -- with the definitions, which stand in their order on one line each, with blank lines in between.
  -- A definition's line has its fields in the order of IOElementDefinition, between commas, with the
  -- constant of its type, and its models and groups as slices of strings. The package's name has no
  -- line break, and neither has what the standard library prints.
  pub generate-lines :
      (sort : List Text → List Text) (package_name : Text) (internal : Bool)
      (defs : List (IoElementDefinition V))
      → IsOneLine package_name
      → lines (generate sort package_name internal defs)
        ≡ (package_words ++ package_name)
          ∷ []
          ∷ (import_lines internal
              ++ models_of (all_supported_models sort defs)
                ∷ []
                ∷ (definitions_words ++ (prefix_for internal ++ type_words))
                ∷ (map (row_of (prefix_for internal)) defs ++ (b'}' ∷ []) ∷ [] ∷ []))
  unfolding generate count_byte
  generate-lines sort package_name true defs h =
      rw
        (
          lines-ended (package_words ++ package_name) _
              (IsOneLine-append package_words package_name refl h),
          lines-ended [] _ refl,
          variables-lines sort [] defs refl,
        )
        refl
  generate-lines sort package_name false defs h =
      rw
        (
          lines-ended (package_words ++ package_name) _
              (IsOneLine-append package_words package_name refl h),
          lines-ended [] _ refl,
          lines-ended import_line _ refl,
          lines-ended [] (variables sort import_prefix defs) refl,
          variables-lines sort import_prefix defs refl,
        )
        refl
