-- ===== src/Tests/Generator.antt =====
-- The theorems on the generator of definitions, at concrete definitions.
use teltonika.Prelude.{
  false, map, ◌++◌, ℕ, ◌≡◌, refl, List, [], ◌∷◌, ◌==◌, ◌&&◌, Bool, if◌then◌else◌, ok, some, length,
}
use teltonika.Prelude.Int.{pos}
use teltonika.IoElements.{Text, same_text, IoElementDefinition, element_unsigned}
use teltonika.Generator.{Float, same_int, contains, slice_any, slice_all, overlap, contains_all}
use teltonika.Generator.Preferences.{
  is_definitions_equal_except_supported_models, is_definitions_equal, is_comparable, DifferInMax,
}
use teltonika.Generator.Collect.{verdict, on_definition, replaces, skips}
use teltonika.Generator.Collect.Replacing.{on_definition-shifted}
use teltonika.Generator.Normalize.{is_among, limits, is_doubled, shorter, normal_max, normalize}
use teltonika.Generator.Normalize.Stable.{normalize_twice}
use teltonika.Generator.Rows.{Library, Scanner}
use teltonika.Generator.Output.{all_supported_models}
use teltonika.Generator.Cells.{count_byte}
use teltonika.Generator.Source.{
  Printer, FloatPrinter, package_words, definitions_words, type_words, generate,
}
use teltonika.Generator.Source.Rows.{models_of, row_of}
use teltonika.Generator.Source.Lines.{
  lines, IsOneLine, ArePlain, import_lines, prefix_for, generate-lines,
}
use teltonika.Generator.Csv.{unmarshal_strings, marshal_strings, unmarshal_strings-marshal_strings}

-- Floating-point numbers that are whole.
instance abbrev whole : Float ℕ
whole = record { equal = λ a b. a == b; of_nat = λ n. n }

abbrev fmb : Text
fmb = b'F' ∷ b'M' ∷ b'B' ∷ []

abbrev fmc : Text
fmc = b'F' ∷ b'M' ∷ b'C' ∷ []

abbrev fmm : Text
fmm = b'F' ∷ b'M' ∷ b'M' ∷ []

abbrev made : ℕ → ℕ → ℕ → List Text → IoElementDefinition ℕ
made id min max models = record {
  id = id;
  name = [];
  num_bytes = pos 2;
  type = element_unsigned;
  min = min;
  max = max;
  multiplier = 1;
  units = [];
  description = [];
  supported_models = models;
  groups = [];
}

unfoldable same_models : List Text → List Text → Bool
same_models xs ys = contains_all xs ys && contains_all ys xs

differ : DifferInMax same_models (made 9 1 0 (fmb ∷ [])) (made 9 1 7 (fmb ∷ []))
unfolding is_comparable same_int same_text same_models contains_all slice_all contains
differ = record {
  comparable = refl;
  comparable_back = refl;
  multiplier = refl;
  multiplier_back = refl;
  min = refl;
  min_back = refl;
  max = refl;
  max_back = refl;
  first_min = refl;
  second_min = refl;
  first_max = refl;
  second_max = refl;
}

-- A definition for two models, those for each of them, and one for another number.
abbrev wide : IoElementDefinition ℕ
wide = made 9 0 7 (fmb ∷ fmc ∷ [])

abbrev first_half : IoElementDefinition ℕ
first_half = made 9 0 5 (fmb ∷ [])

abbrev second_half : IoElementDefinition ℕ
second_half = made 9 0 6 (fmc ∷ [])

abbrev other : IoElementDefinition ℕ
other = made 10 0 5 (fmm ∷ [])

half-replaces :
    (verdict same_models (λ t. t) first_half wide ≡ replaces)
    × (verdict same_models (λ t. t) second_half wide ≡ replaces)
    × (verdict same_models (λ t. t) other wide ≡ skips)
unfolding verdict is_definitions_equal is_definitions_equal_except_supported_models same_int
    same_text same_models overlap contains_all slice_any slice_all contains
half-replaces = (refl, refl, refl)

on_definition-shifted_example :
    on_definition same_models (λ t. t) (first_half ∷ second_half ∷ other ∷ []) wide
    ≡ ok (second_half ∷ wide ∷ [])
on_definition-shifted_example =
    on_definition-shifted same_models (λ t. t) wide [] [] [] first_half second_half other tt tt
      (half-replaces.2, tt) half-replaces.0 half-replaces.1

abbrev trim_front : Text → Text
trim_front [] = []
trim_front (c ∷ cs) = let rest = trim_front cs in if c == b' ' then rest else c ∷ cs

unmarshal_strings-marshal_strings_example :
    unmarshal_strings trim_front (marshal_strings (fmb ∷ fmc ∷ [])) ≡ fmb ∷ fmc ∷ []
unmarshal_strings-marshal_strings_example =
    unmarshal_strings-marshal_strings trim_front fmb (fmc ∷ []) (λ u. refl)
      (((refl, (refl, (refl, tt))), refl), (((refl, (refl, (refl, tt))), refl), tt))

abbrev corrected : IoElementDefinition ℕ
corrected = made 10836 0 65535 (fmb ∷ [])

normalize_twice_example :
    normalize (λ t. t) (normalize (λ t. t) corrected) ≡ normalize (λ t. t) corrected
unfolding same_text
normalize_twice_example = normalize_twice ℕ (λ a b h k. refl) (λ t. t) corrected refl

-- The correction of its maximum goes by way of 0.
corrected_max : (normalize (λ t. t) corrected).max ≡ 32767
unfolding normalize normal_max limits is_doubled shorter is_among slice_any same_int
corrected_max = refl

instance abbrev library : Library
library = record {
  scan_int = λ t. some (pos (length t));
  atoi = λ t. pos (length t);
  to_lower = λ t. t;
  trim = λ t. t;
  sort = λ ts. ts;
}

instance abbrev scanner : Scanner ℕ
scanner = record { scan_float = λ t. some (length t) }

-- Numbers that are printed as nothing, and strings without any escapes.
instance abbrev printer : Printer
printer = record { wrap_str = λ t. []; format_int = λ n. b'7' ∷ [] }

instance abbrev float_printer : FloatPrinter ℕ
float_printer = record { format_float = λ x. b'0' ∷ [] }

printers-ArePlain : ArePlain {V = ℕ} printer float_printer
unfolding count_byte
printers-ArePlain = record { str = λ t. refl; int = λ n. refl; float = λ x. refl }

m_line : IsOneLine (b'm' ∷ [])
unfolding count_byte
m_line = refl

generate-lines_example :
    lines (generate (λ t. t) (b'm' ∷ []) false (wide ∷ other ∷ []))
    ≡ (package_words ++ b'm' ∷ [])
      ∷ []
      ∷ (import_lines false
          ++ models_of (all_supported_models (λ t. t) (wide ∷ other ∷ []))
            ∷ []
            ∷ (definitions_words ++ (prefix_for false ++ type_words))
            ∷ (map (row_of (prefix_for false)) (wide ∷ other ∷ []) ++ (b'}' ∷ []) ∷ [] ∷ []))
generate-lines_example =
    generate-lines printers-ArePlain (λ t. t) (b'm' ∷ []) false (wide ∷ other ∷ []) m_line
