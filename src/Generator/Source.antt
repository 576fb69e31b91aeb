-- ===== src/Generator/Source.antt =====
-- tools/io_elements_gen.go: the Go source that `generate` prints.
pub mod Lines
pub mod Rows
use teltonika.Prelude.{ℕ, Bool, true, false, not, List, [], ◌∷◌, ◌++◌, map, ◌==◌, if◌then◌else◌}
use teltonika.Prelude.Int.{ℤ, pos}
use teltonika.IoElements.{
  Text, IoElementDefinition, element_signed, element_unsigned, element_hex, element_ascii,
}
use teltonika.Generator.Csv.{join}
use teltonika.Generator.Output.{all_supported_models}
use teltonika.Generator.Rows.{nonempty, concat}

-- What is printed by the standard library: a string by json.Marshal, an integer by the verb %d, and a
-- floating-point number by FormatFloat.
pub record Printer : Type 0 where
  pub wrap_str : Text → Text
  pub format_int : ℤ → Text

pub record FloatPrinter (V : Type 0) : Type 0 where
  pub format_float : V → Text

abbrev pub package_words : Text
package_words = b'p' ∷ b'a' ∷ b'c' ∷ b'k' ∷ b'a' ∷ b'g' ∷ b'e' ∷ b' ' ∷ []

abbrev pub import_line : Text
import_line =
    b'i' ∷ b'm' ∷ b'p' ∷ b'o' ∷ b'r' ∷ b't' ∷ b' ' ∷ b'"' ∷ b'g' ∷ b'i' ∷ b't' ∷ b'h' ∷ b'u' ∷ b'b'
    ∷ b'.' ∷ b'c' ∷ b'o' ∷ b'm' ∷ b'/' ∷ b'a' ∷ b'l' ∷ b'i' ∷ b'm' ∷ b'-' ∷ b'z' ∷ b'a' ∷ b'n'
    ∷ b'i' ∷ b'b' ∷ b'e' ∷ b'k' ∷ b'o' ∷ b'v' ∷ b'/' ∷ b't' ∷ b'e' ∷ b'l' ∷ b't' ∷ b'o' ∷ b'n'
    ∷ b'i' ∷ b'k' ∷ b'a' ∷ b'/' ∷ b'i' ∷ b'o' ∷ b'e' ∷ b'l' ∷ b'e' ∷ b'm' ∷ b'e' ∷ b'n' ∷ b't'
    ∷ b's' ∷ b'"' ∷ []

abbrev pub import_prefix : Text
import_prefix = b'i' ∷ b'o' ∷ b'e' ∷ b'l' ∷ b'e' ∷ b'm' ∷ b'e' ∷ b'n' ∷ b't' ∷ b's' ∷ b'.' ∷ []

abbrev pub models_words : Text
models_words =
    b'v' ∷ b'a' ∷ b'r' ∷ b' ' ∷ b's' ∷ b'u' ∷ b'p' ∷ b'p' ∷ b'o' ∷ b'r' ∷ b't' ∷ b'e' ∷ b'd' ∷ b'M'
    ∷ b'o' ∷ b'd' ∷ b'e' ∷ b'l' ∷ b's' ∷ b' ' ∷ b'=' ∷ b' ' ∷ b'm' ∷ b'a' ∷ b'p' ∷ b'[' ∷ b's'
    ∷ b't' ∷ b'r' ∷ b'i' ∷ b'n' ∷ b'g' ∷ b']' ∷ b'b' ∷ b'o' ∷ b'o' ∷ b'l' ∷ b'{' ∷ []

abbrev pub true_words : Text
true_words = b':' ∷ b' ' ∷ b't' ∷ b'r' ∷ b'u' ∷ b'e' ∷ []

abbrev pub definitions_words : Text
definitions_words =
    b'v' ∷ b'a' ∷ b'r' ∷ b' ' ∷ b'i' ∷ b'o' ∷ b'E' ∷ b'l' ∷ b'e' ∷ b'm' ∷ b'e' ∷ b'n' ∷ b't' ∷ b'D'
    ∷ b'e' ∷ b'f' ∷ b'i' ∷ b'n' ∷ b'i' ∷ b't' ∷ b'i' ∷ b'o' ∷ b'n' ∷ b's' ∷ b' ' ∷ b'=' ∷ b' '
    ∷ b'[' ∷ b']' ∷ []

abbrev pub type_words : Text
type_words =
    b'I' ∷ b'O' ∷ b'E' ∷ b'l' ∷ b'e' ∷ b'm' ∷ b'e' ∷ b'n' ∷ b't' ∷ b'D' ∷ b'e' ∷ b'f' ∷ b'i' ∷ b'n'
    ∷ b'i' ∷ b't' ∷ b'i' ∷ b'o' ∷ b'n' ∷ b'{' ∷ []

abbrev pub unsigned_type : Text
unsigned_type =
    b'I' ∷ b'O' ∷ b'E' ∷ b'l' ∷ b'e' ∷ b'm' ∷ b'e' ∷ b'n' ∷ b't' ∷ b'U' ∷ b'n' ∷ b's' ∷ b'i' ∷ b'g'
    ∷ b'n' ∷ b'e' ∷ b'd' ∷ []

abbrev pub signed_type : Text
signed_type =
    b'I' ∷ b'O' ∷ b'E' ∷ b'l' ∷ b'e' ∷ b'm' ∷ b'e' ∷ b'n' ∷ b't' ∷ b'S' ∷ b'i' ∷ b'g' ∷ b'n' ∷ b'e'
    ∷ b'd' ∷ []

abbrev pub hex_type : Text
hex_type = b'I' ∷ b'O' ∷ b'E' ∷ b'l' ∷ b'e' ∷ b'm' ∷ b'e' ∷ b'n' ∷ b't' ∷ b'H' ∷ b'E' ∷ b'X' ∷ []

abbrev pub ascii_type : Text
ascii_type =
    b'I' ∷ b'O' ∷ b'E' ∷ b'l' ∷ b'e' ∷ b'm' ∷ b'e' ∷ b'n' ∷ b't' ∷ b'A' ∷ b'S' ∷ b'C' ∷ b'I' ∷ b'I'
    ∷ []

abbrev pub separator : Text
separator = b',' ∷ b' ' ∷ []

abbrev pub strings_words : Text
strings_words = b'[' ∷ b']' ∷ b's' ∷ b't' ∷ b'r' ∷ b'i' ∷ b'n' ∷ b'g' ∷ b'{' ∷ []

abbrev pub row_start : Text
row_start = b'\t' ∷ b'{' ∷ []

abbrev pub row_end : Text
row_end = b'}' ∷ b',' ∷ []

-- A closing brace.
abbrev pub brace : Text
brace = b'}' ∷ []

-- `typesMap`; a type that is not in it has no name.
unfoldable pub type_name : ℕ → Text
type_name type =
    if type == element_unsigned
    then unsigned_type
    else if type == element_signed
    then signed_type
    else if type == element_hex
    then hex_type
    else if type == element_ascii
    then ascii_type
    else []

-- A line behind which the next one begins.
abbrev pub ended : Text → Text → Text
ended line rest = line ++ b'\n' ∷ rest

unfoldable pub definitions_line : Text → Text
definitions_line prefix = definitions_words ++ (prefix ++ type_words)

module _ ⦃pr : Printer⦄ where
  -- The list of a definition's models or groups, without the empty ones.
  unfoldable pub string_list : List Text → Text
  string_list ts = strings_words ++ (join (map pr.wrap_str (nonempty ts)) ++ brace)

  unfoldable pub models_line : List Text → Text
  models_line models =
      models_words ++ (join (map (λ t. pr.wrap_str t ++ true_words) models) ++ brace)

module _ {V : Type 0} ⦃pr : Printer⦄ ⦃fp : FloatPrinter V⦄ where
  -- `fmt.Sprintf` of a definition, without the line break.
  unfoldable pub definition_line : Text → IoElementDefinition V → Text
  definition_line prefix m = concat (
      row_start
      ∷ pr.format_int (pos m.id)
      ∷ separator
      ∷ pr.wrap_str m.name
      ∷ separator
      ∷ pr.format_int m.num_bytes
      ∷ separator
      ∷ prefix
      ∷ type_name m.type
      ∷ separator
      ∷ fp.format_float m.min
      ∷ separator
      ∷ fp.format_float m.max
      ∷ separator
      ∷ fp.format_float m.multiplier
      ∷ separator
      ∷ pr.wrap_str m.units
      ∷ separator
      ∷ pr.wrap_str m.description
      ∷ separator
      ∷ string_list m.supported_models
      ∷ separator
      ∷ string_list m.groups
      ∷ row_end
      ∷ [])

  unfoldable pub definition_lines : Text → List (IoElementDefinition V) → Text
  definition_lines prefix [] = ended brace []
  definition_lines prefix (m ∷ ms) = ended (definition_line prefix m) (definition_lines prefix ms)

  -- Both variables.
  unfoldable pub variables : (List Text → List Text) → Text → List (IoElementDefinition V) → Text
  variables sort prefix defs =
      ended (models_line (all_supported_models sort defs))
        (ended [] (ended (definitions_line prefix) (definition_lines prefix defs)))

  -- The contents of the file. Its package's name, and whether it is for use in ioelements, are
  -- options.
  unfoldable pub generate :
      (List Text → List Text) → Text → Bool → List (IoElementDefinition V) → Text
  generate sort package_name internal defs = ended (package_words ++ package_name) (
      ended [] (
        if not internal
        then ended import_line (ended [] (variables sort import_prefix defs))
        else variables sort [] defs))
