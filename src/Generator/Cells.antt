-- ===== src/Generator/Cells.antt =====
-- tools/io_elements_gen.go: `asText`, the text of a table's cell.
pub mod Quoted
use teltonika.Prelude.{
  ℕ, zero, suc, ◌+◌, ◌-◌, Bool, true, false, ◌&&◌, ◌||◌, List, [], ◌∷◌, length, take, drop, ltb,
  ◌==◌, get_or, if◌then◌else◌,
}
use teltonika.IoElements.{Text, same_text}
use teltonika.Texts.{trim}

abbrev pub quote : ℕ
quote = b'"'

-- The characters " \n\t", at which strings.Trim cuts.
unfoldable pub is_trimmed : ℕ → Bool
is_trimmed c = c == b' ' || c == b'\n' || c == b'\t'

-- strings.Trim at these.
unfoldable pub trim_blank : Text → Text
unfolding is_trimmed
trim_blank t = trim is_trimmed t

-- A hyphen, and the three bytes of an en dash.
abbrev pub hyphen : Text
hyphen = b'-' ∷ []

abbrev pub en_dash : Text
en_dash = 0xe2 ∷ 0x80 ∷ 0x93 ∷ []

-- The bytes of the character in front, if the regular expression matches it: a space, a tab, a
-- narrow no-break space or a no-break space in UTF-8.
unfoldable pub space_size : Text → ℕ
space_size [] = 0
space_size (c ∷ cs) =
    if c == b' ' || c == b'\t'
    then 1
    else if c == 0xe2 && get_or cs 0 0 == 0x80 && get_or cs 1 0 == 0xaf
    then 3
    else if c == 0xc2 && get_or cs 0 0 == 0xa0
    then 2
    else 0

-- ReplaceAllString of each run of such characters by one space: whether the text stands behind one
-- of them, and the bytes of it that are left.
unfoldable pub collapse : Bool → ℕ → Text → Text
collapse behind skip [] = []
collapse behind (suc skip) (c ∷ cs) = collapse behind skip cs
collapse behind zero (c ∷ cs) = elim (space_size (c ∷ cs)) [
  | zero ↦ c ∷ collapse false 0 cs
  | suc more ↦ let rest = collapse true more cs in if behind then rest else b' ' ∷ rest
]

-- `strings.Count` of a byte.
unfoldable pub count_byte : ℕ → Text → ℕ
count_byte b [] = 0
count_byte b (c ∷ cs) = let rest = count_byte b cs in if c == b then suc rest else rest

-- The removal of quotation marks. The slice bound is that of the source.
unfoldable pub unquoted : Text → Text
unquoted res =
    if ltb 2 (length res)
      && count_byte quote res == 2
      && get_or res 0 0 == quote
      && get_or res (length res - 1) 0 == quote
    then drop 1 (take (length res - 2) res)
    else res

unfoldable pub as_text : Text → Text
as_text text =
    let str = trim_blank text in
    if same_text str hyphen || same_text str en_dash
    then []
    else unquoted (trim_blank (collapse false 0 str))
