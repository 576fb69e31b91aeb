-- ===== src/Generator/Csv.antt =====
-- tools/io_elements_gen.go: lists of strings and element types in a CSV file.
use teltonika.Prelude.{
  ℕ, ◌≡◌, refl, ap, ◌∙◌, inl, inr, false, List, [], ◌∷◌, ◌++◌, map, All, ◌==◌, Bool-cases,
  if◌then◌else◌, Result, ok, err, and_then, ltb, arith, zero, suc, unknown_element_type,
}
use teltonika.IoElements.{
  Text, same_text, element_signed, element_unsigned, element_hex, element_ascii,
}

-- strings.Join with ", ".
unfoldable pub join : List Text → Text
join [] = []
join (x ∷ []) = x
join (x ∷ y ∷ ys) = x ++ b',' ∷ b' ' ∷ join (y ∷ ys)

abbrev pub add_first : ℕ → List Text → List Text
add_first c [] = (c ∷ []) ∷ []
add_first c (x ∷ xs) = (c ∷ x) ∷ xs

-- strings.Split at ",".
unfoldable pub split : Text → List Text
split [] = [] ∷ []
split (c ∷ cs) = let rest = split cs in if c == b',' then [] ∷ rest else add_first c rest

-- The two methods of `StringSlice`; strings.TrimSpace is a parameter.
unfoldable pub marshal_strings : List Text → Text
marshal_strings r = join r

unfoldable pub unmarshal_strings : (Text → Text) → Text → List Text
unmarshal_strings trim_space csv = map trim_space (split csv)

abbrev pub ascii_name : Text
ascii_name = b'A' ∷ b'S' ∷ b'C' ∷ b'I' ∷ b'I' ∷ []

abbrev pub signed_name : Text
signed_name = b'S' ∷ b'i' ∷ b'g' ∷ b'n' ∷ b'e' ∷ b'd' ∷ []

abbrev pub unsigned_name : Text
unsigned_name = b'U' ∷ b'n' ∷ b's' ∷ b'i' ∷ b'g' ∷ b'n' ∷ b'e' ∷ b'd' ∷ []

abbrev pub hex_name : Text
hex_name = b'H' ∷ b'e' ∷ b'x' ∷ []

-- The two methods of `ElementType`.
unfoldable pub marshal_type : ℕ → Result Text
marshal_type r =
    if r == element_ascii
    then ok ascii_name
    else if r == element_signed
    then ok signed_name
    else if r == element_unsigned
    then ok unsigned_name
    else if r == element_hex
    then ok hex_name
    else err unknown_element_type

unfoldable pub unmarshal_type : Text → Result ℕ
unmarshal_type csv =
    if same_text csv ascii_name
    then ok element_ascii
    else if same_text csv signed_name
    then ok element_signed
    else if same_text csv unsigned_name
    then ok element_unsigned
    else if same_text csv hex_name
    then ok element_hex
    else err unknown_element_type

abbrev pub HasNoComma : Text → Type 0
HasNoComma t = All (λ c. (c == b',') ≡ false) t

split_one : (t : Text) → HasNoComma t → split t ≡ t ∷ []
unfolding split
split_one [] h = refl
split_one (c ∷ cs) (e, h) = rw (e, split_one cs h) refl

split_front : (t rest : Text) → HasNoComma t → split (t ++ b',' ∷ rest) ≡ t ∷ split rest
unfolding split
split_front [] rest h = refl
split_front (c ∷ cs) rest (e, h) = rw (e, split_front cs rest h) refl

split-cons : (t : Text) → (h : Text) × (r : List Text) × (split t ≡ h ∷ r)
unfolding split
split-cons [] = ([], [], refl)
split-cons (c ∷ cs) = elim (Bool-cases (c == b',')) [
  | inl comma ↦ ([], split cs, rw comma refl)
  | inr other ↦ let (h, r, e) = split-cons cs in (c ∷ h, r, rw (other, e) refl)
]

-- A leading space does not matter.
unmarshal_space :
    (trim_space : Text → Text) (t : Text)
    → ((u : Text) → trim_space (b' ' ∷ u) ≡ trim_space u)
    → unmarshal_strings trim_space (b' ' ∷ t) ≡ unmarshal_strings trim_space t
unfolding unmarshal_strings split
unmarshal_space trim_space t space = let (h, r, e) = split-cons t in rw (e, space h) refl

-- Strings without commas and without space around them, at least one of them, are read back from a
-- CSV field as they were written. Of strings.TrimSpace it is assumed that it removes a leading space.
pub unmarshal_strings-marshal_strings :
    (trim_space : Text → Text) (x : Text) (xs : List Text)
    → ((u : Text) → trim_space (b' ' ∷ u) ≡ trim_space u)
    → All (λ t. HasNoComma t × (trim_space t ≡ t)) (x ∷ xs)
    → unmarshal_strings trim_space (marshal_strings (x ∷ xs)) ≡ x ∷ xs
unfolding unmarshal_strings marshal_strings join
unmarshal_strings-marshal_strings trim_space x [] space ((plain, same), h) =
    rw (split_one x plain, same) refl
unmarshal_strings-marshal_strings trim_space x (y ∷ ys) space ((plain, same), h) =
    let rest = unmarshal_strings-marshal_strings trim_space y ys space h in
    let space_rest = unmarshal_space trim_space (join (y ∷ ys)) space in
    rw (split_front x (b' ' ∷ join (y ∷ ys)) plain, same)
      (ap (λ (t : List Text). x ∷ t) (space_rest ∙ rest))

-- The type of an element is read back as it was written; a number that is no type is not written.
unmarshal_type-marshal_type :
    (r : ℕ)
    → and_then (marshal_type r) unmarshal_type
      ≡ (if ltb r 4 then ok r else err unknown_element_type)
unfolding marshal_type unmarshal_type same_text
unmarshal_type-marshal_type zero = refl
unmarshal_type-marshal_type (suc zero) = refl
unmarshal_type-marshal_type (suc (suc zero)) = refl
unmarshal_type-marshal_type (suc (suc (suc zero))) = refl
unmarshal_type-marshal_type (suc (suc (suc (suc r)))) = ground arith
