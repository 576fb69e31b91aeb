-- ===== src/Generator.antt =====
-- tools/io_elements_gen.go, which makes the table of I/O elements: what it does with definitions once
-- they are read from a page, and their CSV form.
pub mod Slices
pub mod Preferences
pub mod Normalize
pub mod Rows
pub mod Output
pub mod Collect
pub mod Csv
pub mod Cells
pub mod Fetch
pub mod Pages
pub mod Source
use teltonika.Prelude.{
  ℕ, zero, suc, ◌+◌, Bool, true, false, ◌&&◌, ◌||◌, not, Option, none, some, List, [], ◌∷◌, ◌++◌,
  length, take, drop, ltb, ◌==◌, if◌then◌else◌, Result, ok, err, panic, and_then,
}
use teltonika.Prelude.Int.{ℤ, pos, negsuc}
use teltonika.IoElements.{Text, same_text}

-- `Preference`
pub data Preference : Type 0 where
  prefer_first : Preference
  prefer_second : Preference
  prefer_none : Preference

-- What the tool does with float64: comparison, and the conversion of its literals.
pub record Float (V : Type 0) : Type 0 where
  pub equal : V → V → Bool
  pub of_nat : ℕ → V

unfoldable pub same_int : ℤ → ℤ → Bool
same_int (pos m) (pos n) = m == n
same_int (negsuc m) (negsuc n) = m == n
same_int (pos m) (negsuc n) = false
same_int (negsuc m) (pos n) = false

-- `slices.Contains`
unfoldable pub contains : List Text → Text → Bool
contains [] x = false
contains (y ∷ ys) x = let rest = contains ys x in if same_text y x then true else rest

unfoldable pub slice_any : {A : Type 0} → List A → (A → Bool) → Bool
slice_any [] check = false
slice_any (v ∷ vs) check = let rest = slice_any vs check in if check v then true else rest

unfoldable pub slice_all : {A : Type 0} → List A → (A → Bool) → Bool
slice_all [] check = true
slice_all (v ∷ vs) check = let rest = slice_all vs check in if not (check v) then false else rest

unfoldable pub overlap : List Text → List Text → Bool
overlap a b = slice_any a (λ t. contains b t) || slice_any b (λ t. contains a t)

unfoldable pub contains_all : List Text → List Text → Bool
contains_all a b = slice_all b (λ t. contains a t)

-- `seen[element] = true`
unfoldable pub mark : Text → (Text → Bool) → Text → Bool
mark x seen y = if same_text y x then true else seen y

-- The loop of `unique`; `seen` is the function of its lookups.
unfoldable pub unique_loop : (Text → Bool) → List Text → List Text
unique_loop seen [] = []
unique_loop seen (x ∷ xs) =
    let rest = unique_loop (if not (seen x) then mark x seen else seen) xs in
    if not (seen x) then x ∷ rest else rest

unfoldable pub unique : List Text → List Text
unique xs = unique_loop (λ x. false) xs
