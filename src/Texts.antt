-- ===== src/Texts.antt =====
-- strings.Trim and strings.Join, as the generator and the examples use them.
use teltonika.Prelude.{
  ℕ, ◌≡◌, refl, ap, Bool, true, false, ◌&&◌, List, [], ◌∷◌, ◌++◌, All, if◌then◌else◌,
}

-- strings.Join: the pieces with a text between each two of them.
unfoldable pub join_with : List ℕ → List (List ℕ) → List ℕ
join_with by [] = []
join_with by (t ∷ []) = t
join_with by (t ∷ u ∷ us) = t ++ by ++ join_with by (u ∷ us)

module _ (cut : ℕ → Bool) where
  unfoldable pub trim_left : List ℕ → List ℕ
  trim_left [] = []
  trim_left (c ∷ cs) = let rest = trim_left cs in if cut c then rest else c ∷ cs

  -- Whether nothing but characters to be cut follows.
  unfoldable pub is_blank : List ℕ → Bool
  is_blank [] = true
  is_blank (c ∷ cs) = cut c && is_blank cs

  unfoldable pub trim_right : List ℕ → List ℕ
  trim_right [] = []
  trim_right (c ∷ cs) = let rest = c ∷ trim_right cs in if is_blank (c ∷ cs) then [] else rest

  unfoldable pub trim : List ℕ → List ℕ
  trim t = trim_right (trim_left t)

  -- A character that stays.
  abbrev pub IsKept : ℕ → Type 0
  IsKept c = cut c ≡ false

  is_blank-kept : (t : List ℕ) (c : ℕ) → All IsKept t → IsKept c → is_blank (t ++ c ∷ []) ≡ false
  unfolding is_blank
  is_blank-kept [] c h p = rw p refl
  is_blank-kept (d ∷ t) c (q, h) p = rw q refl

  pub trim_right-kept :
      (t : List ℕ) (c : ℕ) → All IsKept t → IsKept c → trim_right (t ++ c ∷ []) ≡ t ++ c ∷ []
  unfolding trim_right
  trim_right-kept [] c h p = rw (is_blank-kept [] c tt p) refl
  trim_right-kept (d ∷ t) c (q, h) p =
      rw (is_blank-kept (d ∷ t) c (q, h) p) (ap (λ (r : List ℕ). d ∷ r) (trim_right-kept t c h p))

  -- The text in front of a character that is cut.
  trim_right-cut : (t : List ℕ) (c : ℕ) → All IsKept t → cut c ≡ true → trim_right (t ++ c ∷ []) ≡ t
  unfolding trim_right is_blank
  trim_right-cut [] c h p = rw p refl
  trim_right-cut (d ∷ t) c (q, h) p = rw q (ap (λ (r : List ℕ). d ∷ r) (trim_right-cut t c h p))

  pub trim-cut : (t : List ℕ) (c : ℕ) → All IsKept t → cut c ≡ true → trim (t ++ c ∷ []) ≡ t
  unfolding trim trim_left trim_right
  trim-cut [] c h p = rw p refl
  trim-cut (d ∷ t) c (q, h) p = rw q (trim_right-cut (d ∷ t) c (q, h) p)
