-- ===== src/Wire/Sorting.antt =====
-- How the elements of a frame are split over the groups: each stands in exactly one place.
use teltonika.Prelude.{
  ℕ, ◌+◌, ◌≤◌, ◌≡◌, refl, arith, Bool, true, false, List, [], ◌∷◌, length, length-append, All, ◌==◌,
  ==_iff, if◌then◌else◌, Bool-cases, inl, inr,
}
use teltonika.Packet.{IoElement}
use teltonika.Decode.Elements.{group_widths}
use teltonika.Encode.Elements.{is_group_width}
use teltonika.Wire.{of_width, of_other_width, grouped}

module _ (P : IoElement → Type 0) where
  All-if : (b : Bool) (xs ys : List IoElement) → All P xs → All P ys → All P (if b then xs else ys)
  All-if true xs ys h k = h
  All-if false xs ys h k = k

  pub All-of_width : (width : ℕ) (es : List IoElement) → All P es → All P (of_width width es)
  unfolding of_width
  All-of_width width [] h = tt
  All-of_width width (e ∷ es) (h, hs) =
      All-if (length e.value == width) _ _ (h, All-of_width width es hs) (All-of_width width es hs)

  pub All-of_other_width : (es : List IoElement) → All P es → All P (of_other_width es)
  unfolding of_other_width
  All-of_other_width [] h = tt
  All-of_other_width (e ∷ es) (h, hs) =
      All-if (is_group_width (length e.value)) _ _ (All-of_other_width es hs)
        (h, All-of_other_width es hs)

-- The elements of a group have its width.
pub of_width-All :
    (width : ℕ) (es : List IoElement) → All (λ e. length e.value ≡ width) (of_width width es)
unfolding of_width
of_width-All width [] = tt
of_width-All width (e ∷ es) = elim (Bool-cases (length e.value == width)) [
  | inl same ↦ rw same ((==_iff (length e.value) width).0 same, of_width-All width es)
  | inr other ↦ rw other (of_width-All width es)
]

pub length-of_width-le : (width : ℕ) (es : List IoElement) → length (of_width width es) ≤ length es
unfolding of_width
length-of_width-le width [] = omega arith
length-of_width-le width (e ∷ es) = ground (arith, length-of_width-le width es)

pub length-of_other_width-le : (es : List IoElement) → length (of_other_width es) ≤ length es
unfolding of_other_width
length-of_other_width-le [] = omega arith
length-of_other_width-le (e ∷ es) = ground (arith, length-of_other_width-le es)

-- How many elements the groups hold.
grouped_count : (es : List IoElement) → ℕ
grouped_count es =
    length (of_width 1 es)
    + length (of_width 2 es)
    + length (of_width 4 es)
    + length (of_width 8 es)

length-grouped_count : (es : List IoElement) → length (grouped group_widths es) ≡ grouped_count es
unfolding grouped grouped_count
length-grouped_count es = omega (
  arith,
  length-append (of_width 1 es) (grouped (2 ∷ 4 ∷ 8 ∷ []) es),
  length-append (of_width 2 es) (grouped (4 ∷ 8 ∷ []) es),
  length-append (of_width 4 es) (grouped (8 ∷ []) es),
  length-append (of_width 8 es) (grouped [] es),
)

grouped_count_sum :
    (es : List IoElement) → grouped_count es + length (of_other_width es) ≡ length es
unfolding grouped_count of_width of_other_width
grouped_count_sum [] = omega arith
grouped_count_sum (e ∷ es) = ground (arith, grouped_count_sum es)

-- Every element stands in one group or among the others.
pub length-grouped :
    (es : List IoElement)
    → length (grouped group_widths es) + length (of_other_width es) ≡ length es
length-grouped es = omega (arith, length-grouped_count es, grouped_count_sum es)

-- Where all widths are those of groups nothing is left over.
pub of_other_width_none :
    (es : List IoElement)
    → All (λ e. is_group_width (length e.value) ≡ true) es
    → of_other_width es ≡ []
unfolding of_other_width
of_other_width_none [] h = refl
of_other_width_none (e ∷ es) (h, hs) = rw h (of_other_width_none es hs)
