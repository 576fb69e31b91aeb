-- ===== src/Encode/Sizes.antt =====
-- The functions that calculate sizes give the lengths of what the wire format holds.
use teltonika.Prelude.{
  ℕ, ◌+◌, ◌*◌, ◌<◌, ◌≡◌, refl, ap, arith, true, not, List, [], ◌∷◌, ◌++◌, length, length-append,
  All, if◌then◌else◌, ok, le→leb, ◌==◌, Bool-cases, inl, inr,
}
use teltonika.Packet.{IoElement}
use teltonika.Decode.Elements.{group_widths}
use teltonika.Encode.Elements.{
  is_group_width, elements_size_codec8, elements_size_codec16, elements_size_codec8e,
}
use teltonika.Wire.{of_width, of_other_width, entries_code, entries_nx_code, groups_code}

-- What the elements take up when a number takes `k` bytes.
pub cost : ℕ → List IoElement → ℕ
cost k [] = 0
cost k (e ∷ es) = let n = length e.value in (if is_group_width n then n + k else n + 4) + cost k es

module _ (id_code : ℕ → List ℕ) (k : ℕ) (id_size : (id : ℕ) → length (id_code id) ≡ k) where
  entry-length :
      (e : IoElement) (rest : List ℕ)
      → length (id_code e.id ++ (e.value ++ rest)) ≡ k + length e.value + length rest
  entry-length e rest = omega (
    arith,
    length-append (id_code e.id) (e.value ++ rest),
    length-append e.value rest,
    id_size e.id,
  )

  -- The bytes of one group.
  group_length : ℕ → List IoElement → ℕ
  group_length width es = length (entries_code id_code (of_width width es))

  group_length-cons :
      (width : ℕ) (e : IoElement) (es : List IoElement)
      → group_length width (e ∷ es)
        ≡ (if length e.value == width then k + length e.value else 0) + group_length width es
  unfolding group_length of_width entries_code
  group_length-cons width e es = elim (Bool-cases (length e.value == width)) [
    | inl same ↦ rw same (entry-length e (entries_code id_code (of_width width es)))
    | inr other ↦ rw other (omega arith)
  ]

  nx_length-cons :
      (e : IoElement) (es : List IoElement)
      → length (entries_nx_code (of_other_width (e ∷ es)))
        ≡ (if is_group_width (length e.value) then 0 else 4 + length e.value)
          + length (entries_nx_code (of_other_width es))
  unfolding of_other_width entries_nx_code
  nx_length-cons e es = elim (Bool-cases (is_group_width (length e.value))) [
    | inl grouped ↦ rw grouped (omega arith)
    | inr other ↦
        rw other (omega (arith, length-append e.value (entries_nx_code (of_other_width es))))
  ]

  -- Each element is paid for once.
  share :
      (n : ℕ)
      → (if n == 1 then k + n else 0)
          + (if n == 2 then k + n else 0)
          + (if n == 4 then k + n else 0)
          + (if n == 8 then k + n else 0)
          + (if is_group_width n then 0 else 4 + n)
        ≡ (if is_group_width n then n + k else n + 4)
  share n = ground arith

  groups-cost :
      (es : List IoElement)
      → group_length 1 es
          + group_length 2 es
          + group_length 4 es
          + group_length 8 es
          + length (entries_nx_code (of_other_width es))
        ≡ cost k es
  unfolding cost
  groups-cost [] =
      unfold group_length of_width of_other_width entries_code entries_nx_code in omega arith
  groups-cost (e ∷ es) = omega (
    arith,
    group_length-cons 1 e es,
    group_length-cons 2 e es,
    group_length-cons 4 e es,
    group_length-cons 8 e es,
    nx_length-cons e es,
    share (length e.value),
    groups-cost es,
  )

  module _ (count_code : ℕ → List ℕ) (c : ℕ)
      (count_size : (n : ℕ) → length (count_code n) ≡ c) where
    length-groups_code_cons :
        (width : ℕ) (widths : List ℕ) (es : List IoElement)
        → length (groups_code count_code id_code (width ∷ widths) es)
          ≡ c + group_length width es + length (groups_code count_code id_code widths es)
    unfolding groups_code group_length
    length-groups_code_cons width widths es =
        let code = entries_code id_code (of_width width es) in
        let rest = groups_code count_code id_code widths es in
        let n = length (of_width width es) in
        omega (
          arith,
          length-append (count_code n) (code ++ rest),
          length-append code rest,
          count_size n,
        )

    -- The groups and the other elements take four counts and what the elements cost.
    pub length-groups_code :
        (es : List IoElement)
        → length (groups_code count_code id_code group_widths es)
            + length (entries_nx_code (of_other_width es))
          ≡ 4 * c + cost k es
    length-groups_code es =
        let end : length (groups_code count_code id_code [] es) ≡ 0 = unfold groups_code in refl in
        omega (
          arith,
          length-groups_code_cons 1 (2 ∷ 4 ∷ 8 ∷ []) es,
          length-groups_code_cons 2 (4 ∷ 8 ∷ []) es,
          length-groups_code_cons 4 (8 ∷ []) es,
          length-groups_code_cons 8 [] es,
          groups-cost es,
        )

pub elements_size_codec8-cost :
    (es : List IoElement) (i acc : ℕ)
    → All (λ e. e.id < 256) es
    → All (λ e. is_group_width (length e.value) ≡ true) es
    → elements_size_codec8 i es acc ≡ ok (acc + cost 1 es)
unfolding elements_size_codec8 cost
elements_size_codec8-cost [] i acc h k = ap ok (omega arith)
elements_size_codec8-cost (e ∷ es) i acc (h, hs) (k, ks) =
    let n = length e.value in
    let sum : acc + (n + 1) + cost 1 es ≡ acc + (n + 1 + cost 1 es) = omega arith in
    rw (
      le→leb e.id 255 (omega arith),
      k,
      elements_size_codec8-cost es (i + 1) (acc + (n + 1)) hs ks,
      sum,
    )

pub elements_size_codec16-cost :
    (es : List IoElement) (i acc : ℕ)
    → All (λ e. is_group_width (length e.value) ≡ true) es
    → elements_size_codec16 i es acc ≡ ok (acc + cost 2 es)
unfolding elements_size_codec16 cost
elements_size_codec16-cost [] i acc k = ap ok (omega arith)
elements_size_codec16-cost (e ∷ es) i acc (k, ks) =
    let n = length e.value in
    let sum : acc + (n + 2) + cost 2 es ≡ acc + (n + 2 + cost 2 es) = omega arith in
    rw (k, elements_size_codec16-cost es (i + 1) (acc + (n + 2)) ks, sum)

nonzero : (n : ℕ) → 0 < n → not (n == 0) ≡ true
nonzero n h = ground arith

pub elements_size_codec8e-cost :
    (es : List IoElement) (i acc : ℕ)
    → All (λ e. (length e.value < 65536) × (0 < length e.value)) es
    → elements_size_codec8e i es acc ≡ ok (acc + cost 2 es)
unfolding elements_size_codec8e cost
elements_size_codec8e-cost [] i acc h = ap ok (omega arith)
elements_size_codec8e-cost (e ∷ es) i acc (h, hs) =
    let n = length e.value in
    let size = if is_group_width n then n + 2 else n + 4 in
    let sum : acc + size + cost 2 es ≡ acc + (size + cost 2 es) = omega arith in
    rw (
      le→leb n 65535 (omega arith),
      nonzero n h.1,
      elements_size_codec8e-cost es (i + 1) (acc + size) hs,
      sum,
    )
