-- ===== src/Decode/Groups.antt =====
-- Decoding the elements of a frame reads what the wire format puts there.
use teltonika.Prelude.{
  ℕ, suc, ◌+◌, ◌-◌, ◌≤◌, ◌<◌, ◌≡◌, refl, sym, arith, List, [], ◌∷◌, ◌++◌, append_assoc, append-nil,
  length, length-append, replicate, set, set-length_append, All, lt→ltb,
}
use teltonika.Packet.{IoElement}
use teltonika.Util.ByteReader.{Decoder}
use teltonika.Util.ByteReader.Reads.{
  Reads, Reads-pure, Reads-bind, read_bytes-Reads, read_uint16_be-Reads,
}
use teltonika.Decode.Elements.{
  Filling, no_element, make_elements, put_element, decode_group, decode_groups, decode_group_nx,
}
use teltonika.Wire.{of_width, grouped, entries_code, entries_nx_code, groups_code}
use teltonika.Wire.Sorting.{All-of_width, of_width-All, length-of_width-le}

-- The slice of `total` elements with those of `xs` at its front.
abbrev pub filled : List IoElement → ℕ → Filling
filled xs total = record {
  elements = xs ++ replicate (total - length xs) no_element;
  k = length xs;
}

pub make_elements-filled : (total : ℕ) → make_elements total ≡ filled [] total
unfolding make_elements
make_elements-filled total = let e : total - 0 ≡ total = omega arith in rw e

put-filled :
    (xs : List IoElement) (e : IoElement) (total : ℕ)
    → length xs < total
    → set (xs ++ replicate (total - length xs) no_element) (length xs) e
      ≡ xs ++ (e ∷ []) ++ replicate (total - length (xs ++ (e ∷ []))) no_element
put-filled xs e total h =
    let one : total - length xs ≡ suc (total - length xs - 1) = omega arith in
    let less : total - length xs - 1 ≡ total - length (xs ++ (e ∷ [])) =
      omega (arith, length-append xs (e ∷ [])) in
    rw (
      one,
      set-length_append xs (replicate (total - length xs - 1) no_element) no_element e,
      less,
      append_assoc xs (e ∷ []) (replicate (total - length (xs ++ (e ∷ []))) no_element),
    )

put_element-Reads :
    (xs : List IoElement) (e : IoElement) (total : ℕ)
    → length xs < total
    → Reads (put_element total e.id e.value (filled xs total)) [] (filled (xs ++ (e ∷ [])) total)
unfolding put_element
put_element-Reads xs e total h = record {
  runs = λ alloc pre post.
      let count : length xs + 1 ≡ length (xs ++ (e ∷ [])) =
        omega (arith, length-append xs (e ∷ [])) in
      rw (lt→ltb (length xs) total h, put-filled xs e total h, count, append-nil pre);
}

module _ (read_id : Decoder ℕ) (id_code : ℕ → List ℕ) (limit : ℕ)
    (reads_id : (id : ℕ) → id < limit → Reads read_id (id_code id) id) where
  -- The inner loop reads the entries of a group.
  decode_group-Reads :
      (width total : ℕ) (xs es : List IoElement)
      → All (λ e. e.id < limit) es
      → All (λ e. length e.value ≡ width) es
      → length xs + length es ≤ total
      → Reads
          (decode_group read_id total width (length es) (filled xs total))
          (entries_code id_code es)
          (filled (xs ++ es) total)
  unfolding decode_group entries_code
  decode_group-Reads width total xs [] hi hw h = rw (append-nil xs) (Reads-pure (filled xs total))
  decode_group-Reads width total xs (e ∷ es) (hi, his) (hw, hws) h =
      Reads-bind _ (reads_id e.id hi) (
        Reads-bind _ (read_bytes-Reads e.value width hw) (
          Reads-bind _ (put_element-Reads xs e total (omega arith)) (
            rw (← append_assoc xs (e ∷ []) es) (
              decode_group-Reads width total (xs ++ (e ∷ [])) es his hws
                (omega (arith, length-append xs (e ∷ [])))))))

  module _ (read_count : Decoder ℕ) (count_code : ℕ → List ℕ) (most : ℕ)
      (reads_count : (n : ℕ) → n < most → Reads read_count (count_code n) n) where
    -- The outer loop reads the groups.
    pub decode_groups-Reads :
        (widths : List ℕ) (total : ℕ) (xs es : List IoElement)
        → All (λ e. e.id < limit) es
        → length es < most
        → length xs + length (grouped widths es) ≤ total
        → Reads
            (decode_groups read_count read_id total widths (filled xs total))
            (groups_code count_code id_code widths es)
            (filled (xs ++ grouped widths es) total)
    unfolding decode_groups groups_code grouped
    decode_groups-Reads [] total xs es hi hm h = rw (append-nil xs) (Reads-pure (filled xs total))
    decode_groups-Reads (width ∷ widths) total xs es hi hm h =
        let g = of_width width es in
        let room : length g + length (grouped widths es) ≡ length (g ++ grouped widths es) =
          sym (length-append g (grouped widths es)) in
        Reads-bind _ (reads_count (length g) (omega (arith, length-of_width-le width es))) (
          Reads-bind _
            (decode_group-Reads width total xs g (All-of_width (λ e. e.id < limit) width es hi)
              (of_width-All width es) (omega arith))
            (rw (← append_assoc xs g (grouped widths es)) (
              decode_groups-Reads widths total (xs ++ g) es hi hm
                (omega (arith, length-append xs g)))))

-- The last loop of codec 8 extended.
pub decode_group_nx-Reads :
    (total : ℕ) (xs es : List IoElement)
    → All (λ e. (e.id < 65536) × (length e.value < 65536)) es
    → length xs + length es ≤ total
    → Reads
        (decode_group_nx total (length es) (filled xs total))
        (entries_nx_code es)
        (filled (xs ++ es) total)
unfolding decode_group_nx entries_nx_code
decode_group_nx-Reads total xs [] hs h = rw (append-nil xs) (Reads-pure (filled xs total))
decode_group_nx-Reads total xs (e ∷ es) ((hi, hv), hs) h =
    Reads-bind _ (read_uint16_be-Reads e.id hi) (
      Reads-bind _ (read_uint16_be-Reads (length e.value) hv) (
        Reads-bind _ (read_bytes-Reads e.value (length e.value) refl) (
          Reads-bind _ (put_element-Reads xs e total (omega arith)) (
            rw (← append_assoc xs (e ∷ []) es) (
              decode_group_nx-Reads total (xs ++ (e ∷ [])) es hs
                (omega (arith, length-append xs (e ∷ []))))))))
