-- ===== src/Encode/Frames.antt =====
-- The encoders of a frame write what the wire format puts there.
use mathlib.Core.Path.{subst}
use teltonika.Prelude.{
  ℕ, ◌+◌, ◌≡◌, refl, sym, ap, ◌∙◌, arith, [], ◌++◌, length, take, drop, length-append, length-drop,
  le→leb, ok, inl, inr,
}
use teltonika.Prelude.Int.{to_unsigned}
use teltonika.Bytes.{be16, be32, be64}
use teltonika.Packet.{AvlData, Float64}
use teltonika.Decode.Elements.{group_widths}
use teltonika.Encode.Elements.{
  byte_code, calculate_elements_size_codec8, calculate_elements_size_codec16,
  calculate_elements_size_codec8e, encode_elements_codec8, encode_elements_codec16,
  encode_elements_codec8e,
}
use teltonika.Encode.Frame.{encode_elements, encode_data}
use teltonika.Encode.Writes.{Writes, store-onto, onto-append, slice_from-onto}
use teltonika.Encode.Groups.{encode_groups-onto, encode_entries_nx-at, skip_count, fill_count}
use teltonika.Encode.Sizes.{
  length-groups_code, elements_size_codec8-cost, elements_size_codec16-cost,
  elements_size_codec8e-cost,
}
use teltonika.Wire.{
  of_other_width, entries_nx_code, groups_code, elements_code8, elements_code16, elements_code8e,
  elements_code, IsElements8, IsElements16, IsElements8e, IsElements, IsFrame, IsDataCodec,
  data_code,
}
use teltonika.Wire.Sorting.{of_other_width_none}

-- The calculated sizes of the elements of a frame are the lengths of their codes.
module _ {F : Type 0} where
  pub elements_size8 :
      (d : AvlData F)
      → IsElements8 d
      → calculate_elements_size_codec8 d.elements ≡ ok (length (elements_code8 d))
  unfolding calculate_elements_size_codec8 elements_code8 entries_nx_code
  elements_size8 d h =
      let none_left =
        ap (λ t. length (entries_nx_code t)) (of_other_width_none d.elements h.widths) in
      let groups = groups_code byte_code byte_code group_widths d.elements in
      elements_size_codec8-cost d.elements 0 6 h.ids h.widths
      ∙ ap ok (
          omega
            (arith, length-groups_code byte_code 1 (λ n. refl) byte_code 1 (λ n. refl) d.elements))

  pub elements_size16 :
      (d : AvlData F)
      → IsElements16 d
      → calculate_elements_size_codec16 d.elements ≡ ok (length (elements_code16 d))
  unfolding calculate_elements_size_codec16 elements_code16 entries_nx_code
  elements_size16 d h =
      let none_left =
        ap (λ t. length (entries_nx_code t)) (of_other_width_none d.elements h.widths) in
      elements_size_codec16-cost d.elements 0 8 h.widths
      ∙ ap ok
          (omega (arith, length-groups_code be16 2 (λ n. refl) byte_code 1 (λ n. refl) d.elements))

  pub elements_size8e :
      (d : AvlData F)
      → IsElements8e d
      → calculate_elements_size_codec8e d.elements ≡ ok (length (elements_code8e d))
  unfolding calculate_elements_size_codec8e elements_code8e
  elements_size8e d h =
      let groups = groups_code be16 be16 group_widths d.elements in
      let nx = entries_nx_code (of_other_width d.elements) in
      let n = be16 (length (of_other_width d.elements)) in
      elements_size_codec8e-cost d.elements 0 14 h.lengths
      ∙ ap ok (
          omega (
            arith,
            length-groups_code be16 2 (λ n. refl) be16 2 (λ n. refl) d.elements,
            length-append groups (n ++ nx),
          ))

  encode_elements_codec8-Writes :
      (d : AvlData F) → IsElements8 d → Writes (encode_elements_codec8 d) (elements_code8 d)
  unfolding encode_elements_codec8 elements_code8
  encode_elements_codec8-Writes d h buf room =
      let ev = byte_code d.event_id in
      let n = byte_code (length d.elements) in
      rw
        (
          le→leb d.event_id 255 (omega (arith, h.event)),
          le→leb (length d.elements) 255 (omega (arith, h.count)),
          elements_size8 d h,
          le→leb (length (elements_code8 d)) (length buf) room,
          store-onto [] ev buf 0 refl (omega arith),
          store-onto ev n buf 1 refl (omega arith),
        )
        (encode_groups-onto byte_code byte_code (λ k. refl) group_widths d.elements (ev ++ n) buf
          (omega arith))

  encode_elements_codec16-Writes :
      (d : AvlData F) → IsElements16 d → Writes (encode_elements_codec16 d) (elements_code16 d)
  unfolding encode_elements_codec16 elements_code16
  encode_elements_codec16-Writes d h buf room =
      let ev = be16 d.event_id in
      let gt = byte_code d.generation_type in
      let n = byte_code (length d.elements) in
      rw
        (
          le→leb (length d.elements) 255 (omega (arith, h.count)),
          le→leb d.generation_type 7 (omega (arith, h.generation)),
          elements_size16 d h,
          le→leb (length (elements_code16 d)) (length buf) room,
          store-onto [] ev buf 0 refl (omega arith),
          store-onto ev gt buf 2 refl (omega arith),
          store-onto (ev ++ gt) n buf 3 refl (omega arith),
        )
        (encode_groups-onto be16 byte_code (λ k. refl) group_widths d.elements ((ev ++ gt) ++ n) buf
          (omega arith))

  encode_elements_codec8e-Writes :
      (d : AvlData F) → IsElements8e d → Writes (encode_elements_codec8e d) (elements_code8e d)
  unfolding encode_elements_codec8e elements_code8e
  encode_elements_codec8e-Writes d h buf room =
      let ev = be16 d.event_id in
      let n = be16 (length d.elements) in
      let groups = groups_code be16 be16 group_widths d.elements in
      let others = of_other_width d.elements in
      let nx = entries_nx_code others in
      let done = (ev ++ n) ++ groups in
      let gap = take 2 (drop (length done) buf) in
      let l₁ = length-append groups (be16 (length others) ++ nx) in
      let l₂ = length-append (done ++ gap) nx in
      let l₃ = length-append done gap in
      let l₄ = length-append done (be16 (length others) ++ nx) in
      let (size, skipped) = skip_count be16 be16 (λ k. refl) done buf 2 (omega arith) in
      let counted : 0 + length others ≡ length others = omega arith in
      let end : length ((done ++ gap) ++ nx) ≡ length (done ++ (be16 (length others) ++ nx)) =
        omega arith in
      rw (
        le→leb (length d.elements) 65535 (omega (arith, h.count)),
        elements_size8e d h,
        le→leb (length (elements_code8e d)) (length buf) room,
        store-onto [] ev buf 0 refl (omega arith),
        store-onto ev n buf 2 refl (omega arith),
        encode_groups-onto be16 be16 (λ k. refl) group_widths d.elements (ev ++ n) buf
            (omega arith),
        skipped,
        encode_entries_nx-at d.elements (done ++ gap) 0 buf (omega arith),
        counted,
        fill_count be16 be16 (λ k. refl) done gap nx buf (length others) size,
        end,
      )

  WritesElements : AvlData F → ℕ → Type 0
  WritesElements d c = IsElements c d → Writes (encode_elements c d) (elements_code c d)

  encode_elements-Writes : (c : ℕ) → IsDataCodec c → (d : AvlData F) → WritesElements d c
  unfolding WritesElements encode_elements elements_code
  encode_elements-Writes c (inl e) d =
      subst (WritesElements d) (sym e) (encode_elements_codec8-Writes d)
  encode_elements-Writes c (inr (inl e)) d =
      subst (WritesElements d) (sym e) (encode_elements_codec8e-Writes d)
  encode_elements-Writes c (inr (inr e)) d =
      subst (WritesElements d) (sym e) (encode_elements_codec16-Writes d)

  module _ ⦃fl : Float64 F⦄ where
    -- `encodeData` writes the code of a frame that fits the format.
    pub encode_data-Writes :
        (c : ℕ)
        → IsDataCodec c
        → (d : AvlData F) → IsFrame c d
        → Writes (encode_data c d) (data_code c d)
    unfolding encode_data data_code WritesElements
    encode_data-Writes c hc d h buf room =
        let w₁ = be64 d.timestamp_ms in
        let w₂ = w₁ ++ byte_code d.priority in
        let w₃ = w₂ ++ be32 (fl.to_e7 d.lng) in
        let w₄ = w₃ ++ be32 (fl.to_e7 d.lat) in
        let w₅ = w₄ ++ be16 (to_unsigned 32768 d.altitude) in
        let w₆ = w₅ ++ be16 d.angle in
        let w₇ = w₆ ++ byte_code d.satellites in
        let w₈ = w₇ ++ be16 d.speed in
        let code = elements_code c d in
        let left = length-drop 24 buf in
        let total : length code + 24 ≡ length (w₈ ++ code) = omega arith in
        rw (
          le→leb 24 (length buf) (omega arith),
          store-onto [] w₁ buf 0 refl (omega arith),
          store-onto w₁ (byte_code d.priority) buf 8 refl (omega arith),
          store-onto w₂ (be32 (fl.to_e7 d.lng)) buf 9 refl (omega arith),
          store-onto w₃ (be32 (fl.to_e7 d.lat)) buf 13 refl (omega arith),
          store-onto w₄ (be16 (to_unsigned 32768 d.altitude)) buf 17 refl (omega arith),
          store-onto w₅ (be16 d.angle) buf 19 refl (omega arith),
          store-onto w₆ (byte_code d.satellites) buf 21 refl (omega arith),
          store-onto w₇ (be16 d.speed) buf 22 refl (omega arith),
          slice_from-onto w₈ buf 24 refl (omega arith),
          encode_elements-Writes c hc d h.elements (drop 24 buf) (omega arith),
          onto-append w₈ code buf,
          total,
        )
