-- ===== src/Decode/Frames.antt =====
-- Decoding a data frame reads what the wire format puts there.
use mathlib.Core.Path.{subst}
use teltonika.Prelude.{
  ℕ, ◌-◌, ◌<◌, ◌≡◌, sym, ap, arith, Bool, true, List, [], ◌∷◌, ◌++◌, append-nil, length,
  length-append, All, le→leb, Error, inl, inr,
}
use teltonika.Prelude.Int.{to_unsigned, to_signed-to_unsigned_16, to_unsigned_lt_16}
use teltonika.Bytes.{be16, u8}
use teltonika.Packet.{IoElement, AvlData, Float64, unknown}
use teltonika.Util.ByteReader.{Decoder, ensure, read_uint8_be, read_uint16_be, read_int16_be}
use teltonika.Util.ByteReader.Reads.{
  Reads, Reads-bind, Reads-map, read_uint8_be-Reads, read_uint16_be-Reads, read_uint64_be-Reads,
  read_int32_be-Reads, read_int16_be-Reads,
}
use teltonika.Encode.Elements.{byte_code, is_group_width}
use teltonika.Decode.Elements.{
  make_elements, group_widths, decode_groups, decode_elements_codec8, decode_elements_codec16,
  decode_elements_codec8e,
}
use teltonika.Decode.Frame.{decode_data, decode_elements}
use teltonika.Decode.Groups.{
  filled, make_elements-filled, decode_groups-Reads, decode_group_nx-Reads,
}
use teltonika.Wire.{
  of_other_width, grouped, groups_code, elements_code8, elements_code16, elements_code8e,
  elements_code, IsElements8, IsElements16, IsElements8e, normal_elements, data_code, on_grid,
  normal_data, IsFrame, IsElements, IsDataCodec,
}
use teltonika.Wire.Sorting.{
  length-grouped, of_other_width_none, All-of_other_width, length-of_other_width-le,
}

-- `ensure` passes and reads nothing.
pub ensure-Reads : (b : Bool) (e : Error) → b ≡ true → Reads (ensure b e) [] tt
ensure-Reads b e h = record { runs = λ alloc pre post. rw (h, append-nil pre) }

pub read_byte-Reads : (v : ℕ) → v < 256 → Reads read_uint8_be (byte_code v) v
read_byte-Reads v h = let e : u8 v ≡ v = omega arith in rw e (read_uint8_be-Reads v)

filled_whole :
    (xs : List IoElement) (total : ℕ) → length xs ≡ total → (filled xs total).elements ≡ xs
filled_whole xs total e =
    let none_left : total - length xs ≡ 0 = omega arith in rw none_left (append-nil xs)

group_total :
    (es : List IoElement)
    → All (λ e. is_group_width (length e.value) ≡ true) es
    → length (grouped group_widths es) ≡ length es
group_total es h = omega (arith, length-grouped es, ap length (of_other_width_none es h))

in_range :
    (es : List IoElement)
    → All (λ e. e.id < 65536) es
    → All (λ e. (length e.value < 65536) × (0 < length e.value)) es
    → All (λ e. (e.id < 65536) × (length e.value < 65536)) es
in_range [] h k = tt
in_range (e ∷ es) (h, hs) (k, ks) = ((h, k.0), in_range es hs ks)

-- The groups from a fresh slice.
groups-Reads :
    (read_id : Decoder ℕ) (id_code : ℕ → List ℕ) (limit : ℕ)
    → ((id : ℕ) → id < limit → Reads read_id (id_code id) id)
    → (read_count : Decoder ℕ) (count_code : ℕ → List ℕ) (most : ℕ)
    → ((n : ℕ) → n < most → Reads read_count (count_code n) n)
    → (es : List IoElement) → All (λ e. e.id < limit) es
    → length es < most
    → Reads
        (decode_groups read_count read_id (length es) group_widths (make_elements (length es)))
        (groups_code count_code id_code group_widths es)
        (filled (grouped group_widths es) (length es))
groups-Reads read_id id_code limit hi read_count count_code most hc es ids few =
    rw (make_elements-filled (length es)) (
      decode_groups-Reads read_id id_code limit hi read_count count_code most hc group_widths
        (length es) [] es ids few (omega (arith, length-grouped es)))

module _ {F : Type 0} where
  decode_elements_codec8-Reads :
      (d d' : AvlData F)
      → IsElements8 d
      → Reads (decode_elements_codec8 d') (elements_code8 d) (record d' {
        generation_type = unknown;
        event_id = d.event_id;
        elements = grouped group_widths d.elements;
      })
  unfolding decode_elements_codec8 elements_code8
  decode_elements_codec8-Reads d d' h =
      let es = d.elements in
      let whole = filled_whole (grouped group_widths es) (length es) (group_total es h.widths) in
      Reads-bind _ (read_byte-Reads d.event_id h.event) (
        Reads-bind _ (read_byte-Reads (length es) h.count) (
          Reads-map _
            (groups-Reads read_uint8_be byte_code 256 read_byte-Reads read_uint8_be byte_code 256
              read_byte-Reads es h.ids h.count)
            (rw whole)))

  decode_elements_codec16-Reads :
      (d d' : AvlData F)
      → IsElements16 d
      → Reads (decode_elements_codec16 d') (elements_code16 d) (record d' {
        generation_type = d.generation_type;
        event_id = d.event_id;
        elements = grouped group_widths d.elements;
      })
  unfolding decode_elements_codec16 elements_code16
  decode_elements_codec16-Reads d d' h =
      let es = d.elements in
      let whole = filled_whole (grouped group_widths es) (length es) (group_total es h.widths) in
      Reads-bind _ (read_uint16_be-Reads d.event_id h.event) (
        Reads-bind _ (read_byte-Reads d.generation_type (omega arith)) (
          Reads-bind _ (read_byte-Reads (length es) h.count) (
            Reads-bind _ (ensure-Reads _ _ (le→leb d.generation_type 7 (omega arith))) (
              Reads-map _
                (groups-Reads read_uint16_be be16 65536 read_uint16_be-Reads read_uint8_be byte_code
                  256 read_byte-Reads es h.ids h.count)
                (rw whole)))))

  decode_elements_codec8e-Reads :
      (d d' : AvlData F)
      → IsElements8e d
      → Reads (decode_elements_codec8e d') (elements_code8e d) (record d' {
        generation_type = unknown;
        event_id = d.event_id;
        elements = grouped group_widths d.elements ++ of_other_width d.elements;
      })
  unfolding decode_elements_codec8e elements_code8e
  decode_elements_codec8e-Reads d d' h =
      let es = d.elements in
      let n = length es in
      let rest = of_other_width es in
      let sum = length-append (grouped group_widths es) rest in
      let all =
        filled_whole (grouped group_widths es ++ rest) n (omega (arith, length-grouped es, sum)) in
      Reads-bind _ (read_uint16_be-Reads d.event_id h.event) (
        Reads-bind _ (read_uint16_be-Reads n h.count) (
          Reads-bind _
            (groups-Reads read_uint16_be be16 65536 read_uint16_be-Reads read_uint16_be be16 65536
              read_uint16_be-Reads es h.ids h.count)
            (Reads-bind _
              (read_uint16_be-Reads (length rest)
                (omega (arith, h.count, length-of_other_width-le es)))
              (Reads-map _
                (decode_group_nx-Reads n (grouped group_widths es) rest
                  (All-of_other_width (λ e. (e.id < 65536) × (length e.value < 65536)) es
                    (in_range es h.ids h.lengths))
                  (omega (arith, length-grouped es)))
                (rw all)))))

module _ {F : Type 0} where
  -- The frame `d'` with the event and the elements of `d`.
  abbrev with_elements : AvlData F → AvlData F → AvlData F
  with_elements d' d = record d' {
    event_id = d.event_id;
    generation_type = d.generation_type;
    elements = d.elements;
  }

  ReadsElements : (d d' : AvlData F) → ℕ → Type 0
  ReadsElements d d' c =
      IsElements c d
      → Reads (decode_elements c d') (elements_code c d) (normal_elements c (with_elements d' d))

  decode_elements-Reads : (c : ℕ) → IsDataCodec c → (d d' : AvlData F) → ReadsElements d d' c
  unfolding ReadsElements decode_elements elements_code normal_elements
  decode_elements-Reads c (inl e) d d' =
      subst (ReadsElements d d') (sym e) (decode_elements_codec8-Reads d d')
  decode_elements-Reads c (inr (inl e)) d d' =
      subst (ReadsElements d d') (sym e) (decode_elements_codec8e-Reads d d')
  decode_elements-Reads c (inr (inr e)) d d' =
      subst (ReadsElements d d') (sym e) (decode_elements_codec16-Reads d d')

  module _ ⦃fl : Float64 F⦄ where
    -- Where the code of a frame that fits the format of a data codec stands before the cursor,
    -- `decodeData` reads it in both allocation modes, returns the frame in the form in which the
    -- codec carries it, and leaves the cursor behind the code.
    pub decode_data-Reads :
        (c : ℕ)
        → IsDataCodec c
        → (d : AvlData F) → IsFrame c d
        → Reads (decode_data c) (data_code c d) (normal_data c d)
    unfolding decode_data data_code normal_data on_grid ReadsElements
    decode_data-Reads c hc d h = Reads-bind _ (read_uint64_be-Reads d.timestamp_ms h.timestamp) (
        Reads-bind _ (read_byte-Reads d.priority h.priority) (
          Reads-bind _ (read_int32_be-Reads (fl.to_e7 d.lng) (fl.to_e7_lt d.lng)) (
            Reads-bind _ (read_int32_be-Reads (fl.to_e7 d.lat) (fl.to_e7_lt d.lat)) (
              Reads-bind _ altitude (
                Reads-bind _ (read_uint16_be-Reads d.angle h.angle) (
                  Reads-bind _ (read_byte-Reads d.satellites h.satellites) (
                    Reads-bind _ (read_uint16_be-Reads d.speed h.speed)
                      (decode_elements-Reads c hc d _ h.elements))))))))
      where
        altitude : Reads read_int16_be (be16 (to_unsigned 32768 d.altitude)) d.altitude
        altitude =
            subst (Reads read_int16_be (be16 (to_unsigned 32768 d.altitude)))
              (to_signed-to_unsigned_16 d.altitude h.altitude)
              (read_int16_be-Reads (to_unsigned 32768 d.altitude) (to_unsigned_lt_16 d.altitude))
