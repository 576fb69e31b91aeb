-- ===== src/Decode/Elements.antt =====
-- teltonika.go: `decodeElementsCodec8`, `decodeElementsCodec16` and `decodeElementsCodec8E`.
use teltonika.Prelude.{
  ℕ, zero, suc, ◌+◌, List, [], ◌∷◌, replicate, set, ltb, leb, bad_generation_type,
  too_many_elements,
}
use teltonika.Packet.{IoElement, AvlData, unknown}
use teltonika.Util.ByteReader.{
  Decoder, pure, ◌>>=◌, ◌>>◌, ensure, read_bytes, read_uint8_be, read_uint16_be,
}

-- `data.Elements` and `k`: the slice that was made for `ioCount` elements, and how many it holds.
pub record Filling : Type 0 where
  pub elements : List IoElement
  pub k : ℕ

abbrev pub no_element : IoElement
no_element = record { id = 0; value = [] }

-- `make([]IOElement, ioCount)` with `k = 0`
unfoldable pub make_elements : ℕ → Filling
make_elements io_count = record { elements = replicate io_count no_element; k = 0 }

-- `if k >= int(ioCount) { return error }`, the assignment to `data.Elements[k]`, and `k++`
unfoldable pub put_element : ℕ → ℕ → List ℕ → Filling → Decoder Filling
put_element io_count id value f = do
  ensure (ltb f.k io_count) (too_many_elements io_count f.k)
  pure (record { elements = set f.elements f.k (record { id = id; value = value }); k = f.k + 1 })

-- The inner loop: `n` elements of `width` bytes, each behind its number.
unfoldable pub decode_group : Decoder ℕ → ℕ → ℕ → ℕ → Filling → Decoder Filling
decode_group read_id io_count width zero f = pure f
decode_group read_id io_count width (suc n) f = do
  id ← read_id
  value ← read_bytes width
  f' ← put_element io_count id value f
  decode_group read_id io_count width n f'

-- The values of `i` in `for i := 1; i <= 8; i *= 2`.
abbrev pub group_widths : List ℕ
group_widths = 1 ∷ 2 ∷ 4 ∷ 8 ∷ []

-- The outer loop: each group begins with the number of its elements.
unfoldable pub decode_groups : Decoder ℕ → Decoder ℕ → ℕ → List ℕ → Filling → Decoder Filling
decode_groups read_count read_id io_count [] f = pure f
decode_groups read_count read_id io_count (width ∷ widths) f = do
  n ← read_count
  f' ← decode_group read_id io_count width n f
  decode_groups read_count read_id io_count widths f'

-- The last loop of codec 8 extended: `n` elements that bring their length.
unfoldable pub decode_group_nx : ℕ → ℕ → Filling → Decoder Filling
decode_group_nx io_count zero f = pure f
decode_group_nx io_count (suc n) f = do
  id ← read_uint16_be
  length ← read_uint16_be
  value ← read_bytes length
  f' ← put_element io_count id value f
  decode_group_nx io_count n f'

module _ {F : Type 0} where
  unfoldable pub decode_elements_codec8 : AvlData F → Decoder (AvlData F)
  decode_elements_codec8 d = do
    event_id ← read_uint8_be
    io_count ← read_uint8_be
    f ← decode_groups read_uint8_be read_uint8_be io_count group_widths (make_elements io_count)
    pure (record d { generation_type = unknown; event_id = event_id; elements = f.elements })

  unfoldable pub decode_elements_codec16 : AvlData F → Decoder (AvlData F)
  decode_elements_codec16 d = do
    event_id ← read_uint16_be
    generation_type ← read_uint8_be
    io_count ← read_uint8_be
    ensure (leb generation_type 7) (bad_generation_type generation_type)
    f ← decode_groups read_uint8_be read_uint16_be io_count group_widths (make_elements io_count)
    pure
        (record d { generation_type = generation_type; event_id = event_id; elements = f.elements })

  unfoldable pub decode_elements_codec8e : AvlData F → Decoder (AvlData F)
  decode_elements_codec8e d = do
    event_id ← read_uint16_be
    io_count ← read_uint16_be
    f ← decode_groups read_uint16_be read_uint16_be io_count group_widths (make_elements io_count)
    io_count_nx ← read_uint16_be
    f' ← decode_group_nx io_count io_count_nx f
    pure (record d { generation_type = unknown; event_id = event_id; elements = f'.elements })
