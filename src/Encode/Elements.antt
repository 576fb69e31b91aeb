-- ===== src/Encode/Elements.antt =====
-- teltonika.go: `encodeElementsCodec8`, `encodeElementsCodec16`, `encodeElementsCodec8E` and the
-- functions that calculate their sizes. A function writes into the slice that it is given, so it
-- returns the slice's new contents with the number of bytes written.
use teltonika.Prelude.{
  ℕ, ◌+◌, Bool, not, ◌||◌, List, [], ◌∷◌, length, leb, ◌==◌, if◌then◌else◌, Result, ok, and_then,
  require, too_many_items, event_id_too_large, element_id_too_large, bad_element_size,
  bad_generation_type, buffer_too_small,
}
use teltonika.Bytes.{be16, u8, store, copy_at}
use teltonika.Packet.{IoElement, AvlData}
use teltonika.Decode.Elements.{group_widths}

-- Writing encoders: a position and the buffer, `(int, error)` and the slice.
abbrev pub Written : Type 0
Written = Result (ℕ × List ℕ)

infixl 5 ◌>>=◌
abbrev ◌>>=◌ {ℓ κ} : {A : Type ℓ} {B : Type κ} → Result A → (A → Result B) → Result B
m >>= f = and_then m f

-- `length == 1 || length == 2 || length == 4 || length == 8`
abbrev pub is_group_width : ℕ → Bool
is_group_width n = n == 1 || n == 2 || n == 4 || n == 8

-- The loop of `calculateElementsSizeCodec8`, at element `i`.
unfoldable pub elements_size_codec8 : ℕ → List IoElement → ℕ → Result ℕ
elements_size_codec8 i [] expected_size = ok expected_size
elements_size_codec8 i (e ∷ es) expected_size =
    require (leb e.id 255) (element_id_too_large i e.id) (
      require (is_group_width (length e.value)) (bad_element_size i (length e.value))
        (elements_size_codec8 (i + 1) es (expected_size + (length e.value + 1))))

unfoldable pub calculate_elements_size_codec8 : List IoElement → Result ℕ
calculate_elements_size_codec8 elements = elements_size_codec8 0 elements 6

unfoldable pub elements_size_codec16 : ℕ → List IoElement → ℕ → Result ℕ
elements_size_codec16 i [] expected_size = ok expected_size
elements_size_codec16 i (e ∷ es) expected_size =
    require (is_group_width (length e.value)) (bad_element_size i (length e.value))
      (elements_size_codec16 (i + 1) es (expected_size + (length e.value + 2)))

unfoldable pub calculate_elements_size_codec16 : List IoElement → Result ℕ
calculate_elements_size_codec16 elements = elements_size_codec16 0 elements 8

unfoldable pub elements_size_codec8e : ℕ → List IoElement → ℕ → Result ℕ
elements_size_codec8e i [] expected_size = ok expected_size
elements_size_codec8e i (e ∷ es) expected_size =
    let n = length e.value in
    require (leb n 65535) (bad_element_size i n) (
      require (not (n == 0)) (bad_element_size i n) (
        elements_size_codec8e (i + 1) es
          (expected_size + (if is_group_width n then n + 2 else n + 4))))

unfoldable pub calculate_elements_size_codec8e : List IoElement → Result ℕ
calculate_elements_size_codec8e elements = elements_size_codec8e 0 elements 14

-- `pos`, `written` and the buffer in the loops.
pub record Cursor : Type 0 where
  pub pos : ℕ
  pub written : ℕ
  pub buf : List ℕ

-- One element of the inner loop: its number as `id_code` writes it, then its value.
unfoldable pub encode_entry : (ℕ → List ℕ) → IoElement → Cursor → Result Cursor
encode_entry id_code e c = store c.pos (id_code e.id) c.buf >>= λ b₁.
    let pos = c.pos + length (id_code e.id) in
    copy_at pos e.value b₁ >>= λ b₂.
    ok (record { pos = pos + length e.value; written = c.written + 1; buf = b₂ })

-- The inner loop `for j := 0; j < ioCount; j++` over the elements of one width.
unfoldable pub encode_entries : (ℕ → List ℕ) → ℕ → List IoElement → Cursor → Result Cursor
encode_entries id_code width [] c = ok c
encode_entries id_code width (e ∷ es) c =
    (if length e.value == width then encode_entry id_code e c else ok c) >>= λ c'.
    encode_entries id_code width es c'

-- The outer loop: room for the count, the entries, and then the count.
unfoldable pub encode_groups :
    (ℕ → List ℕ) → (ℕ → List ℕ) → List ℕ → List IoElement → ℕ → List ℕ → Written
encode_groups count_code id_code [] elements pos buf = ok (pos, buf)
encode_groups count_code id_code (width ∷ widths) elements pos buf =
    encode_entries id_code width elements
      (record { pos = pos + length (count_code 0); written = 0; buf = buf })
    >>= λ c. store pos (count_code c.written) c.buf >>= λ buf'.
        encode_groups count_code id_code widths elements c.pos buf'

-- `buf[pos] = uint8(n)`
abbrev pub byte_code : ℕ → List ℕ
byte_code n = u8 n ∷ []

-- One element of the last loop of codec 8 extended: its number, its length, its value.
unfoldable pub encode_entry_nx : IoElement → Cursor → Result Cursor
encode_entry_nx e c = store c.pos (be16 e.id) c.buf >>= λ b₁.
    store (c.pos + 2) (be16 (length e.value)) b₁ >>= λ b₂. copy_at (c.pos + 4) e.value b₂ >>= λ b₃.
    ok (record { pos = c.pos + 4 + length e.value; written = c.written + 1; buf = b₃ })

-- That loop, over the elements of other widths.
unfoldable pub encode_entries_nx : List IoElement → Cursor → Result Cursor
encode_entries_nx [] c = ok c
encode_entries_nx (e ∷ es) c =
    (if is_group_width (length e.value) then ok c else encode_entry_nx e c) >>= λ c'.
    encode_entries_nx es c'

module _ {F : Type 0} where
  unfoldable pub encode_elements_codec8 : AvlData F → List ℕ → Written
  encode_elements_codec8 d buf = require (leb d.event_id 255) (event_id_too_large d.event_id) (
      require (leb (length d.elements) 255) (too_many_items (length d.elements)) (
        calculate_elements_size_codec8 d.elements >>= λ expected_size.
        require (leb expected_size (length buf)) (buffer_too_small expected_size (length buf)) (
          store 0 (byte_code d.event_id) buf >>= λ b₁.
          store 1 (byte_code (length d.elements)) b₁ >>= λ b₂.
          encode_groups byte_code byte_code group_widths d.elements 2 b₂)))

  unfoldable pub encode_elements_codec16 : AvlData F → List ℕ → Written
  encode_elements_codec16 d buf =
      require (leb (length d.elements) 255) (too_many_items (length d.elements)) (
        require (leb d.generation_type 7) (bad_generation_type d.generation_type) (
          calculate_elements_size_codec16 d.elements >>= λ expected_size.
          require (leb expected_size (length buf)) (buffer_too_small expected_size (length buf)) (
            store 0 (be16 d.event_id) buf >>= λ b₁.
            store 2 (byte_code d.generation_type) b₁ >>= λ b₂.
            store 3 (byte_code (length d.elements)) b₂ >>= λ b₃.
            encode_groups byte_code be16 group_widths d.elements 4 b₃)))

  unfoldable pub encode_elements_codec8e : AvlData F → List ℕ → Written
  encode_elements_codec8e d buf =
      require (leb (length d.elements) 65535) (too_many_items (length d.elements)) (
        calculate_elements_size_codec8e d.elements >>= λ expected_size.
        require (leb expected_size (length buf)) (buffer_too_small expected_size (length buf)) (
          store 0 (be16 d.event_id) buf >>= λ b₁. store 2 (be16 (length d.elements)) b₁ >>= λ b₂.
          encode_groups be16 be16 group_widths d.elements 4 b₂ >>= λ (pos, b₃).
          encode_entries_nx d.elements (record { pos = pos + 2; written = 0; buf = b₃ }) >>= λ c.
          store pos (be16 c.written) c.buf >>= λ b₄. ok (c.pos, b₄)))
