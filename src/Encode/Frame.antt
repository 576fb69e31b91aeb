-- ===== src/Encode/Frame.antt =====
-- teltonika.go: `encodeData`, `encodeMessage` and `encodePacket`.
use teltonika.Prelude.{
  ℕ, ◌+◌, ◌%◌, ◌||◌, Option, none, some, List, [], ◌∷◌, ◌++◌, length, take, leb, ltb, ◌==◌,
  if◌then◌else◌, Result, ok, err, and_then, require, unsupported_codec, unsupported_type,
  buffer_too_small, too_many_items,
}
use teltonika.Prelude.Int.{to_unsigned}
use teltonika.Bytes.{be16, be32, be64, store, copy_at, slice_from}
use teltonika.Hex.{decode_string}
use teltonika.Packet.{
  AvlData, Message, Packet, Float64, codec8, codec8e, codec16, codec13, codec14, codec15,
  is_codec_supported, is_cmd_codec_id,
}
use teltonika.Util.ByteReader.{slice}
use teltonika.Decode.Frame.{is_type_supported}
use teltonika.Encode.Elements.{
  Written, byte_code, encode_elements_codec8, encode_elements_codec16, encode_elements_codec8e,
}

infixl 5 ◌>>=◌
abbrev ◌>>=◌ {ℓ κ} : {A : Type ℓ} {B : Type κ} → Result A → (A → Result B) → Result B
m >>= f = and_then m f

-- What a message of the codec holds before its text.
unfoldable pub extra_size : ℕ → ℕ
extra_size codec_id =
    if codec_id == codec14
    then 8
    else if codec_id == codec13
    then 4
    else if codec_id == codec15
    then 12
    else 0

unfoldable pub encode_timestamp : ℕ → ℕ → ℕ → List ℕ → Written
encode_timestamp codec_id timestamp pos buf =
    if codec_id == codec13 || codec_id == codec15
    then (store pos (be32 timestamp) buf >>= λ b. ok (pos + 4, b))
    else ok (pos, buf)

-- `hex.DecodeString` of the number, with a zero in front if its length is odd.
unfoldable pub imei_bytes : List ℕ → Result (List ℕ)
imei_bytes imei = if length imei % 2 == 0 then decode_string imei else decode_string (b'0' ∷ imei)

-- `imei[:8]` panics if fewer than 8 bytes were decoded: no spare capacity is promised.
unfoldable pub encode_imei : ℕ → List ℕ → ℕ → List ℕ → Written
encode_imei codec_id imei pos buf =
    if codec_id == codec14 || codec_id == codec15
    then (imei_bytes imei >>= λ bytes.
        slice 0 8 bytes >>= λ part. copy_at pos part buf >>= λ b. ok (pos + 8, b))
    else ok (pos, buf)

unfoldable pub encode_message : ℕ → Message → List ℕ → Written
encode_message codec_id message buf =
    let size = length message.text + extra_size codec_id in
    require (is_type_supported codec_id message.type) (unsupported_type message.type codec_id) (
      require (leb (size + 5) (length buf)) (buffer_too_small (size + 5) (length buf)) (
        store 0 (byte_code message.type) buf >>= λ b₁. store 1 (be32 size) b₁ >>= λ b₂.
        encode_timestamp codec_id message.timestamp 5 b₂ >>= λ (p₃, b₃).
        encode_imei codec_id message.imei p₃ b₃ >>= λ (p₄, b₄).
        copy_at p₄ message.text b₄ >>= λ b₅. ok (p₄ + length message.text, b₅)))

-- The loops of `encodePacket`. The slice `buf[pos:]` shares the buffer, so what the call writes
-- into it stands in the buffer from `pos` on.
unfoldable pub encode_many {ℓ} :
    {A : Type ℓ} → (A → List ℕ → Written) → List A → ℕ → List ℕ → Written
encode_many one [] pos buf = ok (pos, buf)
encode_many one (x ∷ xs) pos buf = slice_from pos buf >>= λ part.
    one x part >>= λ (n, part'). encode_many one xs (pos + n) (take pos buf ++ part')

-- Ranging over a nil slice makes no round.
abbrev pub or_nil {ℓ} : {A : Type ℓ} → Option (List A) → List A
or_nil none = []
or_nil (some xs) = xs

-- Either half of `encodePacket` behind its first byte: the count, the contents, the count.
unfoldable pub encode_counted {ℓ} :
    {A : Type ℓ} → (A → List ℕ → Written) → List A → List ℕ → Written
encode_counted one xs buf = require (leb (length xs) 255) (too_many_items (length xs)) (
    store 1 (byte_code (length xs)) buf >>= λ b₁. encode_many one xs 2 b₁ >>= λ (pos, b₂).
    require (ltb pos (length b₂)) (buffer_too_small (pos + 1) (length b₂))
      (store pos (byte_code (length xs)) b₂ >>= λ b₃. ok (pos + 1, b₃)))

module _ {F : Type 0} where
  unfoldable pub encode_elements : ℕ → AvlData F → List ℕ → Written
  encode_elements codec_id d buf =
      if codec_id == codec8
      then encode_elements_codec8 d buf
      else if codec_id == codec8e
      then encode_elements_codec8e d buf
      else if codec_id == codec16
      then encode_elements_codec16 d buf
      else err (unsupported_codec codec_id)

  module _ ⦃fl : Float64 F⦄ where
    -- `uint16(data.Altitude)` is the bit pattern of an int16.
    unfoldable pub encode_data : ℕ → AvlData F → List ℕ → Written
    encode_data codec_id d buf = require (leb 24 (length buf)) (buffer_too_small 24 (length buf)) (
        store 0 (be64 d.timestamp_ms) buf >>= λ b₁. store 8 (byte_code d.priority) b₁ >>= λ b₂.
        store 9 (be32 (fl.to_e7 d.lng)) b₂ >>= λ b₃. store 13 (be32 (fl.to_e7 d.lat)) b₃ >>= λ b₄.
        store 17 (be16 (to_unsigned 32768 d.altitude)) b₄ >>= λ b₅.
        store 19 (be16 d.angle) b₅ >>= λ b₆. store 21 (byte_code d.satellites) b₆ >>= λ b₇.
        store 22 (be16 d.speed) b₇ >>= λ b₈. slice_from 24 b₈ >>= λ part.
        encode_elements codec_id d part >>= λ (n, part'). ok (n + 24, take 24 b₈ ++ part'))

    unfoldable pub encode_packet : Packet F → List ℕ → Written
    encode_packet packet buf =
        require (is_codec_supported packet.codec_id) (unsupported_codec packet.codec_id) (
          require (leb 3 (length buf)) (buffer_too_small 3 (length buf)) (
            store 0 (byte_code packet.codec_id) buf >>= λ b₁.
            if is_cmd_codec_id packet.codec_id
            then encode_counted (encode_message packet.codec_id) (or_nil packet.messages) b₁
            else encode_counted (encode_data packet.codec_id) (or_nil packet.frames) b₁))
