-- ===== src/Decode/Messages.antt =====
-- Decoding a message of the command codecs reads what the wire format puts there.
use teltonika.Prelude.{
  ℕ, suc, ◌+◌, ◌-◌, ◌^◌, ◌≤◌, ◌<◌, ◌≡◌, refl, ap, arith, true, ◌||◌, List, [], length, All,
  if◌then◌else◌, ◌⊎◌, inl, inr, ◌==◌, Bool-cases,
}
use teltonika.Bytes.{u32}
use teltonika.Hex.{encode_to_string, trim_left_zeros}
use teltonika.Hex.RoundTrip.{
  IsHexDigit, pack_digits, encode_to_string-pack_digits, length-pack_digits,
}
use teltonika.Packet.{Message, codec13, codec14, codec15}
use teltonika.Util.ByteReader.Reads.{
  Reads, Reads-pure, Reads-bind, Reads-map, read_uint32_be-Reads, read_bytes-Reads,
}
use teltonika.Encode.Frame.{extra_size}
use teltonika.Decode.Frame.{decode_timestamp, decode_imei, decode_command}
use teltonika.Decode.Frames.{ensure-Reads, read_byte-Reads}
use teltonika.Wire.{
  padded_imei, timestamp_code, imei_code, message_code, normal_message, IsMessage, IsCommandCodec,
}

-- What a timestamp and an IMEI take up in a message.
abbrev pub timestamp_size : ℕ → ℕ
timestamp_size c = if c == codec13 || c == codec15 then 4 else 0

abbrev pub imei_size : ℕ → ℕ
imei_size c = if c == codec14 || c == codec15 then 8 else 0

pub extra_size_sum : (c : ℕ) → IsCommandCodec c → extra_size c ≡ timestamp_size c + imei_size c
unfolding extra_size
extra_size_sum c (inl e) = rw e
extra_size_sum c (inr (inl e)) = rw e
extra_size_sum c (inr (inr (inl e))) = rw e
extra_size_sum c (inr (inr (inr e))) = rw e

decode_timestamp-Reads :
    (c timestamp size : ℕ)
    → timestamp < 2 ^ 32
    → timestamp_size c ≤ size
    → size < 2 ^ 32
    → Reads
        (decode_timestamp c size)
        (timestamp_code c timestamp)
        (if c == codec13 || c == codec15 then timestamp else 0, size - timestamp_size c)
unfolding decode_timestamp timestamp_code
decode_timestamp-Reads c timestamp size ht fits hs =
    elim (Bool-cases (c == codec13 || c == codec15)) [
      | inl e ↦
          let le : 4 ≤ size = rw e at fits in
          let wrap : u32 (size + 2 ^ 32 - 4) ≡ size - 4 = omega arith in
          rw e (Reads-map _ (read_uint32_be-Reads timestamp ht) (rw wrap))
      | inr e ↦ let same : size - 0 ≡ size = omega arith in rw (e, same) (Reads-pure (0, size))
    ]

-- Sixteen digits behind a padding zero, if one is needed.
pub padded_digits :
    (imei : List ℕ)
    → All IsHexDigit imei
    → (length imei ≡ 15) ⊎ (length imei ≡ 16)
    → (length (padded_imei imei) ≡ 16)
      × All IsHexDigit (padded_imei imei)
      × (trim_left_zeros (padded_imei imei) ≡ trim_left_zeros imei)
unfolding padded_imei trim_left_zeros
padded_digits imei h (inl e) = rw e (ap suc e, (refl, h), refl)
padded_digits imei h (inr e) = rw e (e, h, refl)

pub imei_bytes_length :
    (imei : List ℕ)
    → All IsHexDigit imei
    → (length imei ≡ 15) ⊎ (length imei ≡ 16)
    → length (pack_digits (padded_imei imei)) ≡ 8
imei_bytes_length imei h k =
    let (len, digits, trim) = padded_digits imei h k in
    omega (arith, length-pack_digits (padded_imei imei) (omega arith))

imei_read_back :
    (imei : List ℕ)
    → All IsHexDigit imei
    → (length imei ≡ 15) ⊎ (length imei ≡ 16)
    → trim_left_zeros (encode_to_string (pack_digits (padded_imei imei))) ≡ trim_left_zeros imei
imei_read_back imei h k =
    let (len, digits, trim) = padded_digits imei h k in
    rw (encode_to_string-pack_digits (padded_imei imei) digits (omega arith)) trim

-- The digits of the IMEI where the codec carries one.
abbrev pub ImeiFits : ℕ → List ℕ → Type 0
ImeiFits c imei =
    (c == codec14 || c == codec15) ≡ true
    → All IsHexDigit imei × ((length imei ≡ 15) ⊎ (length imei ≡ 16))

decode_imei-Reads :
    (c : ℕ) (imei : List ℕ) (size : ℕ)
    → ImeiFits c imei
    → imei_size c ≤ size
    → size < 2 ^ 32
    → Reads
        (decode_imei c size)
        (imei_code c imei)
        (if c == codec14 || c == codec15 then trim_left_zeros imei else [], size - imei_size c)
unfolding decode_imei imei_code
decode_imei-Reads c imei size k fits hs = elim (Bool-cases (c == codec14 || c == codec15)) [
  | inl e ↦
      let le : 8 ≤ size = rw e at fits in
      let wrap : u32 (size + 2 ^ 32 - 8) ≡ size - 8 = omega arith in
      let (digits, len) = k e in
      rw e (
        Reads-map _
          (read_bytes-Reads (pack_digits (padded_imei imei)) 8 (imei_bytes_length imei digits len))
          (rw (wrap, imei_read_back imei digits len)))
  | inr e ↦ let same : size - 0 ≡ size = omega arith in rw (e, same) (Reads-pure ([], size))
]

timestamp_size-le : (c : ℕ) → timestamp_size c ≤ 4
timestamp_size-le c = ground arith

imei_size-le : (c : ℕ) → imei_size c ≤ 8
imei_size-le c = ground arith

-- Where the code of a message that fits the format of a command codec stands before the cursor,
-- `decodeCommand` reads it in both allocation modes, returns the message with the fields that the
-- codec carries, and leaves the cursor behind the code.
pub decode_command-Reads :
    (c : ℕ)
    → IsCommandCodec c
    → (m : Message) → IsMessage c m
    → Reads (decode_command c) (message_code c m) (normal_message c m)
unfolding decode_command message_code normal_message
decode_command-Reads c hc m h =
    let size = length m.text + extra_size c in
    let sum = extra_size_sum c hc in
    let t = timestamp_size-le c in
    let i = imei_size-le c in
    Reads-bind _ (read_byte-Reads m.type h.type_byte) (
      Reads-bind _ (ensure-Reads _ _ h.type_fits) (
        Reads-bind _ (read_uint32_be-Reads size (omega (arith, h.size))) (
          Reads-bind _
            (decode_timestamp-Reads c m.timestamp size h.timestamp (omega arith)
              (omega (arith, h.size)))
            (Reads-bind _
              (decode_imei-Reads c m.imei (size - timestamp_size c) h.imei (omega arith)
                (omega (arith, h.size)))
              (Reads-map _ (read_bytes-Reads m.text _ (omega arith)) refl)))))
