-- ===== src/Encode/Messages.antt =====
-- The encoder of a message writes what the wire format puts there.
use teltonika.Prelude.{
  ℕ, ◌+◌, ◌≤◌, ◌≡◌, refl, sym, ap, ◌∙◌, arith, true, ◌||◌, List, [], ◌++◌, append_assoc, append-nil,
  length, take_all, length-append, le→leb, le→ltb, ok, ◌==◌, Bool-cases, inl, inr,
}
use teltonika.Bytes.{be32}
use teltonika.Hex.{decode_string}
use teltonika.Hex.RoundTrip.{pack_digits, decode_string-pack_digits}
use teltonika.Packet.{Message, codec13, codec14, codec15}
use teltonika.Util.ByteReader.{slice}
use teltonika.Decode.Messages.{
  timestamp_size, imei_size, extra_size_sum, padded_digits, imei_bytes_length, ImeiFits,
}
use teltonika.Encode.Elements.{byte_code}
use teltonika.Encode.Frame.{extra_size, encode_timestamp, imei_bytes, encode_imei, encode_message}
use teltonika.Encode.Writes.{onto, Writes, written, store-onto, copy_at-onto}
use teltonika.Wire.{padded_imei, timestamp_code, imei_code, message_code, IsMessage, IsCommandCodec}

length-timestamp_code : (c timestamp : ℕ) → length (timestamp_code c timestamp) ≡ timestamp_size c
unfolding timestamp_code
length-timestamp_code c timestamp = elim (Bool-cases (c == codec13 || c == codec15)) [
  | inl e ↦ rw e
  | inr e ↦ rw e
]

length-imei_code :
    (c : ℕ) (imei : List ℕ) → ImeiFits c imei → length (imei_code c imei) ≡ imei_size c
unfolding imei_code
length-imei_code c imei h = elim (Bool-cases (c == codec14 || c == codec15)) [
  | inl e ↦ let (digits, len) = h e in rw e (imei_bytes_length imei digits len)
  | inr e ↦ rw e
]

-- The two steps write behind what is there.
encode_timestamp-onto :
    (c timestamp : ℕ) (done buf : List ℕ)
    → length done + timestamp_size c ≤ length buf
    → encode_timestamp c timestamp (length done) (onto done buf)
      ≡ ok (
        length (done ++ timestamp_code c timestamp),
        onto (done ++ timestamp_code c timestamp) buf,
      )
unfolding encode_timestamp timestamp_code
encode_timestamp-onto c timestamp done buf room = elim (Bool-cases (c == codec13 || c == codec15)) [
  | inl e ↦
      let fits : length done + 4 ≤ length buf = rw e at room in
      let end : length done + 4 ≡ length (done ++ be32 timestamp) =
        omega (arith, length-append done (be32 timestamp)) in
      rw (e, store-onto done (be32 timestamp) buf (length done) refl fits, end)
  | inr e ↦ rw (e, append-nil done)
]

imei_bytes-pack_digits :
    (c : ℕ) (imei : List ℕ)
    → ImeiFits c imei
    → (c == codec14 || c == codec15) ≡ true
    → imei_bytes imei ≡ ok (pack_digits (padded_imei imei))
imei_bytes-pack_digits c imei h e =
    let (digits, len) = h e in
    let (size, all, trim) = padded_digits imei digits len in
    chosen ∙ decode_string-pack_digits (padded_imei imei) all (omega arith)
  where
    chosen : imei_bytes imei ≡ decode_string (padded_imei imei)
    chosen = unfold imei_bytes padded_imei in ground arith

encode_imei-onto :
    (c : ℕ) (imei done buf : List ℕ)
    → ImeiFits c imei
    → length done + imei_size c ≤ length buf
    → encode_imei c imei (length done) (onto done buf)
      ≡ ok (length (done ++ imei_code c imei), onto (done ++ imei_code c imei) buf)
unfolding encode_imei imei_code slice
encode_imei-onto c imei done buf h room = elim (Bool-cases (c == codec14 || c == codec15)) [
  | inl e ↦
      let (digits, len) = h e in
      let bytes = pack_digits (padded_imei imei) in
      let eight = imei_bytes_length imei digits len in
      let fits : length done + 8 ≤ length buf = rw e at room in
      let end : length done + 8 ≡ length (done ++ bytes) =
        omega (arith, length-append done bytes) in
      rw (
        e,
        imei_bytes-pack_digits c imei h e,
        le→ltb (length bytes) 8 (omega arith),
        take_all bytes 8 (omega arith),
        copy_at-onto done bytes buf (length done) refl (omega arith),
        end,
      )
  | inr e ↦ rw (e, append-nil done)
]

-- The length of a message's code.
pub length-message_code :
    (c : ℕ) (m : Message)
    → IsCommandCodec c
    → ImeiFits c m.imei
    → length (message_code c m) ≡ length m.text + extra_size c + 5
unfolding message_code
length-message_code c m hc h =
    let t = timestamp_code c m.timestamp in
    let i = imei_code c m.imei in
    omega (
      arith,
      length-append t (i ++ m.text),
      length-append i m.text,
      length-timestamp_code c m.timestamp,
      length-imei_code c m.imei h,
      extra_size_sum c hc,
    )

-- `encodeMessage` writes the code of a message that fits the format.
pub encode_message-Writes :
    (c : ℕ)
    → IsCommandCodec c
    → (m : Message) → IsMessage c m
    → Writes (encode_message c m) (message_code c m)
unfolding encode_message message_code
encode_message-Writes c hc m h buf room =
    let size = length m.text + extra_size c in
    let w₁ = byte_code m.type in
    let w₂ = w₁ ++ be32 size in
    let t = timestamp_code c m.timestamp in
    let i = imei_code c m.imei in
    let w₃ = w₂ ++ t in
    let w₄ = w₃ ++ i in
    let lt = length-timestamp_code c m.timestamp in
    let li = length-imei_code c m.imei h.imei in
    let sum = extra_size_sum c hc in
    let total = length-message_code c m hc h.imei in
    let l₃ = length-append w₂ t in
    let l₄ = length-append w₃ i in
    let l₅ = length-append w₄ m.text in
    let end : length w₄ + length m.text ≡ length (w₄ ++ m.text) = sym l₅ in
    let whole : w₄ ++ m.text ≡ w₂ ++ (t ++ (i ++ m.text)) =
      append_assoc w₃ i m.text ∙ append_assoc w₂ t (i ++ m.text) in
    rw
      (
        h.type_fits,
        le→leb (size + 5) (length buf) (omega arith),
        store-onto [] w₁ buf 0 refl (omega arith),
        store-onto w₁ (be32 size) buf 1 refl (omega arith),
        encode_timestamp-onto c m.timestamp w₂ buf (omega arith),
        encode_imei-onto c m.imei w₃ buf h.imei (omega arith),
        copy_at-onto w₄ m.text buf (length w₄) refl (omega arith),
        end,
      )
      (ap (written buf) whole)
