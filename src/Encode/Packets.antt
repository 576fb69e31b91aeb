-- ===== src/Encode/Packets.antt =====
-- The encoder of a packet's body writes what the wire format puts there.
use mathlib.Core.Path.{subst}
use teltonika.Prelude.{
  ℕ, ◌+◌, ◌≤◌, ◌<◌, ◌≡◌, refl, sym, ap, arith, List, [], ◌∷◌, ◌++◌, append_assoc, append-nil,
  length, drop, length-append, length-drop, All, le→leb, lt→ltb, ok,
}
use teltonika.Packet.{Packet, Float64}
use teltonika.Encode.Elements.{Written, byte_code}
use teltonika.Encode.Frame.{encode_many, encode_counted, encode_message, encode_data, encode_packet}
use teltonika.Encode.Writes.{
  onto, Writes, written, store-onto, slice_from-onto, take-onto, onto-append, length-onto,
}
use teltonika.Encode.Frames.{encode_data-Writes}
use teltonika.Encode.Messages.{encode_message-Writes}
use teltonika.Decode.Packets.{command_codec, data_codec}
use teltonika.Wire.{
  message_code, data_code, IsFrame, IsMessage, codes, counted_code, packet_code, IsPacket,
  of_messages, of_frames,
}

encode_many-onto {ℓ} :
    {A : Type ℓ} (one : A → List ℕ → Written) (code : A → List ℕ) (P : A → Type 0)
    → ((a : A) → P a → Writes (one a) (code a))
    → (xs : List A) → All P xs
    → (done buf : List ℕ) → length done + length (codes code xs) ≤ length buf
    → encode_many one xs (length done) (onto done buf)
      ≡ ok (length (done ++ codes code xs), onto (done ++ codes code xs) buf)
unfolding encode_many codes
encode_many-onto one code P h [] hs done buf room = rw (append-nil done)
encode_many-onto one code P h (x ∷ xs) (hx, hxs) done buf room =
    let c = code x in
    let rest = codes code xs in
    let sum = length-append c rest in
    let left = length-drop (length done) buf in
    let end : length done + length c ≡ length (done ++ c) = sym (length-append done c) in
    rw (
      slice_from-onto done buf (length done) refl (omega arith),
      h x hx (drop (length done) buf) (omega arith),
      take-onto done buf (length done) refl,
      onto-append done c buf,
      end,
      encode_many-onto one code P h xs hxs (done ++ c) buf (omega arith),
      append_assoc done c rest,
    )

-- One byte, then the counted contents.
encode_counted-onto {ℓ} :
    {A : Type ℓ} (one : A → List ℕ → Written) (code : A → List ℕ) (P : A → Type 0)
    → ((a : A) → P a → Writes (one a) (code a))
    → (xs : List A) → All P xs
    → length xs < 256
    → (b : ℕ) (buf : List ℕ) → length (byte_code b ++ counted_code code xs) ≤ length buf
    → encode_counted one xs (onto (byte_code b) buf)
      ≡ ok (
        length (byte_code b ++ counted_code code xs),
        onto (byte_code b ++ counted_code code xs) buf,
      )
unfolding encode_counted counted_code
encode_counted-onto one code P h xs hs few b buf room =
    let n = byte_code (length xs) in
    let body = codes code xs in
    let w₂ = byte_code b ++ n in
    let w₃ = w₂ ++ body in
    let l₁ = length-append body n in
    let l₂ = length-append w₂ body in
    let l₃ = length-append w₃ n in
    let whole = append_assoc w₂ body n in
    let end : length w₃ + 1 ≡ length (w₃ ++ n) = omega arith in
    rw
      (
        le→leb (length xs) 255 (omega arith),
        store-onto (byte_code b) n buf 1 refl (omega arith),
        encode_many-onto one code P h xs hs w₂ buf (omega arith),
        lt→ltb (length w₃) (length (onto w₃ buf)) (omega (arith, length-onto w₃ buf (omega arith))),
        store-onto w₃ n buf (length w₃) refl (omega arith),
        end,
      )
      (ap (written buf) whole)

counted_length {ℓ} :
    {A : Type ℓ} (code : A → List ℕ) (xs : List A) → 2 ≤ length (counted_code code xs)
unfolding counted_code
counted_length code xs = omega (arith, length-append (codes code xs) (byte_code (length xs)))

module _ {F : Type 0} ⦃fl : Float64 F⦄ where
  -- Into any slice that has room for the code of a packet that fits the format, `encodePacket`
  -- writes that code over the front, leaves the rest as it was, and returns the code's length.
  pub encode_packet-Writes : (p : Packet F) → IsPacket p → Writes (encode_packet p) (packet_code p)
  encode_packet-Writes p (of_messages c ms hc few fit) =
      let (byte, supported, command) = command_codec c hc in
      let code = byte_code c ++ counted_code (message_code c) ms in
      let same : packet_code p ≡ code = unfold packet_code in rw command in
      subst (Writes (encode_packet p)) (sym same) λ buf room.
        unfold encode_packet in
        rw
          (
            supported,
            le→leb 3 (length buf) (omega (arith, counted_length (message_code c) ms)),
            store-onto [] (byte_code c) buf 0 refl (omega arith),
            command,
          )
          (encode_counted-onto (encode_message c) (message_code c) (IsMessage c)
            (encode_message-Writes c hc) ms fit few c buf room)
  encode_packet-Writes p (of_frames c ds hc few fit) =
      let (byte, supported, frames) = data_codec c hc in
      let code = byte_code c ++ counted_code (data_code c) ds in
      let same : packet_code p ≡ code = unfold packet_code in rw frames in
      subst (Writes (encode_packet p)) (sym same) λ buf room.
        unfold encode_packet in
        rw
          (
            supported,
            le→leb 3 (length buf) (omega (arith, counted_length (data_code c) ds)),
            store-onto [] (byte_code c) buf 0 refl (omega arith),
            frames,
          )
          (encode_counted-onto (encode_data c) (data_code c) (IsFrame c) (encode_data-Writes c hc)
            ds fit few c buf room)
