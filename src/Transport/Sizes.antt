-- ===== src/Transport/Sizes.antt =====
-- The sizes that the encoders calculate are the lengths of the codes they write.
use mathlib.Core.Path.{subst}
use teltonika.Prelude.{
  ℕ, ◌+◌, ◌≡◌, sym, ap, arith, List, [], ◌∷◌, ◌++◌, length, length-append, All, inl, inr, Result,
  ok,
}
use teltonika.Packet.{Message, AvlData, Packet, Float64}
use teltonika.Encode.Elements.{byte_code}
use teltonika.Encode.Frame.{extra_size}
use teltonika.Encode.Frames.{elements_size8, elements_size16, elements_size8e}
use teltonika.Encode.Messages.{length-message_code}
use teltonika.Decode.Packets.{command_codec, data_codec}
use teltonika.Transport.Size.{
  messages_size, calculate_elements_size, frames_size, contents_size, check_packet,
}
use teltonika.Wire.{
  message_code, data_code, elements_code, IsElements, IsFrame, IsMessage, codes, counted_code,
  packet_code, IsPacket, of_messages, of_frames, IsDataCodec, IsCommandCodec,
}

messages_size-codes :
    (c : ℕ)
    → IsCommandCodec c
    → (ms : List Message) → All (IsMessage c) ms
    → (n : ℕ) → messages_size c ms n ≡ n + length (codes (message_code c) ms)
unfolding messages_size codes
messages_size-codes c hc [] hs n = omega arith
messages_size-codes c hc (m ∷ ms) (hm, hms) n = omega (
  arith,
  messages_size-codes c hc ms hms (n + (length m.text + 5) + extra_size c),
  length-append (message_code c m) (codes (message_code c) ms),
  length-message_code c m hc hm.imei,
)

length-counted_code {ℓ} :
    {A : Type ℓ} (c : ℕ) (code : A → List ℕ) (xs : List A)
    → length (byte_code c ++ counted_code code xs) ≡ 3 + length (codes code xs)
unfolding counted_code
length-counted_code c code xs = omega (arith, length-append (codes code xs) (byte_code (length xs)))

module _ {F : Type 0} where
  SizedElements : AvlData F → ℕ → Type 0
  SizedElements d c =
      IsElements c d → calculate_elements_size c d.elements ≡ ok (length (elements_code c d))

  calculate_elements_size_lem : (c : ℕ) → IsDataCodec c → (d : AvlData F) → SizedElements d c
  unfolding SizedElements calculate_elements_size elements_code
  calculate_elements_size_lem c (inl e) d = subst (SizedElements d) (sym e) (elements_size8 d)
  calculate_elements_size_lem c (inr (inl e)) d =
      subst (SizedElements d) (sym e) (elements_size8e d)
  calculate_elements_size_lem c (inr (inr e)) d =
      subst (SizedElements d) (sym e) (elements_size16 d)

module _ {F : Type 0} ⦃fl : Float64 F⦄ where
  length-data_code :
      (c : ℕ) (d : AvlData F) → length (data_code c d) ≡ 24 + length (elements_code c d)
  unfolding data_code
  length-data_code c d = omega arith

  frames_size-codes :
      (c : ℕ)
      → IsDataCodec c
      → (ds : List (AvlData F)) → All (IsFrame c) ds
      → (n : ℕ) → frames_size c ds n ≡ ok (n + length (codes (data_code c) ds))
  unfolding frames_size codes SizedElements
  frames_size-codes c hc [] hs n = ap ok (omega arith)
  frames_size-codes c hc (d ∷ ds) (hd, hds) n =
      let size = length (elements_code c d) in
      let sum = length-append (data_code c d) (codes (data_code c) ds) in
      let one = length-data_code c d in
      rw
        (
          calculate_elements_size_lem c hc d hd.elements,
          frames_size-codes c hc ds hds (n + 24 + size),
        )
        (ap ok (omega arith))

  -- For a packet that fits the format, the calculated size is what the sum starts with and the
  -- length of the packet's code, less the three bytes that the start counts already.
  pub contents_size-packet_code :
      (p : Packet F)
      → IsPacket p
      → (start total : ℕ) → start + length (packet_code p) ≡ total + 3
      → contents_size p start ≡ ok total
  unfolding contents_size packet_code
  contents_size-packet_code p (of_messages c ms hc few fit) start total e =
      let (byte, supported, command) = command_codec c hc in
      let len = length-counted_code c (message_code c) ms in
      let sum = rw command at e in
      rw (command, messages_size-codes c hc ms fit start) (ap ok (omega arith))
  contents_size-packet_code p (of_frames c ds hc few fit) start total e =
      let (byte, supported, frames) = data_codec c hc in
      let len = length-counted_code c (data_code c) ds in
      let sum = rw frames at e in
      rw (frames, frames_size-codes c hc ds fit start) (ap ok (omega arith))

  -- The checks before the sizes let a packet pass that has the contents its codec asks for.
  pub check_packet_lem {ℓ} :
      {A : Type ℓ} (p : Packet F) → IsPacket p → (k : Result A) → check_packet p k ≡ k
  unfolding check_packet
  check_packet_lem p (of_messages c ms hc few fit) k =
      let (byte, supported, command) = command_codec c hc in rw (supported, command)
  check_packet_lem p (of_frames c ds hc few fit) k =
      let (byte, supported, frames) = data_codec c hc in rw (supported, frames)
