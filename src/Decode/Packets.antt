-- ===== src/Decode/Packets.antt =====
-- Decoding the body of a packet reads what the wire format puts there.
use teltonika.Prelude.{
  ℕ, ◌<◌, ◌≡◌, refl, arith, true, false, List, [], ◌∷◌, ◌++◌, length, map, All, inl, inr, ==_refl,
}
use teltonika.Packet.{Packet, Float64, is_codec_supported, is_cmd_codec_id}
use teltonika.Util.ByteReader.{Decoder}
use teltonika.Util.ByteReader.Reads.{Reads, Reads-pure, Reads-bind, Reads-map}
use teltonika.Encode.Elements.{byte_code}
use teltonika.Decode.Frame.{
  decode_command, decode_data, decode_many, decode_contents, decode_packet,
}
use teltonika.Decode.Frames.{ensure-Reads, read_byte-Reads, decode_data-Reads}
use teltonika.Decode.Messages.{decode_command-Reads}
use teltonika.Wire.{
  message_code, normal_message, data_code, normal_data, IsFrame, IsMessage, codes, counted_code,
  packet_code, normal_packet, IsPacket, of_messages, of_frames, IsDataCodec, IsCommandCodec,
}

decode_many-Reads {ℓ} :
    {A : Type ℓ} (one : Decoder A) (code : A → List ℕ) (normal : A → A) (P : A → Type 0)
    → ((a : A) → P a → Reads one (code a) (normal a))
    → (xs : List A) → All P xs
    → Reads (decode_many one (length xs)) (codes code xs) (map normal xs)
unfolding decode_many codes
decode_many-Reads one code normal P h [] hs = Reads-pure []
decode_many-Reads one code normal P h (x ∷ xs) (hx, hxs) =
    Reads-bind _ (h x hx) (Reads-map _ (decode_many-Reads one code normal P h xs hxs) refl)

pub command_codec :
    (c : ℕ)
    → IsCommandCodec c
    → (c < 256) × (is_codec_supported c ≡ true) × (is_cmd_codec_id c ≡ true)
unfolding is_codec_supported is_cmd_codec_id
command_codec c (inl e) = rw e (omega arith, refl, refl)
command_codec c (inr (inl e)) = rw e (omega arith, refl, refl)
command_codec c (inr (inr (inl e))) = rw e (omega arith, refl, refl)
command_codec c (inr (inr (inr e))) = rw e (omega arith, refl, refl)

pub data_codec :
    (c : ℕ)
    → IsDataCodec c
    → (c < 256) × (is_codec_supported c ≡ true) × (is_cmd_codec_id c ≡ false)
unfolding is_codec_supported is_cmd_codec_id
data_codec c (inl e) = rw e (omega arith, refl, refl)
data_codec c (inr (inl e)) = rw e (omega arith, refl, refl)
data_codec c (inr (inr e)) = rw e (omega arith, refl, refl)

module _ {F : Type 0} ⦃fl : Float64 F⦄ where
  -- The frame of `decodePacket` around the contents.
  around :
      (c n : ℕ) (code : List ℕ) (p : Packet F)
      → c < 256
      → is_codec_supported c ≡ true
      → n < 256
      → Reads (decode_contents c n) code p
      → Reads decode_packet (byte_code c ++ (byte_code n ++ (code ++ byte_code n))) p
  unfolding decode_packet
  around c n code p hc supported hn h = Reads-bind _ (read_byte-Reads c hc) (
      Reads-bind _ (read_byte-Reads n hn) (
        Reads-bind _ (ensure-Reads _ _ supported) (
          Reads-bind _ h (
            Reads-bind _ (read_byte-Reads n hn)
              (Reads-bind _ (ensure-Reads _ _ (==_refl n)) (Reads-pure p))))))

  -- Where the code of a packet that fits the format stands before the cursor, `decodePacket` reads
  -- it in both allocation modes, returns the packet in the form in which its codec carries it, and
  -- leaves the cursor behind the code.
  pub decode_packet-Reads :
      (p : Packet F) → IsPacket p → Reads decode_packet (packet_code p) (normal_packet p)
  unfolding packet_code normal_packet counted_code decode_contents
  decode_packet-Reads p (of_messages c ms hc few fit) =
      let (byte, supported, command) = command_codec c hc in
      rw command (
        around c (length ms) _ _ byte supported few (
          rw command (
            Reads-map _
              (decode_many-Reads (decode_command c) (message_code c) (normal_message c)
                (IsMessage c) (decode_command-Reads c hc) ms fit)
              refl)))
  decode_packet-Reads p (of_frames c ds hc few fit) =
      let (byte, supported, frames) = data_codec c hc in
      rw frames (
        around c (length ds) _ _ byte supported few (
          rw frames (
            Reads-map _
              (decode_many-Reads (decode_data c) (data_code c) (normal_data c) (IsFrame c)
                (decode_data-Reads c hc) ds fit)
              refl)))
