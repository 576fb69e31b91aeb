-- ===== src/Transport/Responses.antt =====
-- teltonika.go: the response to a packet of data frames, by the number of its frames.
use teltonika.Prelude.{
  ℕ, ◌/◌, ◌%◌, ◌<◌, ◌^◌, ◌≡◌, refl, arith, List, [], ◌∷◌, ◌++◌, length, length-map, if◌then◌else◌,
}
use teltonika.Bytes.{be16, be32, u8}
use teltonika.Packet.{Packet, Float64, is_cmd_codec_id}
use teltonika.Encode.Frame.{or_nil}
use teltonika.Transport.Tcp.{tcp_response}
use teltonika.Transport.Udp.{udp_response}
use teltonika.Wire.{IsPacket, of_messages, of_frames, normal_packet, normal_data}

-- The acknowledgement of data frames on UDP: its length, the packet's numbers, and the count.
unfoldable pub acknowledgement : ℕ → ℕ → ℕ → List ℕ
acknowledgement packet_id avl_packet_id count =
    be16 5 ++ (be16 packet_id ++ (0x01 ∷ avl_packet_id ∷ count ∷ []))

small_be32 : (n : ℕ) → n < 256 → 0x00 ∷ 0x00 ∷ 0x00 ∷ u8 n ∷ [] ≡ be32 n
small_be32 n h =
    let a : n / 2 ^ 24 % 256 ≡ 0 = omega arith in
    let b : n / 2 ^ 16 % 256 ≡ 0 = omega arith in
    let c : n / 2 ^ 8 % 256 ≡ 0 = omega arith in rw (a, b, c)

module _ {F : Type 0} ⦃fl : Float64 F⦄ where
  -- Decoding keeps the number of frames, which fits a byte.
  count_kept :
      (p : Packet F)
      → IsPacket p
      → (length (or_nil (normal_packet p).frames) ≡ length (or_nil p.frames))
        × (length (or_nil p.frames) < 256)
  unfolding normal_packet
  count_kept _ (of_messages c ms e few all) = (refl, omega arith)
  count_kept _ (of_frames c ds e few all) = (length-map (normal_data c) ds, few)

  pub tcp_response-count :
      (p : Packet F)
      → IsPacket p
      → tcp_response (normal_packet p)
        ≡ (if is_cmd_codec_id p.codec_id then [] else be32 (length (or_nil p.frames)))
  unfolding tcp_response normal_packet
  tcp_response-count p h =
      let (kept, few) = count_kept p h in rw (kept, small_be32 (length (or_nil p.frames)) few) refl

  pub udp_response-count :
      (packet_id avl_packet_id : ℕ) (p : Packet F)
      → IsPacket p
      → udp_response packet_id avl_packet_id (normal_packet p) ≡ (
          if is_cmd_codec_id p.codec_id
          then []
          else acknowledgement packet_id avl_packet_id (length (or_nil p.frames)))
  unfolding udp_response normal_packet acknowledgement
  udp_response-count packet_id avl_packet_id p h =
      let (kept, few) = count_kept p h in
      let byte : length (or_nil p.frames) % 256 ≡ length (or_nil p.frames) = omega arith in
      rw (kept, byte) refl
