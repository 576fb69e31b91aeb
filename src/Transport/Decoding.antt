-- ===== src/Transport/Decoding.antt =====
-- teltonika.go: `decodeTCPInternal` and `decodeUDPInternal` on input that starts with a frame.
use teltonika.Prelude.{
  ℕ, ◌+◌, ◌*◌, ◌/◌, ◌≤◌, ◌<◌, ◌^◌, ◌≡◌, refl, arith, Bool, Option, List, [], ◌∷◌, ◌++◌, append-nil,
  length, take, le→leb, ==_refl, ok,
}
use teltonika.Bytes.{be16, be32, u8, slice_from}
use teltonika.Packet.{Packet, DecodedTcp, DecodedUdp, DecodeConfig, Float64}
use teltonika.Util.Crc.{crc16_ibm}
use teltonika.Util.Crc.Bounds.{crc16_ibm-lt}
use teltonika.Util.ByteReader.{slice, new_byte_reader}
use teltonika.Util.ByteReader.Reads.{
  reader_at, slice-append, slice_from-append, read_uint8_be-Reads, read_uint16_be-Reads,
  read_uint32_be-Reads, read_bytes-Reads,
}
use teltonika.Decode.Frame.{decode_packet}
use teltonika.Decode.Packets.{decode_packet-Reads}
use teltonika.Transport.Config.{is_on_heap}
use teltonika.Transport.Stream.{Reader, Source, take_header, take_packet}
use teltonika.Transport.Tcp.{parse_tcp_header, tcp_response, decode_tcp_body, decode_tcp_internal}
use teltonika.Transport.Udp.{parse_udp_header, udp_response, decode_udp_body, decode_udp_internal}
use teltonika.Transport.Format.{tcp_code, udp_header, udp_code}
use teltonika.Wire.{packet_code, normal_packet, IsPacket}

parse_tcp_header_lem : (n : ℕ) → n ≤ 1280 → parse_tcp_header (be32 0 ++ be32 n) ≡ ok (n + 4 + 8)
unfolding parse_tcp_header slice slice_from
parse_tcp_header_lem n h =
    let field : ((u8 (n / 2 ^ 24) * 256 + u8 (n / 2 ^ 16)) * 256 + u8 (n / 2 ^ 8)) * 256 + u8 n
        ≡ n =
      omega arith in
    rw (field, le→leb n 1280 h)

parse_udp_header_lem :
    (n packet_id : ℕ)
    → n ≤ 1280
    → packet_id < 65536
    → parse_udp_header (be16 n ++ (be16 packet_id ++ (0x01 ∷ []))) ≡ ok (n + 2, packet_id)
unfolding parse_udp_header slice slice_from
parse_udp_header_lem n packet_id h k =
    let size : u8 (n / 256) * 256 + u8 n ≡ n = omega arith in
    let number : u8 (packet_id / 256) * 256 + u8 packet_id ≡ packet_id = omega arith in
    rw (size, number, le→leb n 1280 h)

module _ {F : Type 0} ⦃fl : Float64 F⦄ where
  -- What a TCP frame of the packet decodes to.
  unfoldable pub tcp_decoded : Packet F → DecodedTcp F
  tcp_decoded p = record { packet = normal_packet p; response = tcp_response (normal_packet p) }

  decode_tcp_body_lem :
      (alloc : Bool) (p : Packet F)
      → IsPacket p
      → decode_tcp_body alloc (packet_code p ++ be32 (crc16_ibm (packet_code p)))
        ≡ ok (tcp_decoded p)
  unfolding decode_tcp_body tcp_decoded new_byte_reader
  decode_tcp_body_lem alloc p h =
      let body = packet_code p in
      let crc = crc16_ibm body in
      rw (
        (decode_packet-Reads p h).runs alloc [] (be32 crc),
        slice-append [] body (be32 crc) 0 (length body) refl (omega arith),
        (read_uint32_be-Reads crc (omega (arith, crc16_ibm-lt body))).runs alloc body [],
        ==_refl crc,
      )

  -- If header and frame come in, the packet comes out.
  pub decode_tcp_internal_lem :
      {S : Type 0} ⦃rd : Reader S⦄ (src : Source S) (config : DecodeConfig) (p : Packet F)
      → IsPacket p
      → length (packet_code p) ≤ 1280
      → (r₁ r₂ : Option S) → take_header 8 src ≡ ok (be32 0 ++ be32 (length (packet_code p)), r₁)
      → take_packet 8
          (length (packet_code p) + 4 + 8)
          (be32 0 ++ be32 (length (packet_code p)))
          r₁
          src
        ≡ ok (tcp_code p, r₂)
      → decode_tcp_internal src config ≡ ok (tcp_code p, tcp_decoded p, r₂)
  unfolding decode_tcp_internal
  decode_tcp_internal_lem src config p h small r₁ r₂ e₁ e₂ =
      let body : slice_from 8 (tcp_code p)
          ≡ ok (packet_code p ++ be32 (crc16_ibm (packet_code p))) =
        unfold tcp_code in
        slice_from-append (be32 0 ++ be32 (length (packet_code p)))
          (packet_code p ++ be32 (crc16_ibm (packet_code p))) in
      rw (
        e₁,
        parse_tcp_header_lem (length (packet_code p)) small,
        e₂,
        body,
        decode_tcp_body_lem (is_on_heap config) p h,
      )

  -- What a UDP frame of the packet decodes to.
  unfoldable pub udp_decoded : List ℕ → ℕ → ℕ → Packet F → DecodedUdp F
  udp_decoded imei packet_id avl_packet_id p = record {
    packet_id = packet_id;
    avl_packet_id = avl_packet_id;
    imei = imei;
    packet = normal_packet p;
    response = udp_response packet_id avl_packet_id (normal_packet p);
  }

  decode_udp_body_lem :
      (alloc : Bool) (imei : List ℕ) (packet_id avl_packet_id : ℕ) (p : Packet F)
      → IsPacket p
      → length imei < 65536
      → decode_udp_body alloc packet_id
          (avl_packet_id ∷ (be16 (length imei) ++ (imei ++ packet_code p)))
        ≡ ok (udp_decoded imei packet_id avl_packet_id p)
  unfolding decode_udp_body udp_decoded new_byte_reader
  decode_udp_body_lem alloc imei packet_id avl_packet_id p h few =
      let body = packet_code p in
      let front = avl_packet_id ∷ be16 (length imei) in
      let whole : decode_packet (reader_at alloc (front ++ imei) body)
          ≡ ok (normal_packet p, reader_at alloc ((front ++ imei) ++ body) []) =
        rw (append-nil body) at ((decode_packet-Reads p h).runs alloc (front ++ imei) []) in
      rw (
        (read_uint8_be-Reads avl_packet_id).runs alloc [] (be16 (length imei) ++ (imei ++ body)),
        (read_uint16_be-Reads (length imei) few).runs alloc (avl_packet_id ∷ []) (imei ++ body),
        (read_bytes-Reads imei (length imei) refl).runs alloc front body,
        whole,
      )

  pub decode_udp_internal_lem :
      {S : Type 0} ⦃rd : Reader S⦄ (src : Source S) (config : DecodeConfig) (imei : List ℕ)
      (packet_id avl_packet_id : ℕ) (p : Packet F)
      → IsPacket p
      → packet_id < 65536
      → length (packet_code p) + length imei + 8 ≤ 1280
      → (r₁ r₂ : Option S)
      → take_header 5 src ≡ ok (take 5 (udp_header imei packet_id avl_packet_id p), r₁)
      → take_packet 5
          (length (packet_code p) + length imei + 6 + 2)
          (take 5 (udp_header imei packet_id avl_packet_id p))
          r₁
          src
        ≡ ok (udp_code imei packet_id avl_packet_id p, r₂)
      → decode_udp_internal src config
        ≡ ok (
          udp_code imei packet_id avl_packet_id p,
          udp_decoded imei packet_id avl_packet_id p,
          r₂,
        )
  unfolding decode_udp_internal udp_header
  decode_udp_internal_lem src config imei packet_id avl_packet_id p h id small r₁ r₂ e₁ e₂ =
      let n = length (packet_code p) + length imei + 6 in
      let front = be16 n ++ (be16 packet_id ++ (0x01 ∷ [])) in
      let rest = avl_packet_id ∷ (be16 (length imei) ++ (imei ++ packet_code p)) in
      let body : slice_from 5 (udp_code imei packet_id avl_packet_id p) ≡ ok rest =
        unfold udp_code in slice_from-append front rest in
      rw (
        e₁,
        parse_udp_header_lem n packet_id (omega arith) id,
        e₂,
        body,
        decode_udp_body_lem (is_on_heap config) imei packet_id avl_packet_id p h (omega arith),
      )
