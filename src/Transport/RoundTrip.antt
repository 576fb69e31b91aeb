-- ===== src/Transport/RoundTrip.antt =====
-- teltonika.go: a packet that is encoded and decoded again, from a slice and from a byte stream.
use teltonika.Prelude.{
  ℕ, ◌+◌, ◌≤◌, ◌<◌, ◌≡◌, refl, arith, Option, none, some, List, [], ◌∷◌, ◌++◌, length, take,
  length-append, take-length_append, le→leb, ok, and_then,
}
use teltonika.Bytes.{be16, be32}
use teltonika.Packet.{Packet, DecodeConfig, Float64}
use teltonika.Util.Crc.{crc16_ibm}
use teltonika.Transport.Config.{choose_config}
use teltonika.Transport.Stream.{Source, take_header, take_packet, no_reader}
use teltonika.Transport.Tcp.{decode_tcp_from_slice, encode_packet_tcp}
use teltonika.Transport.Udp.{decode_udp_from_slice, encode_packet_udp}
use teltonika.Transport.Encoding.{encode_tcp_internal-tcp_code, encode_udp_internal-udp_code}
use teltonika.Transport.Decoding.{
  tcp_decoded, udp_decoded, decode_tcp_internal_lem, decode_udp_internal_lem,
}
use teltonika.Transport.Format.{tcp_code, udp_header, udp_code}
use teltonika.Wire.{packet_code, IsPacket}

abbrev slice_source : List ℕ → Source (Unit {0})
slice_source input = record { reader = none; input_buffer = some input; output_buffer = none }

-- A slice gives its front, and what lies behind it does not matter.
take_header_slice :
    (n : ℕ) (header rest : List ℕ)
    → length header ≡ n
    → take_header n (slice_source (header ++ rest)) ≡ ok (header, none)
unfolding take_header
take_header_slice n header rest e = rw (
  ← e,
  le→leb (length header) (length (header ++ rest)) (omega (arith, length-append header rest)),
  take-length_append header rest,
)

take_packet_slice :
    (n size : ℕ) (header code rest : List ℕ)
    → length code ≡ size
    → take_packet n size header none (slice_source (code ++ rest)) ≡ ok (code, none)
unfolding take_packet
take_packet_slice n size header code rest e = rw (
  ← e,
  le→leb (length code) (length (code ++ rest)) (omega (arith, length-append code rest)),
  take-length_append code rest,
)

pub one_config :
    (config : List (Option DecodeConfig))
    → length config < 2
    → (cfg : DecodeConfig) × (choose_config config ≡ ok cfg)
unfolding choose_config
one_config [] h = (_, refl)
one_config (none ∷ []) h = (_, refl)
one_config (some cfg ∷ []) h = (cfg, refl)
one_config (_ ∷ _ ∷ _) h = absurd (omega arith)

module _ {F : Type 0} ⦃fl : Float64 F⦄ where
  pub length-tcp_code : (p : Packet F) → length (tcp_code p) ≡ length (packet_code p) + 4 + 8
  unfolding tcp_code
  length-tcp_code p =
      omega (arith, length-append (packet_code p) (be32 (crc16_ibm (packet_code p))))

  pub length-udp_code :
      (imei : List ℕ) (packet_id avl_packet_id : ℕ) (p : Packet F)
      → length (udp_code imei packet_id avl_packet_id p)
        ≡ length (packet_code p) + length imei + 6 + 2
  unfolding udp_code udp_header
  length-udp_code imei packet_id avl_packet_id p = omega (arith, length-append imei (packet_code p))

  decode_tcp_from_slice-tcp_code :
      (p : Packet F) (rest : List ℕ) (config : List (Option DecodeConfig))
      → IsPacket p
      → length (packet_code p) ≤ 1280
      → length config < 2
      → decode_tcp_from_slice (some (tcp_code p ++ rest)) config
        ≡ ok (length (tcp_code p), tcp_decoded p)
  unfolding decode_tcp_from_slice
  decode_tcp_from_slice-tcp_code p rest config h small one =
      let (cfg, chosen) = one_config config one in
      let n = length (packet_code p) in
      let header = be32 0 ++ be32 n in
      let src = slice_source (tcp_code p ++ rest) in
      let first : take_header 8 src ≡ ok (header, none) =
        unfold tcp_code in take_header_slice 8 header _ refl in
      rw (
        chosen,
        decode_tcp_internal_lem src cfg p h small none none first
            (take_packet_slice 8 (n + 4 + 8) header (tcp_code p) rest (length-tcp_code p)),
      )

  pub decode_udp_from_slice-udp_code :
      (imei : List ℕ) (packet_id avl_packet_id : ℕ) (p : Packet F) (rest : List ℕ)
      (config : List (Option DecodeConfig))
      → IsPacket p
      → packet_id < 65536
      → length (packet_code p) + length imei + 8 ≤ 1280
      → length config < 2
      → decode_udp_from_slice (some (udp_code imei packet_id avl_packet_id p ++ rest)) config
        ≡ ok (
          length (udp_code imei packet_id avl_packet_id p),
          udp_decoded imei packet_id avl_packet_id p,
        )
  unfolding decode_udp_from_slice
  decode_udp_from_slice-udp_code imei packet_id avl_packet_id p rest config h id small one =
      let (cfg, chosen) = one_config config one in
      let n = length (packet_code p) + length imei + 6 in
      let code = udp_code imei packet_id avl_packet_id p in
      let header = take 5 (udp_header imei packet_id avl_packet_id p) in
      let src = slice_source (code ++ rest) in
      let first : take_header 5 src ≡ ok (header, none) =
        unfold udp_code udp_header in
        take_header_slice 5 (be16 n ++ (be16 packet_id ++ (0x01 ∷ []))) _ refl in
      rw (
        chosen,
        decode_udp_internal_lem src cfg imei packet_id avl_packet_id p h id small none none first (
            take_packet_slice 5 (n + 2) header code rest
              (length-udp_code imei packet_id avl_packet_id p)),
      )

  -- A packet that fits the format and the limit of 1280 bytes, encoded for TCP and decoded from a
  -- slice in which anything may follow, comes back in the form in which its codec carries it, with
  -- the number of the bytes it took. This is so for any configuration, given once or not at all.
  pub decode_tcp_from_slice-encode_packet_tcp :
      (p : Packet F) (rest : List ℕ) (config : List (Option DecodeConfig))
      → IsPacket p
      → length (packet_code p) ≤ 1280
      → length config < 2
      → and_then
          (encode_packet_tcp p)
          (λ bytes. decode_tcp_from_slice (some (bytes ++ rest)) config)
        ≡ ok (length (packet_code p) + 12, tcp_decoded p)
  unfolding encode_packet_tcp
  decode_tcp_from_slice-encode_packet_tcp p rest config h small one =
      let len : length (tcp_code p) ≡ length (packet_code p) + 12 =
        omega (arith, length-tcp_code p) in
      rw (
        encode_tcp_internal-tcp_code p h,
        decode_tcp_from_slice-tcp_code p rest config h small one,
        len,
      )

  -- A packet that fits the format, whose frame with the IMEI is no longer than 1280 bytes, encoded
  -- for UDP and decoded from a slice in which anything may follow, comes back in the form in which
  -- its codec carries it, with the IMEI, both numbers and the number of the bytes it took. This is
  -- so for any configuration, given once or not at all.
  pub decode_udp_from_slice-encode_packet_udp :
      (imei : List ℕ) (packet_id avl_packet_id : ℕ) (p : Packet F) (rest : List ℕ)
      (config : List (Option DecodeConfig))
      → IsPacket p
      → packet_id < 65536
      → length (packet_code p) + length imei + 8 ≤ 1280
      → length config < 2
      → and_then
          (encode_packet_udp imei packet_id avl_packet_id p)
          (λ bytes. decode_udp_from_slice (some (bytes ++ rest)) config)
        ≡ ok (length (packet_code p) + length imei + 8, udp_decoded imei packet_id avl_packet_id p)
  unfolding encode_packet_udp
  decode_udp_from_slice-encode_packet_udp imei packet_id avl_packet_id p rest config h id small
        one =
      let len : length (udp_code imei packet_id avl_packet_id p)
          ≡ length (packet_code p) + length imei + 8 =
        omega (arith, length-udp_code imei packet_id avl_packet_id p) in
      rw (
        encode_udp_internal-udp_code imei packet_id avl_packet_id p h small,
        decode_udp_from_slice-udp_code imei packet_id avl_packet_id p rest config h id small one,
        len,
      )
