-- ===== src/Transport/Encoding.antt =====
-- teltonika.go: `encodeTCPInternal` and `encodeUDPInternal` put a packet into its frame.
use teltonika.Prelude.{
  ℕ, ◌+◌, ◌-◌, ◌≤◌, ◌≡◌, refl, ap, arith, List, [], ◌∷◌, ◌++◌, append_assoc, append-nil, length,
  drop, replicate, length-append, length-drop, length-replicate, drop_all, le→leb, ok,
}
use teltonika.Bytes.{be16, be32}
use teltonika.Packet.{Packet, Float64}
use teltonika.Util.Crc.{crc16_ibm}
use teltonika.Util.ByteReader.{slice}
use teltonika.Util.ByteReader.Reads.{slice-append}
use teltonika.Encode.Writes.{
  onto, store-onto, copy_at-onto, slice_from-onto, take-onto, onto-append,
}
use teltonika.Encode.Packets.{encode_packet-Writes}
use teltonika.Transport.Tcp.{encode_tcp_internal}
use teltonika.Transport.Udp.{encode_udp_internal}
use teltonika.Transport.Size.{contents_size}
use teltonika.Transport.Sizes.{contents_size-packet_code, check_packet_lem}
use teltonika.Transport.Format.{tcp_code, udp_header, udp_code}
use teltonika.Wire.{packet_code, IsPacket}

-- A buffer that is full holds what was written.
onto_full : (done buf : List ℕ) → length buf ≤ length done → onto done buf ≡ done
onto_full done buf h = rw (drop_all buf (length done) h) (append-nil done)

slice-onto :
    (before part buf : List ℕ) (lo hi : ℕ)
    → lo ≡ length before
    → hi ≡ length before + length part
    → slice lo hi (onto (before ++ part) buf) ≡ ok part
slice-onto before part buf lo hi e f =
    let rest = drop (length (before ++ part)) buf in
    rw (append_assoc before part rest) (slice-append before part rest lo hi e f)

module _ {F : Type 0} ⦃fl : Float64 F⦄ where
  -- `encodeTCPInternal` makes the TCP frame of a packet that fits the format.
  pub encode_tcp_internal-tcp_code :
      (p : Packet F) → IsPacket p → encode_tcp_internal p ≡ ok (tcp_code p)
  unfolding encode_tcp_internal tcp_code
  encode_tcp_internal-tcp_code p h =
      let body = packet_code p in
      let n = length body in
      let buf : List ℕ = replicate (n + 12) 0 in
      let room = length-replicate {A = ℕ} (n + 12) 0 in
      let w₁ = be32 0 in
      let w₂ = w₁ ++ be32 n in
      let w₃ = w₂ ++ body in
      let crc = be32 (crc16_ibm body) in
      let sized : contents_size p 3 ≡ ok n = contents_size-packet_code p h 3 n (omega arith) in
      let l₃ = length-append w₂ body in
      let l₄ = length-append w₃ crc in
      let left = length-drop 8 buf in
      rw
        (
          check_packet_lem p h,
          sized,
          store-onto [] w₁ buf 0 refl (omega arith),
          store-onto w₁ (be32 n) buf 4 refl (omega arith),
          slice_from-onto w₂ buf 8 refl (omega arith),
          encode_packet-Writes p h (drop 8 buf) (omega arith),
          onto-append w₂ body buf,
          slice-onto w₂ body buf 8 (8 + n) refl refl,
          store-onto w₃ crc buf (8 + n) (omega arith) (omega arith),
          onto_full (w₃ ++ crc) buf (omega arith),
        )
        (ap ok (append_assoc w₂ body crc))

  -- `encodeUDPInternal` makes the UDP frame of a packet that fits the format, if it is not larger
  -- than the limit.
  pub encode_udp_internal-udp_code :
      (imei : List ℕ) (packet_id avl_packet_id : ℕ) (p : Packet F)
      → IsPacket p
      → length (packet_code p) + length imei + 8 ≤ 1280
      → encode_udp_internal imei packet_id avl_packet_id p
        ≡ ok (udp_code imei packet_id avl_packet_id p)
  unfolding encode_udp_internal udp_code udp_header
  encode_udp_internal-udp_code imei packet_id avl_packet_id p h small =
      let body = packet_code p in
      let size = length body + length imei + 8 in
      let buf : List ℕ = replicate size 0 in
      let room = length-replicate {A = ℕ} size 0 in
      let field : size - 2 ≡ length body + length imei + 6 = omega arith in
      let w₁ = be16 (length body + length imei + 6) in
      let w₂ = w₁ ++ be16 packet_id in
      let w₃ = w₂ ++ (0x01 ∷ []) in
      let w₄ = w₃ ++ (avl_packet_id ∷ []) in
      let w₅ = w₄ ++ be16 (length imei) in
      let w₆ = w₅ ++ imei in
      let sized : contents_size p (11 + length imei) ≡ ok size =
        contents_size-packet_code p h (11 + length imei) size (omega arith) in
      let l₆ = length-append w₅ imei in
      let l₇ = length-append w₆ body in
      let pos : 8 + length imei ≡ length w₆ = omega arith in
      let left = length-drop (length w₆) buf in
      rw
        (
          check_packet_lem p h,
          sized,
          le→leb size 1280 small,
          field,
          store-onto [] w₁ buf 0 refl (omega arith),
          store-onto w₁ (be16 packet_id) buf 2 refl (omega arith),
          store-onto w₂ (0x01 ∷ []) buf 4 refl (omega arith),
          store-onto w₃ (avl_packet_id ∷ []) buf 5 refl (omega arith),
          store-onto w₄ (be16 (length imei)) buf 6 refl (omega arith),
          copy_at-onto w₅ imei buf 8 refl (omega arith),
          slice_from-onto w₆ buf (8 + length imei) pos (omega arith),
          encode_packet-Writes p h (drop (length w₆) buf) (omega arith),
          take-onto w₆ buf (8 + length imei) pos,
          onto-append w₆ body buf,
          onto_full (w₆ ++ body) buf (omega arith),
        )
        (ap ok (append_assoc w₅ imei body))
