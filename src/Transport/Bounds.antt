-- ===== src/Transport/Bounds.antt =====
-- teltonika.go: no decoder of the transports panics, but `decodeUDPInternal` on a size below 3.
use teltonika.Prelude.{
  ℕ, ◌+◌, ◌*◌, ◌≤◌, ◌≡◌, refl, arith, Bool, true, false, inl, inr, List, ◌∷◌, length, take, drop,
  length-take, length-drop, leb, ◌==◌, Bool-cases, Result, ok, err, require, Returns, Error,
  bad_crc,
}
use teltonika.Packet.{Float64}
use teltonika.Util.Crc.{crc16_ibm}
use teltonika.Util.ByteReader.{new_byte_reader}
use teltonika.Util.ByteReader.Bounds.{
  IsSound, Safely-Returns, slice_from_le, slice_le, uint16_be_long, uint32_be_long,
  read_uint8_be-IsSafe, read_uint16_be-IsSafe, read_bytes-IsSafe, read_uint32_be-IsSafe,
}
use teltonika.Decode.Bounds.{decode_packet-IsSafe}
use teltonika.Transport.Tcp.{parse_tcp_header, decode_tcp_body}
use teltonika.Transport.Udp.{parse_udp_header, decode_udp_body}

new_byte_reader-IsSound : (input : List ℕ) (alloc : Bool) → IsSound (new_byte_reader input alloc)
unfolding new_byte_reader
new_byte_reader-IsSound input alloc = record { inside = omega arith; sized = refl }

require-Returns {ℓ} :
    {A : Type ℓ} (b : Bool) (e : Error) (k : Result A) → Returns k → Returns (require b e k)
require-Returns true e k h = h
require-Returns false e k h = tt

module _ (F : Type 0) ⦃fl : Float64 F⦄ where
  -- The part behind the header, whatever its bytes.
  pub decode_tcp_body-Returns :
      (alloc : Bool) (body : List ℕ) → Returns (decode_tcp_body {F = F} alloc body)
  unfolding decode_tcp_body
  decode_tcp_body-Returns alloc body =
      Safely-Returns _ (decode_packet-IsSafe _ (new_byte_reader-IsSound body alloc)) λ packet r h.
        let inside : r.pos ≤ length r.input = omega (arith, h.sound.inside, h.sound.sized) in
        rw (slice_le 0 r.pos r.input (omega arith) inside) (
          Safely-Returns _ (read_uint32_be-IsSafe r h.sound)
            λ crc r' h'. require-Returns (crc16_ibm _ == crc) (bad_crc _ crc) _ tt)

  pub decode_udp_body-Returns :
      (alloc : Bool) (packet_id : ℕ) (body : List ℕ)
      → Returns (decode_udp_body {F = F} alloc packet_id body)
  unfolding decode_udp_body
  decode_udp_body-Returns alloc packet_id body =
      Safely-Returns _ (read_uint8_be-IsSafe _ (new_byte_reader-IsSound body alloc))
        λ avl_packet_id r₁ h₁.
          Safely-Returns _ (read_uint16_be-IsSafe r₁ h₁.sound) λ imei_len r₂ h₂.
            Safely-Returns _ (read_bytes-IsSafe imei_len r₂ h₂.sound)
              λ imei r₃ h₃. Safely-Returns _ (decode_packet-IsSafe r₃ h₃.sound) λ packet r₄ h₄. tt

-- The size that a TCP header gives is between its own 8 bytes, the 4 of the checksum and the limit.
pub data Parsed : Result ℕ → Type 0 where
  parsed : (n : ℕ) → n ≤ 1280 → Parsed (ok (n + 4 + 8))
  refused : (e : Error) → Parsed (err e)

pub parse_tcp_header-Parsed :
    (header : List ℕ) → length header ≡ 8 → Parsed (parse_tcp_header header)
unfolding parse_tcp_header
parse_tcp_header-Parsed header e =
    let first = slice_le 0 4 header (omega arith) (omega arith) in
    let len_first : length (take 4 (drop 0 header)) ≡ 4 = omega (arith, length-take 4 header) in
    let (preamble, p₁) = uint32_be_long (take 4 (drop 0 header)) (omega arith) in
    let second = slice_from_le 4 header (omega arith) in
    let (n, p₂) = uint32_be_long (drop 4 header) (omega (arith, length-drop 4 header)) in
    rw (first, p₁)
      (elim (Bool-cases (preamble == 0)) [
        | inr bad ↦ rw bad (refused _)
        | inl good ↦
            rw (good, second, p₂)
              (elim (Bool-cases (leb n 1280)) [
                | inr bad ↦ rw bad (refused _)
                | inl small ↦ rw small (parsed n (ground arith))
              ])
      ])

-- What a UDP header whose size field holds `size` is parsed to.
pub data ParsedUdp (size : ℕ) : Result (ℕ × ℕ) → Type 0 where
  parsed_udp : (packet_id : ℕ) → size ≤ 1280 → ParsedUdp size (ok (size + 2, packet_id))
  refused_udp : (e : Error) → ParsedUdp size (err e)

pub parse_udp_header-ParsedUdp :
    (a b : ℕ) (t : List ℕ) → length t ≡ 3 → ParsedUdp (a * 256 + b) (parse_udp_header (a ∷ b ∷ t))
unfolding parse_udp_header
parse_udp_header-ParsedUdp a b t e =
    let header = a ∷ b ∷ t in
    let first = slice_le 0 2 header (omega arith) (omega arith) in
    let second = slice_from_le 2 header (omega arith) in
    let (packet_id, p) = uint16_be_long t (omega arith) in
    rw (first, second, p)
      (elim (Bool-cases (leb (a * 256 + b) 1280)) [
        | inr bad ↦ rw bad (refused_udp _)
        | inl small ↦ rw small (parsed_udp packet_id (ground arith))
      ])
