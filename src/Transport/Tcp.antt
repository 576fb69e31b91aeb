-- ===== src/Transport/Tcp.antt =====
-- teltonika.go: `decodeTCPInternal`, `encodeTCPInternal` and the exported functions over them.
use teltonika.Prelude.{
  ℕ, ◌+◌, Bool, Option, none, some, List, [], ◌∷◌, ◌++◌, length, take, replicate, leb, ◌==◌,
  if◌then◌else◌, Result, ok, err, and_then, require, bad_preamble, too_large, bad_crc,
  output_is_nil,
}
use teltonika.Bytes.{be32, uint32_be, u8, slice_from, store}
use teltonika.Packet.{Float64, Packet, DecodedTcp, DecodeConfig, is_cmd_codec_id}
use teltonika.Util.Crc.{crc16_ibm}
use teltonika.Util.ByteReader.{new_byte_reader, slice, read_uint32_be}
use teltonika.Decode.Frame.{decode_packet}
use teltonika.Encode.Frame.{encode_packet, or_nil}
use teltonika.Transport.Stream.{Reader, no_reader, Source, take_header, take_packet}
use teltonika.Transport.Config.{choose_config, is_on_heap}
use teltonika.Transport.Size.{check_packet, contents_size}

infixl 5 ◌>>=◌
abbrev ◌>>=◌ {ℓ κ} : {A : Type ℓ} {B : Type κ} → Result A → (A → Result B) → Result B
m >>= f = and_then m f

abbrev pub header_size : ℕ
header_size = 8

-- The two fields of the header; the result is `packetSize`.
unfoldable pub parse_tcp_header : List ℕ → Result ℕ
parse_tcp_header header = slice 0 4 header >>= λ first_half. uint32_be first_half >>= λ preamble.
    require (preamble == 0) (bad_preamble preamble) (
      slice_from 4 header >>= λ second_half. uint32_be second_half >>= λ data_field_length.
      require (leb data_field_length 1280) (too_large data_field_length)
        (ok (data_field_length + 4 + header_size)))

module _ {F : Type 0} where
  unfoldable pub tcp_response : Packet F → List ℕ
  tcp_response p =
      if is_cmd_codec_id p.codec_id
      then []
      else 0x00 ∷ 0x00 ∷ 0x00 ∷ u8 (length (or_nil p.frames)) ∷ []

  module _ ⦃fl : Float64 F⦄ where
    -- What `decodeTCPInternal` does with the bytes behind the header.
    unfoldable pub decode_tcp_body : Bool → List ℕ → Result (DecodedTcp F)
    decode_tcp_body alloc body = decode_packet (new_byte_reader body alloc) >>= λ (packet, r).
        slice 0 r.pos r.input >>= λ checked.
        let crc_calc = crc16_ibm checked in
        read_uint32_be r >>= λ (crc, _).
        require (crc_calc == crc) (bad_crc crc_calc crc)
          (ok (record { packet = packet; response = tcp_response packet }))

    module _ {S : Type 0} ⦃rd : Reader S⦄ where
      unfoldable pub decode_tcp_internal :
          Source S → DecodeConfig → Result (List ℕ × DecodedTcp F × Option S)
      decode_tcp_internal src config = take_header header_size src >>= λ (header, reader).
          parse_tcp_header header >>= λ packet_size.
          take_packet header_size packet_size header reader src >>= λ (buffer, reader').
          slice_from header_size buffer >>= λ body.
          decode_tcp_body (is_on_heap config) body >>= λ packet. ok (buffer, packet, reader')

      unfoldable pub decode_tcp_from_reader :
          S → List (Option DecodeConfig) → Result (List ℕ × DecodedTcp F × Option S)
      decode_tcp_from_reader input config = choose_config config >>= λ cfg.
          decode_tcp_internal
            (record { reader = some input; input_buffer = none; output_buffer = none }) cfg

      unfoldable pub decode_tcp_from_reader_buf :
          S → Option (List ℕ) → List (Option DecodeConfig) → Result (ℕ × DecodedTcp F × Option S)
      decode_tcp_from_reader_buf input read_bytes config = choose_config config >>= λ cfg.
          elim read_bytes [
            | none ↦ err output_is_nil
            | some output ↦
                decode_tcp_internal
                  (record { reader = some input; input_buffer = none; output_buffer = some output })
                  cfg
                >>= λ (buf, packet, reader). ok (length buf, packet, reader)
          ]

    -- A nil slice is `none`.
    unfoldable pub decode_tcp_from_slice :
        Option (List ℕ) → List (Option DecodeConfig) → Result (ℕ × DecodedTcp F)
    decode_tcp_from_slice input_buffer config = choose_config config >>= λ cfg.
        decode_tcp_internal {S = Unit {0}}
          (record { reader = none; input_buffer = input_buffer; output_buffer = none }) cfg
        >>= λ (buf, packet, _). ok (length buf, packet)

    unfoldable pub encode_tcp_internal : Packet F → Result (List ℕ)
    encode_tcp_internal packet = check_packet packet (
        contents_size packet 3 >>= λ data_size.
        store 0 (be32 0) (replicate (data_size + 12) 0) >>= λ b₁.
        store 4 (be32 data_size) b₁ >>= λ b₂. slice_from 8 b₂ >>= λ part.
        encode_packet packet part >>= λ (n, part').
        let b₃ = take 8 b₂ ++ part' in
        let pos = 8 + n in slice 8 pos b₃ >>= λ checked. store pos (be32 (crc16_ibm checked)) b₃)

    unfoldable pub encode_packet_tcp : Packet F → Result (List ℕ)
    encode_packet_tcp packet = encode_tcp_internal packet
