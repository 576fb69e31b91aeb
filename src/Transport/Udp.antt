-- ===== src/Transport/Udp.antt =====
-- teltonika.go: `decodeUDPInternal`, `encodeUDPInternal` and the exported functions over them.
use teltonika.Prelude.{
  ℕ, ◌+◌, ◌-◌, ◌/◌, Bool, Option, none, some, List, [], ◌∷◌, ◌++◌, length, take, replicate, leb,
  if◌then◌else◌, Result, ok, err, and_then, require, too_large, output_is_nil,
}
use teltonika.Bytes.{be16, uint16_be, u8, slice_from, store, copy_at}
use teltonika.Packet.{Float64, Packet, DecodedUdp, DecodeConfig, is_cmd_codec_id}
use teltonika.Util.ByteReader.{new_byte_reader, slice, read_uint8_be, read_uint16_be, read_bytes}
use teltonika.Decode.Frame.{decode_packet}
use teltonika.Encode.Frame.{encode_packet, or_nil}
use teltonika.Transport.Stream.{Reader, no_reader, Source, take_header, take_packet}
use teltonika.Transport.Config.{choose_config, is_on_heap}
use teltonika.Transport.Size.{check_packet, contents_size}

infixl 5 ◌>>=◌
abbrev ◌>>=◌ {ℓ κ} : {A : Type ℓ} {B : Type κ} → Result A → (A → Result B) → Result B
m >>= f = and_then m f

abbrev pub header_size : ℕ
header_size = 5

-- The header's fields: `packetSize`, which is `size - 3 + 5` also where `size` is below 3, and `packetId`.
unfoldable pub parse_udp_header : List ℕ → Result (ℕ × ℕ)
parse_udp_header header = slice 0 2 header >>= λ first_field. uint16_be first_field >>= λ size.
    slice_from 2 header >>= λ second_field. uint16_be second_field >>= λ packet_id.
    require (leb size 1280) (too_large size) (ok (size + 2, packet_id))

module _ {F : Type 0} where
  unfoldable pub udp_response : ℕ → ℕ → Packet F → List ℕ
  udp_response packet_id avl_packet_id p =
      if is_cmd_codec_id p.codec_id
      then []
      else 0x00
        ∷ 0x05
        ∷ u8 (packet_id / 256)
        ∷ u8 packet_id
        ∷ 0x01
        ∷ avl_packet_id
        ∷ u8 (length (or_nil p.frames))
        ∷ []

  module _ ⦃fl : Float64 F⦄ where
    -- What `decodeUDPInternal` does with the bytes behind the header.
    unfoldable pub decode_udp_body : Bool → ℕ → List ℕ → Result (DecodedUdp F)
    decode_udp_body alloc packet_id body =
        read_uint8_be (new_byte_reader body alloc) >>= λ (avl_packet_id, r₁).
        read_uint16_be r₁ >>= λ (imei_len, r₂). read_bytes imei_len r₂ >>= λ (imei, r₃).
        decode_packet r₃ >>= λ (packet, _). ok (record {
          packet_id = packet_id;
          avl_packet_id = avl_packet_id;
          imei = imei;
          packet = packet;
          response = udp_response packet_id avl_packet_id packet;
        })

    module _ {S : Type 0} ⦃rd : Reader S⦄ where
      unfoldable pub decode_udp_internal :
          Source S → DecodeConfig → Result (List ℕ × DecodedUdp F × Option S)
      decode_udp_internal src config = take_header header_size src >>= λ (header, reader).
          parse_udp_header header >>= λ (packet_size, packet_id).
          take_packet header_size packet_size header reader src >>= λ (buffer, reader').
          slice_from header_size buffer >>= λ body.
          decode_udp_body (is_on_heap config) packet_id body >>= λ packet.
          ok (buffer, packet, reader')

      unfoldable pub decode_udp_from_reader :
          S → List (Option DecodeConfig) → Result (List ℕ × DecodedUdp F × Option S)
      decode_udp_from_reader input config = choose_config config >>= λ cfg.
          decode_udp_internal
            (record { reader = some input; input_buffer = none; output_buffer = none }) cfg

      unfoldable pub decode_udp_from_reader_buf :
          S → Option (List ℕ) → List (Option DecodeConfig) → Result (ℕ × DecodedUdp F × Option S)
      decode_udp_from_reader_buf input read_bytes config = choose_config config >>= λ cfg.
          elim read_bytes [
            | none ↦ err output_is_nil
            | some output ↦
                decode_udp_internal
                  (record { reader = some input; input_buffer = none; output_buffer = some output })
                  cfg
                >>= λ (buf, packet, reader). ok (length buf, packet, reader)
          ]

    -- A nil slice is `none`.
    unfoldable pub decode_udp_from_slice :
        Option (List ℕ) → List (Option DecodeConfig) → Result (ℕ × DecodedUdp F)
    decode_udp_from_slice input_buffer config = choose_config config >>= λ cfg.
        decode_udp_internal {S = Unit {0}}
          (record { reader = none; input_buffer = input_buffer; output_buffer = none }) cfg
        >>= λ (buf, packet, _). ok (length buf, packet)

    unfoldable pub encode_udp_internal : List ℕ → ℕ → ℕ → Packet F → Result (List ℕ)
    encode_udp_internal imei packet_id avl_packet_id packet = check_packet packet (
        contents_size packet (11 + length imei) >>= λ data_size.
        require (leb data_size 1280) (too_large data_size) (
          store 0 (be16 (data_size - 2)) (replicate data_size 0) >>= λ b₁.
          store 2 (be16 packet_id) b₁ >>= λ b₂. store 4 (0x01 ∷ []) b₂ >>= λ b₃.
          store 5 (avl_packet_id ∷ []) b₃ >>= λ b₄. store 6 (be16 (length imei)) b₄ >>= λ b₅.
          copy_at 8 imei b₅ >>= λ b₆.
          let pos = 8 + length imei in
          slice_from pos b₆ >>= λ part.
          encode_packet packet part >>= λ (_, part'). ok (take pos b₆ ++ part')))

    unfoldable pub encode_packet_udp : List ℕ → ℕ → ℕ → Packet F → Result (List ℕ)
    encode_packet_udp imei packet_id avl_packet_id packet =
        encode_udp_internal imei packet_id avl_packet_id packet
