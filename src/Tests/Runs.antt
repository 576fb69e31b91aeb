-- ===== src/Tests/Runs.antt =====
-- The examples of the protocol's documentation that the repository's tests use, run.
use teltonika.Prelude.{◌≡◌, refl, [], ◌∷◌, ok}
use mathlib.Core.Option.{bind}
use teltonika.Bytes.{store, slice_from, copy_at}
use teltonika.Packet.{is_codec_supported, is_cmd_codec_id}
use teltonika.Util.Crc.{crc16_ibm, crc_loop, update_crc, crc16_ibm_lookup_table}
use teltonika.Util.ByteReader.{slice}
use teltonika.Hex.{decode_string, hex_value}
use teltonika.Decode.Frame.{is_type_supported}
use teltonika.Encode.Frame.{
  extra_size, encode_timestamp, imei_bytes, encode_imei, encode_message, encode_many,
  encode_counted, encode_packet,
}
use teltonika.Transport.Size.{check_packet, messages_size, contents_size}
use teltonika.Transport.Tcp.{encode_packet_tcp, encode_tcp_internal}
use teltonika.Tests.Data.{fixed_point, getinfo, getver}

-- `TestCodec12Encode`
encode_getinfo :
    encode_packet_tcp getinfo
    ≡ ok (
        0x00 ∷ 0x00 ∷ 0x00 ∷ 0x00 ∷ 0x00 ∷ 0x00 ∷ 0x00 ∷ 0x0f ∷ 0x0c ∷ 0x01 ∷ 0x05 ∷ 0x00 ∷ 0x00
        ∷ 0x00 ∷ 0x07 ∷ 0x67 ∷ 0x65 ∷ 0x74 ∷ 0x69 ∷ 0x6e ∷ 0x66 ∷ 0x6f ∷ 0x01 ∷ 0x00 ∷ 0x00 ∷ 0x43
        ∷ 0x12 ∷ [])
unfolding encode_packet_tcp encode_tcp_internal check_packet is_codec_supported is_cmd_codec_id
    contents_size messages_size extra_size store slice_from copy_at slice encode_packet
    encode_counted encode_many encode_message is_type_supported encode_timestamp encode_imei
    imei_bytes decode_string hex_value crc16_ibm crc_loop update_crc crc16_ibm_lookup_table bind
encode_getinfo = refl

-- `TestCodec14Encode`
encode_getver :
    encode_packet_tcp getver
    ≡ ok (
        0x00 ∷ 0x00 ∷ 0x00 ∷ 0x00 ∷ 0x00 ∷ 0x00 ∷ 0x00 ∷ 0x16 ∷ 0x0e ∷ 0x01 ∷ 0x05 ∷ 0x00 ∷ 0x00
        ∷ 0x00 ∷ 0x0e ∷ 0x03 ∷ 0x52 ∷ 0x09 ∷ 0x30 ∷ 0x81 ∷ 0x45 ∷ 0x22 ∷ 0x51 ∷ 0x67 ∷ 0x65 ∷ 0x74
        ∷ 0x76 ∷ 0x65 ∷ 0x72 ∷ 0x01 ∷ 0x00 ∷ 0x00 ∷ 0xd2 ∷ 0xc1 ∷ [])
unfolding encode_packet_tcp encode_tcp_internal check_packet is_codec_supported is_cmd_codec_id
    contents_size messages_size extra_size store slice_from copy_at slice encode_packet
    encode_counted encode_many encode_message is_type_supported encode_timestamp encode_imei
    imei_bytes decode_string hex_value crc16_ibm crc_loop update_crc crc16_ibm_lookup_table bind
encode_getver = refl
