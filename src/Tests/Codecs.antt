-- ===== src/Tests/Codecs.antt =====
-- The theorems on the body of a packet, at concrete packets.
use teltonika.Prelude.{ℕ, ◌≡◌, arith, true, List, [], ◌∷◌, replicate}
use teltonika.Util.ByteReader.{ByteReader}
use teltonika.Util.ByteReader.Reads.{Reads}
use teltonika.Decode.Frame.{decode_packet}
use teltonika.Decode.Packets.{decode_packet-Reads}
use teltonika.Encode.Frame.{encode_packet}
use teltonika.Encode.Writes.{written}
use teltonika.Encode.Packets.{encode_packet-Writes}
use teltonika.Wire.{packet_code, normal_packet}
use teltonika.Tests.Data.{
  fixed_point, getinfo, tracked, getinfo-IsPacket, tracked-IsPacket, length-getinfo,
}

abbrev empty_buffer : List ℕ
empty_buffer = replicate 15 0

-- A reader in the middle of five bytes that are no packet.
abbrev torn : ByteReader
torn = record { pos = 2; size = 5; input = 0 ∷ 0 ∷ 0x8e ∷ 1 ∷ 2 ∷ []; alloc_on_read = true }

decode_packet-Reads_example : Reads decode_packet (packet_code tracked) (normal_packet tracked)
decode_packet-Reads_example = decode_packet-Reads tracked tracked-IsPacket

encode_packet-Writes_example :
    encode_packet getinfo empty_buffer ≡ written empty_buffer (packet_code getinfo)
encode_packet-Writes_example =
    encode_packet-Writes getinfo getinfo-IsPacket empty_buffer (omega (arith, length-getinfo))
