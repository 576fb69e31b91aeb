-- ===== src/Transport/Format.antt =====
-- The frames that carry a packet on TCP and on UDP, as lists of bytes.
use teltonika.Prelude.{ℕ, ◌+◌, List, ◌∷◌, ◌++◌, length}
use teltonika.Bytes.{be16, be32}
use teltonika.Packet.{Packet, Float64}
use teltonika.Util.Crc.{crc16_ibm}
use teltonika.Wire.{packet_code}

module _ {F : Type 0} ⦃fl : Float64 F⦄ where
  -- The preamble, the length of the packet, the packet and its checksum.
  unfoldable pub tcp_code : Packet F → List ℕ
  tcp_code p =
      be32 0
      ++ (be32 (length (packet_code p)) ++ (packet_code p ++ be32 (crc16_ibm (packet_code p))))

  -- The fields of the header, the avl packet number, the IMEI behind its length, and the packet.
  unfoldable pub udp_header : List ℕ → ℕ → ℕ → Packet F → List ℕ
  udp_header imei packet_id avl_packet_id p =
      be16 (length (packet_code p) + length imei + 6)
      ++ (be16 packet_id ++ (0x01 ∷ avl_packet_id ∷ be16 (length imei)))

  unfoldable pub udp_code : List ℕ → ℕ → ℕ → Packet F → List ℕ
  udp_code imei packet_id avl_packet_id p =
      udp_header imei packet_id avl_packet_id p ++ (imei ++ packet_code p)
