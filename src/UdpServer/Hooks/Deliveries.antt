-- ===== src/UdpServer/Hooks/Deliveries.antt =====
-- simple-udp-server: what reaches the output hook of datagrams with frames.
use teltonika.Prelude.{ℕ, ◌+◌, ◌≤◌, ◌<◌, ◌≡◌, false, Option, List, [], ◌++◌, length, if◌then◌else◌}
use teltonika.Packet.{Packet, Float64, is_cmd_codec_id}
use teltonika.IoElements.{Text}
use teltonika.Encode.Frame.{or_nil}
use teltonika.Transport.Format.{udp_code}
use teltonika.Wire.{IsPacket, packet_code, normal_packet}
use teltonika.TcpServer.Hooks.{Point, Act}
use teltonika.TcpServer.Hooks.Packets.{report}
use teltonika.UdpServer.{Datagram, Event}
use teltonika.UdpServer.Pool.{Pool}

-- A datagram with the frame of a packet: its sender, what the frame holds, and what follows it.
pub record Sent (F : Type 0) : Type 0 where
  pub addr : ℕ
  pub imei : Text
  pub packet_id : ℕ
  pub avl_packet_id : ℕ
  pub packet : Packet F
  pub rest : List ℕ

module _ {F : Type 0} ⦃fl : Float64 F⦄ where
  pub record IsSent (d : Sent F) : Type 0 where
    pub fits : IsPacket d.packet
    pub id : d.packet_id < 65536
    pub small : length (packet_code d.packet) + length d.imei + 8 ≤ 1280

  abbrev pub datagram : Sent F → Datagram
  datagram d = record {
    addr = d.addr;
    bytes = udp_code d.imei d.packet_id d.avl_packet_id d.packet ++ d.rest;
  }

  module _ (render : Text → List (Point F) → Option Text) (out_hook : Text) where
    -- The positions of a packet, if it is none of commands.
    unfoldable pub positions : Sent F → List Act
    positions d =
        if is_cmd_codec_id d.packet.codec_id
        then []
        else report render out_hook d.imei (or_nil (normal_packet d.packet).frames)

    -- Without a response of the device's that could be written nothing was done.
    abbrev pub IsRefused : Sent F → List (Event F) → Type 0
    IsRefused d es = (es ≡ []) × (is_cmd_codec_id d.packet.codec_id ≡ false)
