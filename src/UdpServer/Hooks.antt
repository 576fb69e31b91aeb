-- ===== src/UdpServer/Hooks.antt =====
-- simple-udp-server: what `main` makes of the calls of OnPacket. Its `buildJsonPacket` and `hookSend`
-- are the same code as those of the TCP server.
pub mod Deliveries
use teltonika.Prelude.{List, [], ◌∷◌, ◌++◌, Option, none, some, ◌==◌, length, if◌then◌else◌}
use teltonika.Packet.{Packet}
use teltonika.IoElements.{Text}
use teltonika.TcpServer.Hooks.{Point, Act, hook_send}
use teltonika.UdpServer.{Event, wrote, on_packet}

module _ {F : Type 0} (render : Text → List (Point F) → Option Text) where
  unfoldable pub posted : Text → Event F → List Act
  posted out_hook (wrote addr bytes) = []
  posted out_hook (on_packet imei pkt) = elim pkt.frames [
    | none ↦ []
    | some frames ↦ if length out_hook == 0 then [] else hook_send render imei pkt
  ]

  -- Of all that one handler did. `go hookSend` starts a request, which runs beside the handler.
  unfoldable pub all_posted : Text → List (Event F) → List Act
  all_posted out_hook [] = []
  all_posted out_hook (e ∷ es) = posted out_hook e ++ all_posted out_hook es
