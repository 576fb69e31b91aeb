-- ===== src/TcpServer/Hooks.antt =====
-- simple-tcp-server: what `main` makes of the calls OnPacket and OnClose, with `buildJsonPacket` and
-- `hookSend`.
pub mod Packets
pub mod Deliveries
use teltonika.Prelude.{
  ℕ, ◌/◌, ◌==◌, Option, none, some, List, [], ◌∷◌, ◌++◌, map, length, if◌then◌else◌,
}
use teltonika.Packet.{Packet, AvlData, Message}
use teltonika.IoElements.{Text}
use teltonika.TcpServer.Session.{
  Event, on_connect, registers, wrote, on_packet, on_close, deletes, closes,
}

-- An entry of `gpsFrames`.
pub record Point (F : Type 0) : Type 0 where
  pub timestamp : ℕ
  pub lat : F
  pub lon : F

-- What the hooks do: a call of WriteMessage, the start of a goroutine that sends a request to the
-- output hook, and a call of ClientDisconnected. The handler waits for the first and the last to
-- return; the requests run beside it and may be sent in any order.
pub data Act : Type 0 where
  writes_message : Text → Message → Act
  posts : Text → Act
  disconnects : Text → Act

-- The first of the messages of a packet.
unfoldable pub first_message : Text → Option (List Message) → List Act
first_message imei none = []
first_message imei (some []) = []
first_message imei (some (m ∷ ms)) = writes_message imei m ∷ []

module _ {F : Type 0} where
  -- `frame.TimestampMs / 1000.0` is a division of integers.
  unfoldable pub point_of : AvlData F → Point F
  point_of frame = record {
    timestamp = frame.timestamp_ms / 1000;
    lat = frame.lat;
    lon = frame.lng;
  }

  -- json.Marshal of the IMEI, the points and the time is a parameter; its error gives nil, `none`.
  module _ (render : Text → List (Point F) → Option Text) where
    -- Without points there is nothing to send.
    unfoldable pub points_body : Text → List (Point F) → Option Text
    points_body imei [] = none
    points_body imei (g ∷ gs) = render imei (g ∷ gs)

    unfoldable pub build_json_packet : Text → Packet F → Option Text
    build_json_packet imei pkt = elim pkt.frames [
      | none ↦ none
      | some frames ↦ points_body imei (map point_of frames)
    ]

    unfoldable pub hook_send : Text → Packet F → List Act
    hook_send imei pkt = elim (build_json_packet imei pkt) [
      | none ↦ []
      | some body ↦ posts body ∷ []
    ]

    unfoldable pub hooked : Text → Text → Packet F → List Act
    hooked out_hook imei pkt = elim pkt.frames [
      | none ↦ []
      | some frames ↦ if length out_hook == 0 then [] else hook_send imei pkt
    ]

    -- The hooks on what a handler did; OnConnect is nil.
    unfoldable pub hooks : Text → Event F → List Act
    hooks out_hook (on_packet imei pkt) =
        first_message imei pkt.messages ++ hooked out_hook imei pkt
    hooks out_hook (on_close imei) = disconnects imei ∷ []
    hooks out_hook (on_connect imei) = []
    hooks out_hook (registers imei) = []
    hooks out_hook (wrote bytes) = []
    hooks out_hook (deletes imei) = []
    hooks out_hook closes = []

    unfoldable pub all_hooks : Text → List (Event F) → List Act
    all_hooks out_hook [] = []
    all_hooks out_hook (e ∷ es) = hooks out_hook e ++ all_hooks out_hook es
