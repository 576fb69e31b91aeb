-- ===== src/HttpServer.antt =====
-- examples/simple-tcp-server/main.go: the HTTP handler that sends commands, `handleCmd`, with
-- `WriteMessage` and `ClientDisconnected`, which pass on what the device answers.
pub mod Commands
pub mod Hub
use teltonika.Prelude.{ℕ, Option, none, some, List, [], ◌∷◌}
use teltonika.Packet.{Packet, Message, codec12, type_command}
use teltonika.IoElements.{Text}
use teltonika.Transport.Stream.{Reader}

abbrev pub command_limit : ℕ
command_limit = 512

-- The packet for what one Read of the request's body delivers into a buffer of 512 bytes, whose error
-- is ignored.
unfoldable pub command_packet : {F S : Type 0} → ⦃rd : Reader S⦄ → (Text → Text) → S → Packet F
command_packet ⦃rd⦄ trim_space body = record {
  codec_id = codec12;
  frames = none;
  messages = some (
      record {
        timestamp = 0;
        type = type_command;
        imei = [];
        text = trim_space ((rd.read body command_limit).chunk);
      }
      ∷ []);
}

-- What `handleCmd` answers: an error of SendPacket (400), the text of the device's response (200),
-- that the device disconnected (503), or that it did not respond in time (504).
pub data Answer : Type 0 where
  bad_request : Answer
  responded : Text → Answer
  service_unavailable : Answer
  gateway_timeout : Answer

-- A nil message is `none`.
unfoldable pub answer_of : Option Message → Answer
answer_of none = service_unavailable
answer_of (some m) = responded m.text
