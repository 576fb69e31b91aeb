-- ===== src/TcpServer/Hooks/Deliveries.antt =====
-- simple-tcp-server: what reaches the HTTP side and the output hook from a device's connection.
use teltonika.Prelude.{Option, List, [], ◌∷◌, ◌++◌, if◌then◌else◌}
use teltonika.Packet.{Float64, is_cmd_codec_id}
use teltonika.IoElements.{Text}
use teltonika.Encode.Frame.{or_nil}
use teltonika.Wire.{normal_packet}
use teltonika.TcpServer.Session.Answers.{Item, ping, frame}
use teltonika.TcpServer.Hooks.{Point, Act, writes_message, posts, disconnects, first_message}
use teltonika.TcpServer.Hooks.Packets.{report}

-- The calls that the handler waits for, and the requests that it starts.
unfoldable pub waited : List Act → List Act
waited [] = []
waited (writes_message imei m ∷ acts) = writes_message imei m ∷ waited acts
waited (posts body ∷ acts) = waited acts
waited (disconnects imei ∷ acts) = disconnects imei ∷ waited acts

unfoldable pub requests : List Act → List Text
requests [] = []
requests (writes_message imei m ∷ acts) = requests acts
requests (posts body ∷ acts) = body ∷ requests acts
requests (disconnects imei ∷ acts) = requests acts

-- For the HTTP side: the first message of each packet of commands.
module _ {F : Type 0} ⦃fl : Float64 F⦄ (imei : Text) where
  unfoldable pub commands : List (Item F) → List Act
  commands [] = []
  commands (ping ∷ is) = commands is
  commands (frame p ∷ is) =
      let rest = commands is in
      if is_cmd_codec_id p.codec_id
      then first_message imei (normal_packet p).messages ++ rest
      else rest

-- For the output hook: the positions of each other packet that has some.
module _ {F : Type 0} ⦃fl : Float64 F⦄ (render : Text → List (Point F) → Option Text)
    (out_hook imei : Text) where
  unfoldable pub bodies : List (Item F) → List Text
  bodies [] = []
  bodies (ping ∷ is) = bodies is
  bodies (frame p ∷ is) =
      let rest = bodies is in
      if is_cmd_codec_id p.codec_id
      then rest
      else requests (report render out_hook imei (or_nil (normal_packet p).frames)) ++ rest
