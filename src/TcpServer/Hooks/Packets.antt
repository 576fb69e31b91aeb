-- ===== src/TcpServer/Hooks/Packets.antt =====
-- simple-tcp-server: what the hooks make of a packet, and of the packets of a device.
use teltonika.Prelude.{
  ◌/◌, ◌≡◌, refl, sym, ap, ◌∙◌, inl, inr, Option, none, some, List, [], ◌∷◌, ◌++◌, append_assoc,
  append-nil, map, length, if_same, ◌==◌, if◌then◌else◌, Bool-cases,
}
use teltonika.Packet.{Packet, AvlData, Float64, is_cmd_codec_id}
use teltonika.IoElements.{Text}
use teltonika.Encode.Frame.{or_nil}
use teltonika.Wire.{IsPacket, of_messages, of_frames, normal_packet}
use teltonika.Decode.Packets.{command_codec, data_codec}
use teltonika.TcpServer.Session.{Event, on_packet}
use teltonika.TcpServer.Session.Answers.{Item, ping, frame, answers, all_answers, IsItem, AreItems}
use teltonika.TcpServer.Hooks.{
  Point, Act, posts, point_of, build_json_packet, points_body, hook_send, first_message, hooked,
  hooks, all_hooks,
}

-- An entry of a request: the time in seconds, and the position.
abbrev pub entry : {F : Type 0} → AvlData F → Point F
entry d = record { timestamp = d.timestamp_ms / 1000; lat = d.lat; lon = d.lng }

module _ {F : Type 0} ⦃fl : Float64 F⦄ (render : Text → List (Point F) → Option Text)
    (out_hook imei : Text) where
  -- The positions of a packet for the output hook, if there are any and a hook was given.
  unfoldable pub report : List (AvlData F) → List Act
  report [] = []
  report (d ∷ ds) =
      if length out_hook == 0
      then []
      else elim (render imei (map entry (d ∷ ds))) [ none ↦ [] | some body ↦ posts body ∷ [] ]

  -- What is made of an item: nothing of a ping, of a packet of commands its first message for the
  -- HTTP side, and of any other packet its positions for the hook.
  unfoldable pub delivered : Item F → List Act
  delivered ping = []
  delivered (frame p) =
      let q = normal_packet p in
      if is_cmd_codec_id p.codec_id then first_message imei q.messages else report (or_nil q.frames)

  unfoldable pub all_delivered : List (Item F) → List Act
  all_delivered [] = []
  all_delivered (i ∷ is) = delivered i ++ all_delivered is

  -- What the output hook gets of a packet.
  pub hooked-packet :
      (p : Packet F)
      → IsPacket p
      → hooked render out_hook imei (normal_packet p)
        ≡ (if is_cmd_codec_id p.codec_id then [] else report (or_nil (normal_packet p).frames))
  unfolding hooked hook_send build_json_packet points_body point_of report normal_packet
      is_cmd_codec_id
  hooked-packet _ (of_messages c ms codec few all) =
      let (_, _, command) = command_codec c codec in rw command refl
  hooked-packet _ (of_frames c [] codec few all) =
      let (_, _, data_frames) = data_codec c codec in
      rw (data_frames, if_same {A = List Act} (length out_hook == 0) []) refl
  hooked-packet _ (of_frames c (d ∷ ds) codec few all) =
      let (_, _, data_frames) = data_codec c codec in rw data_frames refl

  hooks-packet :
      (p : Packet F)
      → IsPacket p
      → hooks render out_hook (on_packet imei (normal_packet p)) ≡ delivered (frame p)
  unfolding hooks delivered first_message normal_packet
  hooks-packet p (of_messages c ms codec few all) =
      let (_, _, command) = command_codec c codec in
      rw (hooked-packet p (of_messages c ms codec few all), command, append-nil) refl
  hooks-packet p (of_frames c ds codec few all) =
      let (_, _, data_frames) = data_codec c codec in
      rw (hooked-packet p (of_frames c ds codec few all), data_frames) refl

  -- Of what the handler does for a packet, only its hand-over reaches a hook.
  all_hooks-answers :
      (p : Packet F) (es : List (Event F))
      → all_hooks render out_hook (answers imei (frame p) ++ es)
        ≡ hooks render out_hook (on_packet imei (normal_packet p)) ++ all_hooks render out_hook es
  unfolding all_hooks answers hooks
  all_hooks-answers p es = elim (Bool-cases (is_cmd_codec_id p.codec_id)) [
    | inl command ↦ rw command refl
    | inr data_frames ↦ rw data_frames refl
  ]

  hooks-answers :
      (i : Item F) (es : List (Event F))
      → IsItem i
      → all_hooks render out_hook (answers imei i ++ es)
        ≡ delivered i ++ all_hooks render out_hook es
  unfolding all_hooks answers delivered
  hooks-answers ping es h = refl
  hooks-answers (frame p) es (h, _) =
      all_hooks-answers p es
      ∙ ap (λ (l : List Act). l ++ all_hooks render out_hook es) (hooks-packet p h)

  pub all_hooks-all_answers :
      (items : List (Item F)) (es : List (Event F))
      → AreItems items
      → all_hooks render out_hook (all_answers imei items ++ es)
        ≡ all_delivered items ++ all_hooks render out_hook es
  unfolding all_answers all_delivered
  all_hooks-all_answers [] es h = refl
  all_hooks-all_answers (i ∷ is) es (h, hs) =
      ap (all_hooks render out_hook) (append_assoc (answers imei i) (all_answers imei is) es)
      ∙ hooks-answers i (all_answers imei is ++ es) h
      ∙ ap (λ (l : List Act). delivered i ++ l) (all_hooks-all_answers is es hs)
      ∙ sym (append_assoc (delivered i) (all_delivered is) (all_hooks render out_hook es))
