-- ===== src/HttpServer/Commands.antt =====
-- `handleCmd`: the frame that goes to the device.
use teltonika.Prelude.{ℕ, ◌≤◌, ◌≡◌, refl, arith, inl, none, some, [], ◌∷◌, length, ok}
use teltonika.Packet.{Float64, Packet, codec12}
use teltonika.IoElements.{Text}
use teltonika.Decode.Frame.{is_type_supported}
use teltonika.Transport.Format.{tcp_code}
use teltonika.Transport.Stream.{Reader}
use teltonika.Wire.{IsPacket, of_messages}
use teltonika.TcpServer.{Clients, register, send_packet}
use teltonika.TcpServer.Registry.{send_packet-register}
use teltonika.HttpServer.{command_limit, command_packet}

-- A command with codec 12 that has this text.
abbrev pub command_with : (F : Type 0) → Text → Packet F
command_with F text = record {
  codec_id = 12;
  frames = none;
  messages = some (record { timestamp = 0; type = 5; imei = []; text = text } ∷ []);
}

module _ (F : Type 0) ⦃fl : Float64 F⦄ where
  command_with-IsPacket :
      (text : Text) → length text ≤ command_limit → IsPacket (command_with F text)
  unfolding is_type_supported
  command_with-IsPacket text short = of_messages codec12 _ (inl refl) (omega arith) (
    record {
      type_byte = omega arith;
      type_fits = refl;
      timestamp = omega arith;
      size = omega arith;
      imei = λ e. absurd (cc e);
    },
    tt,
  )

  -- Whatever the body of a request for a device that registered is, `handleCmd` writes one frame to
  -- its connection: that of a command with codec 12 whose text is what one Read of the body delivers
  -- into 512 bytes, without the space around it. Trimming is assumed to lengthen no text.
  pub send_packet-command_packet :
      {S : Type 0} ⦃rd : Reader S⦄ (trim_space : Text → Text) (clients : Clients) (imei : Text)
      (client : ℕ) (body : S)
      → ((t : Text) → length (trim_space t) ≤ length t)
      → send_packet {F = F} ((register imei client clients).0 imei) (command_packet trim_space body)
        ≡ ok (client, tcp_code (command_with F (trim_space ((rd.read body 512).chunk))))
  unfolding command_packet
  send_packet-command_packet ⦃rd⦄ trim_space clients imei client body shorter =
      let read = rd.length-read body command_limit in
      let trimmed = shorter ((rd.read body command_limit).chunk) in
      send_packet-register clients imei client _
        (command_with-IsPacket (trim_space ((rd.read body 512).chunk)) (omega arith))
