-- ===== src/UdpServer/Log.antt =====
-- simple-udp-server: what the handler of a datagram logs. The TCP server logs packets with the same
-- code.
pub mod Complete
use teltonika.Prelude.{
  ℕ, suc, Bool, ◌&&◌, not, ◌==◌, if◌then◌else◌, Option, none, some, List, [], ◌∷◌, length, Result,
  ok, err, panic, and_then, Error,
}
use teltonika.Hex.{encode_to_string}
use teltonika.Texts.{join_with}
use teltonika.Packet.{Packet, AvlData, Float64, DecodedUdp}
use teltonika.Encode.Frame.{or_nil}
use teltonika.IoElements.{Text, Number, Decoder}
use teltonika.IoElements.Printed.{Formats, element_strings}
use teltonika.Transport.Udp.{decode_udp_from_slice}
use teltonika.UdpServer.{Datagram, decode_config}

-- A line of the log, without the sender that each begins with.
pub data Line : Type 0 where
  decode_failed : Error → Line
  write_failed : Line
  message : Text → Line
  marshal_failed : Line
  decoded_as : Text → Line
  io_elements : ℕ → Text → Line

abbrev pub comma : Text
comma = b',' ∷ b' ' ∷ []

-- The decoder stands for the default decoder, whose table is generated.
module _ {V F : Type 0} ⦃fm : Formats V⦄ ⦃num : Number V⦄ (decoder : Decoder V) where
  -- The loop over the data frames.
  unfoldable pub frame_lines : ℕ → List (AvlData F) → Result (List Line)
  frame_lines i [] = ok []
  frame_lines i (d ∷ ds) = and_then (element_strings decoder d.elements) λ elements.
      and_then (frame_lines (suc i) ds)
        λ lines. ok (io_elements i (join_with comma elements) ∷ lines)

  unfoldable pub packet_lines : Packet F → Option Text → Result (List Line)
  packet_lines p none = ok (marshal_failed ∷ [])
  packet_lines p (some json) =
      and_then (frame_lines 0 (or_nil p.frames)) (λ lines. ok (decoded_as json ∷ lines))

  -- json.Marshal is a parameter; `none` is an error.
  module _ (marshal : Packet F → Option Text) where
    -- A response that cannot be written ends the handler.
    unfoldable pub answered_lines : Bool → List ℕ → DecodedUdp F → Result (List Line)
    answered_lines writable bytes res =
        if not (length res.response == 0) && not writable
        then ok (write_failed ∷ [])
        else and_then (packet_lines res.packet (marshal res.packet))
            (λ lines. ok (message (encode_to_string bytes) ∷ lines))

    unfoldable pub decoded_lines : Bool → List ℕ → Result (ℕ × DecodedUdp F) → Result (List Line)
    decoded_lines writable bytes (ok (read, res)) = answered_lines writable bytes res
    decoded_lines writable bytes (err e) = ok (decode_failed e ∷ [])
    decoded_lines writable bytes panic = panic

    -- All that `handleConnection` logs.
    unfoldable pub handler_lines : ⦃fl : Float64 F⦄ → Bool → Datagram → Result (List Line)
    handler_lines writable d =
        decoded_lines writable d.bytes
          (decode_udp_from_slice (some d.bytes) (some decode_config ∷ []))
