-- ===== src/UdpServer/Log/Complete.antt =====
-- simple-udp-server: the log of a datagram that holds a frame, and that logging never stops the
-- server.
use teltonika.Prelude.{
  ℕ, suc, ◌+◌, ◌-◌, ◌≤◌, ◌<◌, ◌≡◌, refl, arith, inl, inr, Bool, true, ◌&&◌, not, ◌==◌, Option, none,
  some, List, [], ◌∷◌, ◌++◌, length, take, take_append, Result, ok, err, panic, Bool-cases,
}
use teltonika.Hex.{encode_to_string}
use teltonika.Texts.{join_with}
use teltonika.Packet.{Packet, AvlData, Float64, DecodedUdp}
use teltonika.Encode.Frame.{or_nil}
use teltonika.IoElements.{Text, Number, Decoder}
use teltonika.IoElements.Lookup.{and_false}
use teltonika.IoElements.Printed.{Formats, IsShown, element_strings-IsShown}
use teltonika.Transport.Decoding.{udp_decoded}
use teltonika.Transport.Format.{udp_code}
use teltonika.Transport.Udp.{decode_udp_from_slice}
use teltonika.Transport.RoundTrip.{length-udp_code, decode_udp_from_slice-udp_code}
use teltonika.Wire.{IsPacket, packet_code, normal_packet}
use teltonika.UdpServer.{Datagram, Event, decode_config, received, decoded, handle_connection}
use teltonika.UdpServer.Log.{
  Line, message, decoded_as, io_elements, marshal_failed, write_failed, decode_failed, comma,
  frame_lines, packet_lines, answered_lines, decoded_lines, handler_lines,
}

module _ {V F : Type 0} ⦃fm : Formats V⦄ ⦃num : Number V⦄ (decoder : Decoder V) where
  -- One line for each data frame from a number on, in order, with the elements in front of the
  -- first that cannot be decoded.
  pub data AreShown : ℕ → List (AvlData F) → List Line → Type 0 where
    no_frame : {i : ℕ} → AreShown i [] []
    next_frame :
        {i : ℕ} {d : AvlData F} {ds : List (AvlData F)} {ts : List Text} {lines : List Line}
        → IsShown decoder d.elements ts
        → AreShown (suc i) ds lines
        → AreShown i (d ∷ ds) (io_elements i (join_with comma ts) ∷ lines)

  frame_lines-AreShown :
      (i : ℕ) (ds : List (AvlData F))
      → (lines : List Line) × (frame_lines decoder i ds ≡ ok lines) × AreShown i ds lines
  unfolding frame_lines
  frame_lines-AreShown i [] = ([], refl, no_frame)
  frame_lines-AreShown i (d ∷ ds) =
      let (ts, runs, shown) = element_strings-IsShown decoder d.elements in
      let (lines, more, all) = frame_lines-AreShown (suc i) ds in
      (io_elements i (join_with comma ts) ∷ lines, rw (runs, more) refl, next_frame shown all)

  packet_lines-ok :
      (p : Packet F) (json : Option Text)
      → (lines : List Line) × (packet_lines decoder p json ≡ ok lines)
  unfolding packet_lines
  packet_lines-ok p none = (marshal_failed ∷ [], refl)
  packet_lines-ok p (some json) =
      let (lines, runs, all) = frame_lines-AreShown 0 (or_nil p.frames) in
      (decoded_as json ∷ lines, rw runs refl)

  module _ (marshal : Packet F → Option Text) where
    answered_lines-ok :
        (writable : Bool) (bytes : List ℕ) (res : DecodedUdp F)
        → (lines : List Line) × (answered_lines decoder marshal writable bytes res ≡ ok lines)
    unfolding answered_lines
    answered_lines-ok writable bytes res =
        let (lines, runs) = packet_lines-ok res.packet (marshal res.packet) in
        elim (Bool-cases (not (length res.response == 0) && not writable)) [
          | inl failed ↦ (write_failed ∷ [], rw failed refl)
          | inr fine ↦ (message (encode_to_string bytes) ∷ lines, rw (fine, runs) refl)
        ]

    answered_lines-writable :
        (bytes : List ℕ) (res : DecodedUdp F) (json : Text) (lines : List Line)
        → marshal res.packet ≡ some json
        → frame_lines decoder 0 (or_nil res.packet.frames) ≡ ok lines
        → answered_lines decoder marshal true bytes res
          ≡ ok (message (encode_to_string bytes) ∷ decoded_as json ∷ lines)
    unfolding answered_lines packet_lines
    answered_lines-writable bytes res json lines written runs =
        rw (and_false (not (length res.response == 0)), written, runs) refl

    module _ ⦃fl : Float64 F⦄ where
      -- Logging never stops the server: if the handler returns without its log, so it does with it.
      handler_lines-ok :
          (writable : Bool) (d : Datagram) (es : List (Event F))
          → handle_connection writable d ≡ ok es
          → (lines : List Line) × (handler_lines decoder marshal writable d ≡ ok lines)
      unfolding handle_connection handler_lines decoded decoded_lines
      handler_lines-ok writable d es h =
          logged (decode_udp_from_slice (some d.bytes) (some decode_config ∷ [])) h
        where
          logged :
              (m : Result (ℕ × DecodedUdp F))
              → decoded writable d.addr m ≡ ok es
              → (lines : List Line) × (decoded_lines decoder marshal writable d.bytes m ≡ ok lines)
          logged (ok (read, res)) k = answered_lines-ok writable d.bytes res
          logged (err e) k = (decode_failed e ∷ [], refl)
          logged panic k = absurd (cc k)

      -- For a datagram with the frame of a packet that fits the format and the limit, if the packet
      -- can be written as JSON and responses can be written, the log has the bytes in hex, the JSON,
      -- and one line for each data frame with its number, in order; it shows the elements in front
      -- of the first that the decoder has no definition for or cannot decode, and a blank for each
      -- element from there on.
      pub handler_lines-udp_code :
          (addr : ℕ) (imei : List ℕ) (packet_id avl_packet_id : ℕ) (p : Packet F) (rest : List ℕ)
          (json : Text)
          → IsPacket p
          → packet_id < 65536
          → length (packet_code p) + length imei + 8 ≤ 1280
          → marshal (normal_packet p) ≡ some json
          → (lines : List Line) × AreShown 0 (or_nil (normal_packet p).frames) lines
            × (handler_lines decoder marshal true (
                  received (record {
                    addr = addr;
                    bytes = udp_code imei packet_id avl_packet_id p ++ rest;
                  }))
                ≡ ok (
                    message (
                      encode_to_string
                        (take 1300 (udp_code imei packet_id avl_packet_id p ++ rest)))
                    ∷ decoded_as json
                    ∷ lines))
      unfolding handler_lines received decoded_lines udp_decoded
      handler_lines-udp_code addr imei packet_id avl_packet_id p rest json h id small written =
          let code = udp_code imei packet_id avl_packet_id p in
          let len = length-udp_code imei packet_id avl_packet_id p in
          let kept = take_append 1300 code rest (omega arith) in
          let runs =
            decode_udp_from_slice-udp_code imei packet_id avl_packet_id p
              (take (1300 - length code) rest) (some decode_config ∷ []) h id small (omega arith) in
          let (lines, shown, all) = frame_lines-AreShown 0 (or_nil (normal_packet p).frames) in
          (lines, all, rw (kept, runs) (answered_lines-writable _ _ json lines written shown))
