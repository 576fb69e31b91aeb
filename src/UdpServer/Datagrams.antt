-- ===== src/UdpServer/Datagrams.antt =====
-- simple-udp-server: datagrams that hold the frame of a packet, and datagrams that stop the server.
use teltonika.Prelude.{
  ℕ, ◌+◌, ◌-◌, ◌*◌, ◌≤◌, ◌<◌, ◌≡◌, refl, arith, inl, inr, Bool, some, List, [], ◌∷◌, ◌++◌, length,
  take, take_append, Bool-cases, if◌then◌else◌, ok, panic,
}
use teltonika.Packet.{Packet, Float64, is_cmd_codec_id}
use teltonika.Encode.Frame.{or_nil}
use teltonika.Transport.Responses.{acknowledgement, udp_response-count}
use teltonika.Transport.Decoding.{udp_decoded}
use teltonika.Transport.Format.{udp_code}
use teltonika.Transport.RoundTrip.{length-udp_code, decode_udp_from_slice-udp_code}
use teltonika.Transport.Safety.{decode_udp_from_slice-panic}
use teltonika.Wire.{IsPacket, packet_code, normal_packet}
use teltonika.UdpServer.{
  Datagram, Event, wrote, on_packet, decode_config, received, respond, decoded, handle_connection,
}

-- A datagram that stops the server: at least a header, whose size field is below 3.
pub record IsFatal (d : Datagram) : Type 0 where
  pub high : ℕ
  pub low : ℕ
  pub third : ℕ
  pub fourth : ℕ
  pub fifth : ℕ
  pub rest : List ℕ
  pub bytes : d.bytes ≡ high ∷ low ∷ third ∷ fourth ∷ fifth ∷ rest
  pub size : high * 256 + low < 3

module _ {F : Type 0} ⦃fl : Float64 F⦄ where
  pub handle_connection-panic :
      (writable : Bool) (d : Datagram)
      → IsFatal d
      → handle_connection {F = F} writable (received d) ≡ panic
  unfolding handle_connection decoded received
  handle_connection-panic writable d h =
      rw
        (
          h.bytes,
          decode_udp_from_slice-panic F h.high h.low h.third h.fourth h.fifth (take 1295 h.rest)
              (some decode_config ∷ []) h.size (omega arith),
        )
        refl

  -- What the handler of a frame does; the first argument says whether a response can be written.
  unfoldable pub answers : Bool → ℕ → List ℕ → ℕ → ℕ → Packet F → List (Event F)
  answers writable addr imei packet_id avl_packet_id p =
      if is_cmd_codec_id p.codec_id
      then on_packet imei (normal_packet p) ∷ []
      else if writable
      then wrote addr (acknowledgement packet_id avl_packet_id (length (or_nil p.frames)))
        ∷ on_packet imei (normal_packet p)
        ∷ []
      else []

  -- A datagram with the frame of a packet that fits the format and the limit is handed on without a
  -- response, if it is a packet of commands. A packet of data frames is acknowledged to its sender
  -- with the packet's numbers and the number of frames, and then handed on with the IMEI it carries,
  -- or, if the response cannot be written, neither. What follows the frame in the datagram, and
  -- whether it is too long for the buffer, does not matter.
  pub handle_connection-udp_code :
      (writable : Bool) (addr : ℕ) (imei : List ℕ) (packet_id avl_packet_id : ℕ) (p : Packet F)
      (rest : List ℕ)
      → IsPacket p
      → packet_id < 65536
      → length (packet_code p) + length imei + 8 ≤ 1280
      → handle_connection writable (
          received
            (record { addr = addr; bytes = udp_code imei packet_id avl_packet_id p ++ rest }))
        ≡ ok (answers writable addr imei packet_id avl_packet_id p)
  unfolding handle_connection received decoded respond answers udp_decoded acknowledgement
  handle_connection-udp_code writable addr imei packet_id avl_packet_id p rest h id small =
      let code = udp_code imei packet_id avl_packet_id p in
      let len = length-udp_code imei packet_id avl_packet_id p in
      let kept = take_append 1300 code rest (omega arith) in
      let runs =
        decode_udp_from_slice-udp_code imei packet_id avl_packet_id p
          (take (1300 - length code) rest) (some decode_config ∷ []) h id small (omega arith) in
      let response = udp_response-count packet_id avl_packet_id p h in
      elim (Bool-cases (is_cmd_codec_id p.codec_id)) [
        | inl command ↦ rw (kept, runs, response, command) refl
        | inr data_frames ↦ rw (kept, runs, response, data_frames) refl
      ]
