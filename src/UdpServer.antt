-- ===== src/UdpServer.antt =====
-- examples/simple-udp-server/main.go: the handling of datagrams.
pub mod Datagrams
pub mod Pool
pub mod Log
pub mod Hooks
use teltonika.Prelude.{
  ℕ, Bool, Option, some, none, List, [], ◌∷◌, ◌++◌, length, take, ◌==◌, if◌then◌else◌, Result, ok,
  err, panic, and_then,
}
use teltonika.Packet.{Packet, Float64, DecodedUdp, DecodeConfig, on_read_buffer}
use teltonika.IoElements.{Text}
use teltonika.Transport.Udp.{decode_udp_from_slice}

-- A datagram: its sender, and what it holds.
pub record Datagram : Type 0 where
  pub addr : ℕ
  pub bytes : List ℕ

-- What a handler does: a response to an address, and a packet for the hook.
pub data Event (F : Type 0) : Type 0 where
  wrote : ℕ → List ℕ → Event F
  on_packet : Text → Packet F → Event F

abbrev pub decode_config : DecodeConfig
decode_config = record { io_elements_alloc = on_read_buffer }

-- The loop of `Run`: ReadFromUDP takes at most as much as its buffer holds.
unfoldable pub received : Datagram → Datagram
received d = record { addr = d.addr; bytes = take 1300 d.bytes }

module _ {F : Type 0} where
  -- Whether WriteToUDP succeeds is the first argument.
  unfoldable pub respond : Bool → ℕ → DecodedUdp F → List (Event F)
  respond writable addr res =
      if length res.response == 0
      then on_packet res.imei res.packet ∷ []
      else if writable
      then wrote addr res.response ∷ on_packet res.imei res.packet ∷ []
      else []

  -- An error ends the handler; a panic ends the program.
  unfoldable pub decoded : Bool → ℕ → Result (ℕ × DecodedUdp F) → Result (List (Event F))
  decoded writable addr (ok (read, res)) = ok (respond writable addr res)
  decoded writable addr (err e) = ok []
  decoded writable addr panic = panic

  module _ ⦃fl : Float64 F⦄ where
    unfoldable pub handle_connection : Bool → Datagram → Result (List (Event F))
    handle_connection writable d =
        decoded writable d.addr (decode_udp_from_slice (some d.bytes) (some decode_config ∷ []))
