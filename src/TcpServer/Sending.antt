-- ===== src/TcpServer/Sending.antt =====
-- simple-tcp-server: calls of `SendPacket` that run beside the handlers, as a step relation on the
-- registry and the calls. A call loads the client of its IMEI, encodes its packet and writes it;
-- handlers may do anything in between.
pub mod Targets
use teltonika.Prelude.{ℕ, ◌≡◌, Option, none, some, List, Error, client_not_found, ok, err, update}
use teltonika.Packet.{Packet, Float64}
use teltonika.IoElements.{Text}
use teltonika.TcpServer.{send_packet}
use teltonika.TcpServer.System

-- Where a call is: before Load; behind Load, which found a client; behind Write, with the
-- connection and the bytes that were written; and returned with an error. An error of Write has no
-- more than that it is one.
pub data Call : Type 0 where
  ready : Call
  holding : ℕ → Call
  wrote : ℕ → List ℕ → Call
  failed : Option Error → Call

pub record Sends : Type 0 where
  pub system : System.System
  pub call : ℕ → Call

unfoldable pub init : Sends
init = record { system = System.init; call = λ c. ready }

-- The IMEI and the packet of each call.
module _ {F : Type 0} ⦃fl : Float64 F⦄ (imei_of : ℕ → Text) (packet_of : ℕ → Packet F) where
  pub data Step (s : Sends) : Sends → Type 0 where
    -- A handler goes on.
    moves : {t : System.System} → System.Step s.system t → Step s (record s { system = t })
    -- Load finds a client.
    loads :
        (c n : ℕ)
        → s.call c ≡ ready
        → s.system.clients (imei_of c) ≡ some n
        → Step s (record s { call = update c (holding n) s.call })
    -- Load finds none.
    misses :
        (c : ℕ)
        → s.call c ≡ ready
        → s.system.clients (imei_of c) ≡ none
        → Step s (record s { call = update c (failed (some client_not_found)) s.call })
    -- The packet is encoded, and Write writes it.
    writes :
        (c n : ℕ) (bytes : List ℕ)
        → s.call c ≡ holding n
        → send_packet (some n) (packet_of c) ≡ ok (n, bytes)
        → Step s (record s { call = update c (wrote n bytes) s.call })
    -- The packet cannot be encoded.
    rejects :
        (c n : ℕ) (e : Error)
        → s.call c ≡ holding n
        → send_packet (some n) (packet_of c) ≡ err e
        → Step s (record s { call = update c (failed (some e)) s.call })
    -- Write fails, as it does on a closed connection.
    breaks :
        (c n : ℕ)
        → s.call c ≡ holding n
        → Step s (record s { call = update c (failed none) s.call })

  pub data Reach : Sends → Type 0 where
    start : Reach init
    later : {s t : Sends} → Reach s → Step s t → Reach t
