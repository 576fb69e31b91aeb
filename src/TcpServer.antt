-- ===== src/TcpServer.antt =====
-- examples/simple-tcp-server/main.go: the registry of connected clients, by IMEI number.
pub mod Registry
pub mod Session
pub mod System
pub mod Sending
pub mod Hooks
use teltonika.Prelude.{
  ℕ, Bool, Option, none, some, List, [], length, ◌==◌, if◌then◌else◌, Result, ok, err, and_then,
  client_not_found,
}
use teltonika.Packet.{Packet, Float64}
use teltonika.IoElements.{Text, same_text}
use teltonika.Transport.Tcp.{encode_packet_tcp}

-- `clients *sync.Map`, as the function of its lookups. A client is the number of its connection.
abbrev pub Clients : Type 0
Clients = Text → Option ℕ

unfoldable pub store_client : Text → ℕ → Clients → Clients
store_client imei client clients key = if same_text key imei then some client else clients key

unfoldable pub delete_client : Text → Clients → Clients
delete_client imei clients key = if same_text key imei then none else clients key

-- `LoadOrStore`, and what follows if there was a client already: its connection, which is in the
-- result, is closed, and the new client is stored over it.
unfoldable pub register : Text → ℕ → Clients → Clients × Option ℕ
register imei client clients = elim (clients imei) [
  | none ↦ (store_client imei client clients, none)
  | some other_client ↦ (store_client imei client clients, some other_client)
]

-- The deferred function of `handleConnection`, which runs when a connection ends.
unfoldable pub unregister : Text → Clients → Clients
unregister imei clients = if length imei == 0 then clients else delete_client imei clients

-- `SendPacket` behind its Load of the IMEI, by what that found: the connection that is written to,
-- and the bytes. Other calls may come in between; TcpServer/Sending has it in steps.
module _ {F : Type 0} ⦃fl : Float64 F⦄ where
  unfoldable pub send_packet : Option ℕ → Packet F → Result (ℕ × List ℕ)
  send_packet none packet = err client_not_found
  send_packet (some client) packet = and_then (encode_packet_tcp packet) (λ buf. ok (client, buf))
