-- ===== src/TcpServer/Registry.antt =====
-- simple-tcp-server: whom `SendPacket` reaches after clients came and went.
use teltonika.Prelude.{
  ℕ, ◌<◌, ◌≡◌, refl, arith, false, Option, none, some, length, ◌==◌, ok, err, client_not_found,
}
use teltonika.Packet.{Packet, Float64}
use teltonika.IoElements.{Text}
use teltonika.IoElements.Lookup.{same_text_refl}
use teltonika.Transport.Tcp.{encode_packet_tcp}
use teltonika.Transport.Encoding.{encode_tcp_internal-tcp_code}
use teltonika.Transport.Format.{tcp_code}
use teltonika.TcpServer.{Clients, store_client, delete_client, register, unregister, send_packet}
use teltonika.Wire.{IsPacket}

-- Either way of registering stores the new client.
register_lem :
    (imei : Text) (client : ℕ) (clients : Clients)
    → (register imei client clients).0 imei ≡ some client
unfolding register store_client
register_lem imei client clients = go (clients imei)
  where
    go :
        (found : Option ℕ)
        → (elim found as (λ x. Clients × Option ℕ) [
          | none ↦ (store_client imei client clients, none)
          | some other ↦ (store_client imei client clients, some other)
        ]).0
            imei
          ≡ some client
    go none = rw (same_text_refl imei)
    go (some other) = rw (same_text_refl imei)

-- The connection of a client that is registered already is closed.
register_closes :
    (imei : Text) (old new : ℕ) (clients : Clients)
    → clients imei ≡ some old
    → (register imei new clients).1 ≡ some old
unfolding register
register_closes imei old new clients h = rw (h, register) refl

module _ {F : Type 0} ⦃fl : Float64 F⦄ where
  -- After a client registered, whoever was registered before, `SendPacket` to its IMEI writes the
  -- frame of a packet that fits the format to its connection.
  pub send_packet-register :
      (clients : Clients) (imei : Text) (client : ℕ) (p : Packet F)
      → IsPacket p
      → send_packet ((register imei client clients).0 imei) p ≡ ok (client, tcp_code p)
  unfolding send_packet encode_packet_tcp
  send_packet-register clients imei client p h =
      rw (register_lem imei client clients, encode_tcp_internal-tcp_code p h)

  -- If a device connects again before its old connection has ended, the new connection's
  -- registration closes the old one and SendPacket writes a packet that fits the format to the new
  -- one; but the end of the old connection then removes the new client: `SendPacket` finds no client,
  -- although the device is connected. This is so for any IMEI that is not empty and any other clients.
  pub send_packet-unregister_old :
      (clients : Clients) (imei : Text) (old new : ℕ) (p : Packet F)
      → 0 < length imei
      → IsPacket p
      → let first = (register imei old clients).0 in
        let second = register imei new first in
        (second.1 ≡ some old)
        × (send_packet (second.0 imei) p ≡ ok (new, tcp_code p))
        × (send_packet (unregister imei second.0 imei) p ≡ err client_not_found)
  unfolding send_packet unregister delete_client
  send_packet-unregister_old clients imei old new p h fits =
      let some_imei : (length imei == 0) ≡ false = ground arith in
      let first = (register imei old clients).0 in
      (
        register_closes imei old new first (register_lem imei old clients),
        send_packet-register first imei new p fits,
        rw (some_imei, same_text_refl imei) refl,
      )
