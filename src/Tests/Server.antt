-- ===== src/Tests/Server.antt =====
-- The theorems on the registry of clients, at concrete clients.
use teltonika.Prelude.{◌≡◌, arith, none, some, [], ◌∷◌, ok, err, client_not_found}
use teltonika.IoElements.{Text}
use teltonika.Transport.Format.{tcp_code}
use teltonika.TcpServer.{Clients, register, unregister, send_packet}
use teltonika.TcpServer.Registry.{send_packet-unregister_old}
use teltonika.Tests.Data.{fixed_point, getinfo, getinfo-IsPacket}

abbrev nobody : Clients
nobody key = none

abbrev device : Text
device = b'3' ∷ b'5' ∷ []

abbrev once : Clients
once = (register device 7 nobody).0

abbrev twice : Clients
twice = (register device 8 once).0

send_packet-unregister_old_example :
    ((register device 8 once).1 ≡ some 7)
    × (send_packet (twice device) getinfo ≡ ok (8, tcp_code getinfo))
    × (send_packet (unregister device twice device) getinfo ≡ err client_not_found)
send_packet-unregister_old_example =
    send_packet-unregister_old nobody device 7 8 getinfo (omega arith) getinfo-IsPacket
