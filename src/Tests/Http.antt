-- ===== src/Tests/Http.antt =====
-- The theorems on the HTTP server, at concrete requests.
use teltonika.Prelude.{ℕ, ◌≡◌, refl, arith, none, some, [], ◌∷◌, ok, false, update}
use teltonika.Prelude.Int.{ℤ}
use teltonika.IoElements.{Text, same_text}
use teltonika.Transport.Format.{tcp_code}
use teltonika.TcpServer.{Clients, register, send_packet}
use teltonika.HttpServer.{command_packet, answer_of}
use teltonika.HttpServer.Commands.{command_with, send_packet-command_packet}
use teltonika.HttpServer.Hub.{
  store_channel, Hub, Letter, sending, awaiting, answering, carrying, idle, panicked, init, Reach,
  start, later, takes, sends, loads, delivers, receives,
}
use teltonika.HttpServer.Hub.Exclusion.{Reach-exclusive}
use teltonika.HttpServer.Hub.Origin.{IsFrom, Reach-IsFrom}
use teltonika.HttpServer.Hub.Panic.{Reach-panicked}
use teltonika.Tests.Data.{fixed_point, getinfo_message, Pieces, piecewise}

abbrev device : Text
device = b'3' ∷ b'5' ∷ b'2' ∷ []

abbrev nobody : Clients
nobody key = none

-- A body of which one Read delivers five bytes at most.
abbrev body : Pieces
body = record { bytes = b'g' ∷ b'e' ∷ b't' ∷ b'v' ∷ b'e' ∷ b'r' ∷ [] }

abbrev cut_command : Text
cut_command = b'g' ∷ b'e' ∷ b't' ∷ b'v' ∷ b'e' ∷ []

send_packet-command_packet_example :
    send_packet {F = ℤ} ((register device 7 nobody).0 device) (command_packet (λ t. t) body)
    ≡ ok (7, tcp_code (command_with ℤ cut_command))
send_packet-command_packet_example =
    send_packet-command_packet ℤ (λ t. t) nobody device 7 body (λ t. omega arith)

-- All requests are for one device, and all callers handle its connections.
abbrev one_device : ℕ → Text
one_device n = device

abbrev asked : Hub
asked = record init {
  slots = store_channel device 0 init.slots;
  request = update 0 sending init.request;
}

abbrev sent : Hub
sent = record asked { request = update 0 awaiting asked.request }

abbrev loaded : Hub
loaded = record sent { caller = update 4 (carrying (some getinfo_message) 0) sent.caller }

abbrev letter : Letter
letter = record { sender = 4; content = some getinfo_message }

abbrev delivered : Hub
delivered = record loaded {
  caller = update 4 idle loaded.caller;
  channel = update 0 (record { buffer = some letter; closed = false }) loaded.channel;
}

abbrev replied : Hub
replied = record delivered {
  request = update 0 (answering (answer_of (some getinfo_message)) (some letter)) delivered.request;
  channel =
      update 0 (record { buffer = none; closed = (delivered.channel 0).closed }) delivered.channel;
}

sent-Reach : Reach one_device one_device sent
unfolding init update
sent-Reach = later (later start (takes 0 refl refl)) (sends 0 refl)

delivered-Reach : Reach one_device one_device delivered
unfolding init update store_channel same_text
delivered-Reach =
    later (later sent-Reach (loads 4 0 (some getinfo_message) refl refl))
      (delivers 4 0 (some getinfo_message) refl refl)

replied-Reach : Reach one_device one_device replied
unfolding init update
replied-Reach = later delivered-Reach (receives 0 letter refl refl)

Reach-exclusive_example : ◌≡◌ {A = ℕ} 0 0
unfolding init update
Reach-exclusive_example = Reach-exclusive one_device one_device sent 0 0 sent-Reach tt tt refl

Reach-IsFrom_example :
    IsFrom one_device one_device replied-Reach 0 getinfo_message.text (some letter)
unfolding init update answer_of
Reach-IsFrom_example =
    Reach-IsFrom one_device one_device replied 0 getinfo_message.text (some letter) replied-Reach
      refl

Reach-panicked_example : (s : Hub) × Reach one_device one_device s × (s.caller 4 ≡ panicked)
Reach-panicked_example = Reach-panicked one_device one_device 0 4 none refl
