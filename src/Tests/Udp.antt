-- ===== src/Tests/Udp.antt =====
-- The theorems on the UDP server, at concrete datagrams.
use teltonika.Prelude.{
  Option, ℕ, ◌≡◌, ◌⊎◌, refl, arith, true, some, none, List, [], ◌∷◌, ◌++◌, ok, update,
}
use teltonika.Prelude.Int.{ℤ}
use teltonika.IoElements.{Text}
use teltonika.Transport.Format.{udp_code}
use teltonika.UdpServer.{Datagram, Event, received, handle_connection}
use teltonika.UdpServer.Pool.{
  Job, Pool, init, Step, reads, sends, takes, handles, Reach, start, later, Crashes,
}
use teltonika.UdpServer.Pool.Line.{Carries}
use teltonika.UdpServer.Pool.Work.{IsHandled}
use teltonika.UdpServer.Pool.Once.{Reach-once, Reach-idle}
use teltonika.UdpServer.Pool.Progress.{waiting-proceeds}
use teltonika.UdpServer.Datagrams.{answers, handle_connection-udp_code}
use teltonika.TcpServer.Hooks.{Point}
use teltonika.UdpServer.Hooks.Deliveries.{Sent}
use teltonika.Tests.Data.{fixed_point, tracked, tracked-IsPacket, length-tracked}

abbrev device : Text
device = b'3' ∷ b'5' ∷ b'2' ∷ []

abbrev good : Datagram
good = record { addr = 1; bytes = udp_code device 7 5 tracked ++ 0xca ∷ 0xfe ∷ [] }

abbrev bad : Datagram
bad = record { addr = 2; bytes = 0 ∷ 2 ∷ 0xca ∷ 0xfe ∷ 1 ∷ [] }

handle_connection-udp_code_example :
    handle_connection true (received good) ≡ ok (answers true 1 device 7 5 tracked)
handle_connection-udp_code_example =
    handle_connection-udp_code true 1 device 7 5 tracked (0xca ∷ 0xfe ∷ []) tracked-IsPacket
      (omega arith) (omega (arith, length-tracked))

-- A server with two workers, and one datagram on its way through it.
abbrev first_job : Datagram → Job
first_job d = record { number = 0; datagram = received d }

abbrev one_read : Datagram → Pool ℤ
one_read d = record {
  reader = some (first_job d);
  jobs = [];
  worker = λ w. none;
  arrived = d ∷ [];
  taken = 0;
  outcome = λ n. none;
}

abbrev one_taken : Datagram → Pool ℤ
one_taken d = record {
  reader = none;
  jobs = [];
  worker = update 1 (some (first_job d)) (λ w. none);
  arrived = d ∷ [];
  taken = 1;
  outcome = λ n. none;
}

abbrev one_done : Datagram → List (Event ℤ) → Pool ℤ
one_done d es = record {
  reader = none;
  jobs = [];
  worker = update 1 none (update 1 (some (first_job d)) (λ w. none));
  arrived = d ∷ [];
  taken = 1;
  outcome = update 0 (some es) (λ n. none);
}

one_read-Reach : (d : Datagram) → Reach 2 (one_read d)
unfolding init
one_read-Reach d = later start (reads d refl)

one_taken-Reach : (d : Datagram) → Reach 2 (one_taken d)
one_taken-Reach d =
    later (later (one_read-Reach d) (sends (first_job d) refl (omega arith)))
      (takes 1 (first_job d) [] (omega arith) refl refl)

one_done-Reach : Reach 2 (one_done good (answers true 1 device 7 5 tracked))
unfolding update
one_done-Reach = later (one_taken-Reach good) (
    handles 1 (first_job good) true (answers true 1 device 7 5 tracked) refl
      handle_connection-udp_code_example)

at_worker : (d : Datagram) → (one_taken d).worker 1 ≡ some (first_job d)
unfolding update
at_worker d = refl

all_idle : (w : ℕ) → (one_done good (answers true 1 device 7 5 tracked)).worker w ≡ none
unfolding update
all_idle w = ground arith

Reach-once_example :
    (◌≡◌ {A = ℕ} 1 1) × ((one_taken good).outcome 0 ≡ none) × Carries (good ∷ []) (first_job good)
Reach-once_example =
    Reach-once 2 (one_taken good) 1 1 (first_job good) (first_job good) (one_taken-Reach good)
      (at_worker good) (at_worker good) refl

Reach-idle_example :
    (es : List (Event ℤ)) × ((one_done good (answers true 1 device 7 5 tracked)).outcome 0
      ≡ some es)
    × IsHandled (good ∷ []) 0 es
Reach-idle_example =
    Reach-idle 2 (one_done good (answers true 1 device 7 5 tracked)) 0 one_done-Reach refl refl
      all_idle (omega arith)

waiting-proceeds_example :
    ((t : Pool ℤ) × Step 2 (one_read good) t × (t.arrived ≡ good ∷ [])) ⊎ Crashes 2 (one_read good)
waiting-proceeds_example = waiting-proceeds 2 (one_read good) (omega arith) (omega arith)

-- The datagram with its frame, a body that holds the IMEI alone, and a hook's address.
abbrev good_sent : Sent ℤ
good_sent = record {
  addr = 1;
  imei = device;
  packet_id = 7;
  avl_packet_id = 5;
  packet = tracked;
  rest = 0xca ∷ 0xfe ∷ [];
}

abbrev imei_body : Text → List (Point ℤ) → Option Text
imei_body imei points = some imei

abbrev done : Pool ℤ
done = one_done good (answers true 1 device 7 5 tracked)
