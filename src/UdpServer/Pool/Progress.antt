-- ===== src/UdpServer/Pool/Progress.antt =====
-- simple-udp-server: the workers take what waits, and which datagrams end the program.
use teltonika.Prelude.{
  ℕ, ◌<◌, ◌≡◌, ◌⊎◌, refl, arith, inl, inr, Bool, true, none, List, [], ◌∷◌, ◌++◌, length, Result,
  ok, err, panic, Option-cases,
}
use teltonika.Packet.{Float64, DecodedUdp}
use teltonika.UdpServer.{Datagram, Event, respond, decoded, handle_connection}
use teltonika.UdpServer.Pool.{Job, Pool, Step, sends, takes, handles, Crashes}
use teltonika.UdpServer.Pool.Line.{held, waiting}

module _ {F : Type 0} ⦃fl : Float64 F⦄ where
  -- A handler returns without an error value, or it panics.
  decoded-cases :
      (writable : Bool) (addr : ℕ) (m : Result (ℕ × DecodedUdp F))
      → ((es : List (Event F)) × (decoded writable addr m ≡ ok es))
        ⊎ (decoded writable addr m ≡ panic)
  unfolding decoded
  decoded-cases writable addr (ok (read, res)) = inl (respond writable addr res, refl)
  decoded-cases writable addr (err e) = inl ([], refl)
  decoded-cases writable addr panic = inr refl

  handle_connection-cases :
      (writable : Bool) (d : Datagram)
      → ((es : List (Event F)) × (handle_connection writable d ≡ ok es))
        ⊎ (handle_connection {F = F} writable d ≡ panic)
  unfolding handle_connection
  handle_connection-cases writable d = decoded-cases writable d.addr _

module _ (worker_count : ℕ) {F : Type 0} ⦃fl : Float64 F⦄ where
  -- A step of the first worker, or of the loop while the worker has nothing to do.
  Goes : Pool F → Type 0
  Goes s = ((t : Pool F) × Step worker_count s t × (t.arrived ≡ s.arrived)) ⊎ Crashes worker_count s

  idle-proceeds :
      (s : Pool F) (jobs : List Job)
      → 0 < worker_count
      → s.worker 0 ≡ none
      → s.jobs ≡ jobs
      → 0 < length (jobs ++ held s.reader)
      → Goes s
  unfolding Goes
  idle-proceeds s (j ∷ rest) some_worker free first h =
      inl (_, takes 0 j rest some_worker free first, refl)
  idle-proceeds s [] some_worker free empty h = elim (Option-cases s.reader) [
    | inl nothing ↦ absurd (omega (arith, rw nothing at h))
    | inr (j, full) ↦
        let room : length s.jobs < worker_count = rw empty some_worker in
        inl (_, sends j full room, refl)
  ]

  -- While a datagram waits and there is a worker at all, the server can go on without another
  -- datagram, or a handler is about to panic: it does not get stuck.
  pub waiting-proceeds :
      (s : Pool F)
      → 0 < worker_count
      → 0 < length (waiting s)
      → ((t : Pool F) × Step worker_count s t × (t.arrived ≡ s.arrived)) ⊎ Crashes worker_count s
  unfolding Goes
  waiting-proceeds s some_worker h = elim (Option-cases (s.worker 0)) [
    | inl free ↦ idle-proceeds s s.jobs some_worker free refl h
    | inr (j, busy) ↦ elim (handle_connection-cases {F = F} true j.datagram) [
      | inl (es, done) ↦ inl (_, handles 0 j true es busy done, refl)
      | inr panics ↦ inr (record { by = 0; job = j; writable = true; busy = busy; panics = panics })
    ]
  ]
