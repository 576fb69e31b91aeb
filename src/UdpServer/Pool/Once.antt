-- ===== src/UdpServer/Pool/Once.antt =====
-- simple-udp-server: the workers handle each datagram once, and lose none.
use teltonika.Prelude.{
  ℕ, ◌<◌, ◌≡◌, sym, ◌∙◌, arith, inl, inr, none, some, List, [], length, Option-cases,
}
use teltonika.Packet.{Float64}
use teltonika.UdpServer.{Event}
use teltonika.UdpServer.Pool.{
  Job, Pool, init, Step, reads, sends, takes, handles, Reach, start, later,
}
use teltonika.UdpServer.Pool.Line.{Carries, IsOrderly, Reach-IsOrderly}
use teltonika.UdpServer.Pool.Work.{
  IsHandled, IsWorking, reads-IsWorking, takes-IsWorking, handles-IsWorking,
}

module _ (worker_count : ℕ) {F : Type 0} ⦃fl : Float64 F⦄ where
  Step-IsWorking :
      {s t : Pool F} → Step worker_count s t → IsOrderly worker_count s → IsWorking s → IsWorking t
  Step-IsWorking {s} (reads d free) o v = reads-IsWorking s _ d v
  Step-IsWorking {s} (sends j full room) o v = record {
    busy = v.busy;
    apart = v.apart;
    done = v.done;
    served = v.served;
  }
  Step-IsWorking {s} (takes w j rest known free first) o v =
      let (number, c, _) = rw first at o.line in
      takes-IsWorking s w j rest number c
        (elim (Option-cases (s.outcome j.number)) [
          | inl fresh ↦ fresh
          | inr (es, handled) ↦
              let (low, _) = v.done j.number es handled in absurd (omega (arith, number))
        ])
        free v
  Step-IsWorking {s} (handles w j writable es at_work e) o v =
      let (_, c, _) = v.busy w j at_work in
      handles-IsWorking s w j es at_work
        (record {
          origin = c.origin;
          writable = writable;
          found = c.found;
          handled = rw (← c.content) e;
        })
        v

  pub Reach-IsWorking : {s : Pool F} → Reach worker_count s → IsWorking s
  unfolding init
  Reach-IsWorking start = record {
    busy = λ w j e. absurd (cc e);
    apart = λ w v j k e. absurd (cc e);
    done = λ n es e. absurd (cc e);
    served = λ n h. absurd (omega arith);
  }
  Reach-IsWorking (later r st) =
      Step-IsWorking st (Reach-IsOrderly worker_count r) (Reach-IsWorking r)

  -- In every reachable state a datagram is at one worker at most, and a worker has it as it was
  -- received and before it was handled: no datagram is handled twice.
  pub Reach-once :
      (s : Pool F) (w v : ℕ) (j k : Job)
      → Reach worker_count s
      → s.worker w ≡ some j
      → s.worker v ≡ some k
      → j.number ≡ k.number
      → (w ≡ v) × (s.outcome j.number ≡ none) × Carries s.arrived j
  Reach-once s w v j k r e f same =
      let inv = Reach-IsWorking r in
      let (_, c, fresh) = inv.busy w j e in (inv.apart w v j k e f same, fresh, c)

  -- In every reachable state in which nothing waits and no worker has a job, each datagram that
  -- arrived was handled, with the outcome of its own handler.
  pub Reach-idle :
      (s : Pool F) (n : ℕ)
      → Reach worker_count s
      → s.reader ≡ none
      → s.jobs ≡ []
      → ((w : ℕ) → s.worker w ≡ none)
      → n < length s.arrived
      → (es : List (Event F)) × (s.outcome n ≡ some es) × IsHandled s.arrived n es
  Reach-idle s n r free empty idle h =
      let inv = Reach-IsWorking r in
      let o = Reach-IsOrderly worker_count r in
      let all : s.taken ≡ length s.arrived = rw (empty, free) at o.line in
      elim (inv.served n (omega arith)) [
        | inl (es, e) ↦ let (_, handled) = inv.done n es e in (es, e, handled)
        | inr (w, j, e, _) ↦ absurd (cc (sym (idle w) ∙ e))
      ]
