-- ===== src/TcpServer/Sending/Targets.antt =====
-- simple-tcp-server: which connections `SendPacket` writes to, in any interleaving with the handlers.
use teltonika.Prelude.{ℕ, ◌≡◌, ◌⊎◌, refl, inl, inr, some, List, ok, update, update-cases}
use teltonika.Packet.{Packet, Float64}
use teltonika.IoElements.{Text}
use teltonika.TcpServer.{send_packet}
use teltonika.TcpServer.System
use teltonika.TcpServer.System.{
  connecting, replacing, serving, ended, Phase, stores, loads, replaces, ends, refuses,
}
use teltonika.TcpServer.System.Invariant.{Reach-Inv}
use teltonika.TcpServer.Sending
use teltonika.TcpServer.Sending.{
  Call, ready, holding, wrote, failed, Sends, init, moves, misses, writes, rejects, breaks, start,
  later,
}

-- The steps of handlers from one state to another.
pub data Steps (s : System.System) : System.System → Type 0 where
  here : Steps s s
  further : {t u : System.System} → Steps s t → System.Step t u → Steps s u

-- A handler that serves an IMEI goes on to serve it, or it has ended.
abbrev IsLater : Text → Phase → Type 0
IsLater imei p = (p ≡ serving imei) ⊎ (p ≡ ended)

-- A step of handler `k` from another phase does not concern this one.
IsLater-update :
    (imei : Text) (n k : ℕ) (p q : Phase) (phase : ℕ → Phase)
    → phase k ≡ q
    → (IsLater imei q → IsLater imei p)
    → IsLater imei (phase n)
    → IsLater imei (update k p phase n)
IsLater-update imei n k p q phase e next h = elim (update-cases k p phase n) [
  | inl (n_k, now) ↦ rw now (next (rw (n_k, e) at h))
  | inr same ↦ rw same h
]

-- Handlers in these phases do not serve yet.
connecting-IsLater : (imei : Text) (p : Phase) → IsLater imei connecting → IsLater imei p
connecting-IsLater imei p (inl e) = absurd (cc e)
connecting-IsLater imei p (inr e) = absurd (cc e)

replacing-IsLater : (imei i : Text) (p : Phase) → IsLater imei (replacing i) → IsLater imei p
replacing-IsLater imei i p (inl e) = absurd (cc e)
replacing-IsLater imei i p (inr e) = absurd (cc e)

Step-IsLater :
    (imei : Text) (n : ℕ) {s t : System.System}
    → System.Step s t
    → IsLater imei (s.phase n)
    → IsLater imei (t.phase n)
Step-IsLater imei n {s} (stores k i e _ _) h =
    IsLater-update imei n k (serving i) connecting s.phase e (connecting-IsLater imei _) h
Step-IsLater imei n {s} (loads k other i e _ _) h =
    IsLater-update imei n k (replacing i) connecting s.phase e (connecting-IsLater imei _) h
Step-IsLater imei n {s} (replaces k i e) h =
    IsLater-update imei n k (serving i) (replacing i) s.phase e (replacing-IsLater imei i _) h
Step-IsLater imei n {s} (ends k i e) h =
    IsLater-update imei n k ended (serving i) s.phase e (λ x. inr refl) h
Step-IsLater imei n {s} (refuses k e) h =
    IsLater-update imei n k ended connecting s.phase e (λ x. inr refl) h

-- The connection was registered under the IMEI in a state that was reached before, in which its
-- handler served the IMEI; since then the handler has gone on to, or it has ended.
pub record WasClient (imei : Text) (n : ℕ) (s : System.System) : Type 0 where
  pub state : System.System
  pub reached : System.Reach state
  pub registered : state.clients imei ≡ some n
  pub served : state.phase n ≡ serving imei
  pub since : Steps state s
  pub now : IsLater imei (s.phase n)

module _ {F : Type 0} ⦃fl : Float64 F⦄ (imei_of : ℕ → Text) (packet_of : ℕ → Packet F) where
  abbrev IsAimed : System.System → ℕ → Call → Type 0
  IsAimed s c (holding n) = WasClient (imei_of c) n s
  IsAimed s c (wrote n bytes) =
      WasClient (imei_of c) n s × (send_packet (some n) (packet_of c) ≡ ok (n, bytes))
  IsAimed s c _ = Unit {0}

  WasClient-moved :
      (imei : Text) (n : ℕ) {s t : System.System}
      → System.Step s t
      → WasClient imei n s
      → WasClient imei n t
  WasClient-moved imei n st w = record {
    state = w.state;
    reached = w.reached;
    registered = w.registered;
    served = w.served;
    since = further w.since st;
    now = Step-IsLater imei n st w.now;
  }

  IsAimed-moved :
      {s t : System.System} → System.Step s t → (c : ℕ) (a : Call) → IsAimed s c a → IsAimed t c a
  IsAimed-moved st c ready h = tt
  IsAimed-moved st c (holding n) h = WasClient-moved (imei_of c) n st h
  IsAimed-moved st c (wrote n bytes) (h, e) = (WasClient-moved (imei_of c) n st h, e)
  IsAimed-moved st c (failed e) h = tt

  -- The calls, and that the handlers reached their state.
  record Aimed (s : Sends) : Type 0 where
    system : System.Reach s.system
    calls : (c : ℕ) → IsAimed s.system c (s.call c)

  changed :
      (s : Sends) (c : ℕ) (a : Call)
      → IsAimed s.system c a
      → Aimed s
      → Aimed (record s { call = update c a s.call })
  changed s c a h v = record {
    system = v.system;
    calls = λ k. elim (update-cases c a s.call k) [
      | inl (k_c, now) ↦ rw (now, k_c) h
      | inr same ↦ rw same (v.calls k)
    ];
  }

  Step-Aimed : {s t : Sends} → Sending.Step imei_of packet_of s t → Aimed s → Aimed t
  Step-Aimed {s} (moves st) v = record {
    system = System.later v.system st;
    calls = λ c. IsAimed-moved st c (s.call c) (v.calls c);
  }
  Step-Aimed {s} (Sending.loads c n e found) v =
      let served = Reach-Inv v.system (imei_of c) n found in
      changed s c (holding n)
        (record {
          state = s.system;
          reached = v.system;
          registered = found;
          served = served;
          since = here;
          now = inl served;
        })
        v
  Step-Aimed {s} (misses c e none_) v = changed s c _ tt v
  Step-Aimed {s} (writes c n bytes e encoded) v =
      changed s c (wrote n bytes) (rw e at (v.calls c), encoded) v
  Step-Aimed {s} (rejects c n x e bad) v = changed s c _ tt v
  Step-Aimed {s} (breaks c n e) v = changed s c _ tt v

  Reach-Aimed : {s : Sends} → Sending.Reach imei_of packet_of s → Aimed s
  unfolding init
  Reach-Aimed start = record { system = System.start; calls = λ c. tt }
  Reach-Aimed (later r st) = Step-Aimed st (Reach-Aimed r)

  -- However handlers and calls of `SendPacket` interleave, a call writes the encoding of its packet,
  -- and to a connection that was registered under its IMEI at a moment before, when the
  -- connection's handler served that IMEI. By now the handler may have ended, but it never serves
  -- another IMEI.
  pub send_packet-Reach :
      (s : Sends) (c n : ℕ) (bytes : List ℕ)
      → Sending.Reach imei_of packet_of s
      → s.call c ≡ wrote n bytes
      → WasClient (imei_of c) n s.system × (send_packet (some n) (packet_of c) ≡ ok (n, bytes))
  send_packet-Reach s c n bytes r e = rw e at ((Reach-Aimed r).calls c)
