-- ===== src/TcpServer/System/Handlers.antt =====
-- simple-tcp-server: what `handleConnection` does to the registry is a path of the step relation.
use teltonika.Prelude.{
  ℕ, ◌<◌, ◌≡◌, refl, sym, ap, ◌∙◌, arith, false, Option, none, some, List, [], ◌∷◌, ◌++◌,
  append-nil, length, All, ◌==◌, update, update_same,
}
use teltonika.Packet.{Float64}
use teltonika.IoElements.{Text}
use teltonika.Transport.Stream.{Reader}
use teltonika.TcpServer.{Clients, delete_client, register, unregister}
use teltonika.TcpServer.Session.{
  Conn, Event, on_connect, registers, wrote, on_packet, on_close, deletes, closes, Next, next,
  stopped, crashed, handle_connection,
}
use teltonika.TcpServer.Session.Protocol.{
  IsService, IsSession, refused, running, over, handle_connection-IsSession,
}
use teltonika.TcpServer.System.{
  Phase, connecting, replacing, serving, ended, System, Step, stores, loads, replaces, ends,
  refuses,
}

-- Steps in a row.
pub data Steps (s : System) : System → Type 0 where
  here : Steps s s
  more : {t u : System} → Steps s t → Step t u → Steps s u

module _ {F : Type 0} where
  -- The registry after the events of the handler of connection `n`, if no other handler runs.
  unfoldable pub run_event : ℕ → Event F → Clients → Clients
  run_event n (registers imei) clients = (register imei n clients).0
  run_event n (deletes imei) clients = unregister imei clients
  run_event n _ clients = clients

  unfoldable pub run_events : ℕ → List (Event F) → Clients → Clients
  run_events n [] clients = clients
  run_events n (e ∷ es) clients = run_events n es (run_event n e clients)

  run_events-services :
      (n : ℕ) (imei : Text) (es rest : List (Event F)) (clients : Clients)
      → All (IsService imei) es
      → run_events n (es ++ rest) clients ≡ run_events n rest clients
  unfolding run_events run_event
  run_events-services n imei [] rest clients h = refl
  run_events-services n imei (wrote bytes ∷ es) rest clients (h, hs) =
      run_events-services n imei es rest clients hs
  run_events-services n imei (on_packet i p ∷ es) rest clients (h, hs) =
      run_events-services n imei es rest clients hs
  run_events-services n imei (on_connect i ∷ es) rest clients (h, hs) = elim h [ ]
  run_events-services n imei (registers i ∷ es) rest clients (h, hs) = elim h [ ]
  run_events-services n imei (on_close i ∷ es) rest clients (h, hs) = elim h [ ]
  run_events-services n imei (deletes i ∷ es) rest clients (h, hs) = elim h [ ]
  run_events-services n imei (closes ∷ es) rest clients (h, hs) = elim h [ ]

-- A handler that registers, alone.
record Registered (n : ℕ) (imei : Text) (s : System) : Type 0 where
  system : System
  steps : Steps s system
  clients : system.clients ≡ (register imei n s.clients).0
  phase : system.phase n ≡ serving imei

registers-Registered :
    (n : ℕ) (imei : Text) (s : System)
    → s.phase n ≡ connecting
    → 0 < length imei
    → Registered n imei s
unfolding register
registers-Registered n imei s e h = go (s.clients imei) refl
  where
    go : (o : Option ℕ) → s.clients imei ≡ o → Registered n imei s
    go none free = record {
      system = _;
      steps = more here (stores n imei e h free);
      clients = rw (free, register) refl;
      phase = update_same n (serving imei) s.phase;
    }
    go (some other) taken = record {
      system = _;
      steps =
          more (more here (loads n other imei e h taken))
            (replaces n imei (update_same n (replacing imei) s.phase));
      clients = rw (taken, register) refl;
      phase = update_same n (serving imei) (update n (replacing imei) s.phase);
    }

-- Where a handler is that returned, or goes on.
abbrev pub IsAt : {S : Type 0} → Next S → Phase → Type 0
IsAt stopped p = p ≡ ended
IsAt crashed p = ⊥
IsAt (next s) p = (imei : Text) × (p ≡ serving imei)

-- A path of steps that does to the registry what the events do, and leads where the handler is.
pub record Follows {F : Type 0} {S : Type 0} (n : ℕ) (s : System) (r : List (Event F) × Next S)
    : Type 0 where
  pub system : System
  pub steps : Steps s system
  pub clients : system.clients ≡ run_events n r.0 s.clients
  pub phase : IsAt r.1 (system.phase n)

module _ {F : Type 0} {S : Type 0} where
  IsSession-Follows :
      (n : ℕ) (s : System) (r : List (Event F) × Next S)
      → IsSession r
      → s.phase n ≡ connecting
      → Follows n s r
  unfolding run_events run_event unregister
  IsSession-Follows n s _ refused e = record {
    system = _;
    steps = more here (refuses n e);
    clients = refl;
    phase = update_same n ended s.phase;
  }
  IsSession-Follows n s _ (running imei es t some_imei services) e =
      let g = registers-Registered n imei s e some_imei in
      let quiet =
        rw (append-nil es) at
          (run_events-services n imei es [] (register imei n s.clients).0 services) in
      record {
        system = g.system;
        steps = g.steps;
        clients = g.clients ∙ sym quiet;
        phase = (imei, g.phase);
      }
  IsSession-Follows n s _ (over imei es some_imei services) e =
      let g = registers-Registered n imei s e some_imei in
      let last = on_close imei ∷ deletes imei ∷ closes ∷ [] in
      let quiet = run_events-services n imei es last (register imei n s.clients).0 services in
      let named : (length imei == 0) ≡ false = ground arith in
      record {
        system = _;
        steps = more g.steps (ends n imei g.phase);
        clients = ap (delete_client imei) g.clients ∙ sym (quiet ∙ rw named refl);
        phase = update_same n ended g.system.phase;
      }

module _ (F : Type 0) ⦃fl : Float64 F⦄ {S : Type 0} ⦃rd : Reader S⦄ ⦃cn : Conn S⦄ where
  -- Whatever a connection delivers, what its handler did after any number of rounds is a path of
  -- steps of the system, for a handler that is connecting, in any state of the registry: the path
  -- does to the registry what the handler's calls do, and leads to where the handler is.
  pub handle_connection-Follows :
      (n : ℕ) (s : System) (rounds : ℕ) (connection : S)
      → s.phase n ≡ connecting
      → Follows n s (handle_connection {F = F} rounds connection)
  handle_connection-Follows n s rounds connection e =
      IsSession-Follows n s _ (handle_connection-IsSession rounds connection) e
