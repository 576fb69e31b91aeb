-- ===== src/TcpServer/System.antt =====
-- simple-tcp-server: handlers of many connections that run at the same time, as a step relation on
-- the registry of clients; a step is one call of the registry or a change of who runs.
pub mod Invariant
pub mod Handlers
use teltonika.Prelude.{ℕ, ◌<◌, ◌≡◌, Option, none, some, length, update}
use teltonika.IoElements.{Text}
use teltonika.TcpServer.{Clients, store_client, delete_client}

-- Where a handler is: before LoadOrStore; between LoadOrStore, which found another client, and
-- Store; behind them; and behind the Delete of its deferred function.
pub data Phase : Type 0 where
  connecting : Phase
  replacing : Text → Phase
  serving : Text → Phase
  ended : Phase

-- A connection has a number, which is not used again.
pub record System : Type 0 where
  pub clients : Clients
  pub phase : ℕ → Phase

-- `NewTCPServerLogger` makes an empty map.
unfoldable pub no_clients : Clients
no_clients imei = none

unfoldable pub init : System
init = record { clients = no_clients; phase = λ n. connecting }

pub data Step (s : System) : System → Type 0 where
  -- LoadOrStore finds no client, and stores this one.
  stores :
      (n : ℕ) (imei : Text)
      → s.phase n ≡ connecting
      → 0 < length imei
      → s.clients imei ≡ none
      → Step s (record {
        clients = store_client imei n s.clients;
        phase = update n (serving imei) s.phase;
      })
  -- LoadOrStore finds another client, whose connection is closed.
  loads :
      (n other : ℕ) (imei : Text)
      → s.phase n ≡ connecting
      → 0 < length imei
      → s.clients imei ≡ some other
      → Step s (record { clients = s.clients; phase = update n (replacing imei) s.phase })
  -- Store, whatever happened in between.
  replaces :
      (n : ℕ) (imei : Text)
      → s.phase n ≡ replacing imei
      → Step s (record {
        clients = store_client imei n s.clients;
        phase = update n (serving imei) s.phase;
      })
  -- The deferred function.
  ends :
      (n : ℕ) (imei : Text)
      → s.phase n ≡ serving imei
      → Step s (record { clients = delete_client imei s.clients; phase = update n ended s.phase })
  -- A handler returns before it has an IMEI.
  refuses :
      (n : ℕ)
      → s.phase n ≡ connecting
      → Step s (record { clients = s.clients; phase = update n ended s.phase })

pub data Reach : System → Type 0 where
  start : Reach init
  later : {s t : System} → Reach s → Step s t → Reach t
