-- ===== src/UdpServer/Pool.antt =====
-- simple-udp-server: `Run`, the loop that reads datagrams and the workers that take them from a
-- channel, as a step relation.
pub mod Line
pub mod Work
pub mod Once
pub mod Progress
use teltonika.Prelude.{
  ℕ, zero, suc, ◌+◌, ◌<◌, ◌≡◌, Bool, Option, none, some, List, [], ◌∷◌, ◌++◌, length, ok, panic,
  update,
}
use teltonika.Packet.{Float64}
use teltonika.UdpServer.{Datagram, Event, received, handle_connection}

-- `job`. The number, which counts the datagrams, is for the proofs.
pub record Job : Type 0 where
  pub number : ℕ
  pub datagram : Datagram

-- The datagram that the loop holds until the channel takes it; the channel; the job of each worker;
-- and for the proofs the datagrams that arrived, the number of jobs that were taken from the
-- channel, and what the handler of each job did.
pub record Pool (F : Type 0) : Type 0 where
  pub reader : Option Job
  pub jobs : List Job
  pub worker : ℕ → Option Job
  pub arrived : List Datagram
  pub taken : ℕ
  pub outcome : ℕ → Option (List (Event F))

unfoldable pub init : {F : Type 0} → Pool F
init = record {
  reader = none;
  jobs = [];
  worker = λ w. none;
  arrived = [];
  taken = 0;
  outcome = λ n. none;
}

-- The server has so many workers, and its channel has room for as many jobs. A read that fails ends
-- the program, and is no step.
module _ (worker_count : ℕ) {F : Type 0} ⦃fl : Float64 F⦄ where
  pub data Step (s : Pool F) : Pool F → Type 0 where
    -- ReadFromUDP returns.
    reads :
        (d : Datagram)
        → s.reader ≡ none
        → Step s (record s {
          reader = some (record { number = length s.arrived; datagram = received d });
          arrived = s.arrived ++ d ∷ [];
        })
    -- The channel has room; while it has none, the loop waits.
    sends :
        (j : Job)
        → s.reader ≡ some j
        → length s.jobs < worker_count
        → Step s (record s { reader = none; jobs = s.jobs ++ j ∷ [] })
    -- A worker that waits takes the first job.
    takes :
        (w : ℕ) (j : Job) (rest : List Job)
        → w < worker_count
        → s.worker w ≡ none
        → s.jobs ≡ j ∷ rest
        → Step s
            (record s { jobs = rest; worker = update w (some j) s.worker; taken = suc s.taken })
    -- `handleConnection` returns.
    handles :
        (w : ℕ) (j : Job) (writable : Bool) (es : List (Event F))
        → s.worker w ≡ some j
        → handle_connection writable j.datagram ≡ ok es
        → Step s (record s {
          worker = update w none s.worker;
          outcome = update j.number (some es) s.outcome;
        })

  pub data Reach : Pool F → Type 0 where
    start : Reach init
    later : {s t : Pool F} → Reach s → Step s t → Reach t

  -- A handler panics, which ends the program.
  pub record Crashes (s : Pool F) : Type 0 where
    pub by : ℕ
    pub job : Job
    pub writable : Bool
    pub busy : s.worker by ≡ some job
    pub panics : handle_connection {F = F} writable job.datagram ≡ panic
