-- ===== src/UdpServer/Pool/Line.antt =====
-- simple-udp-server: the jobs that wait for a worker, in the order in which their datagrams arrived.
use teltonika.Prelude.{
  ℕ, zero, suc, ◌≤◌, ◌≡◌, refl, sym, arith, Option, none, some, List, [], ◌∷◌, ◌++◌, length,
  length-append, append-nil,
}
use teltonika.Packet.{Float64}
use teltonika.UdpServer.{Datagram, received}
use teltonika.UdpServer.Pool.{
  Job, Pool, init, Step, reads, sends, takes, handles, Reach, start, later,
}

abbrev pub get_elem? : {A : Type 0} → List A → ℕ → Option A
get_elem? [] i = none
get_elem? (x ∷ xs) zero = some x
get_elem? (x ∷ xs) (suc i) = get_elem? xs i

get_elem?-last : {A : Type 0} (xs : List A) (x : A) → get_elem? (xs ++ x ∷ []) (length xs) ≡ some x
get_elem?-last [] x = refl
get_elem?-last (y ∷ xs) x = get_elem?-last xs x

pub get_elem?-append :
    {A : Type 0} (xs ys : List A) (i : ℕ) (x : A)
    → get_elem? xs i ≡ some x
    → get_elem? (xs ++ ys) i ≡ some x
get_elem?-append [] ys i x h = absurd (cc h)
get_elem?-append (y ∷ xs) ys zero x h = h
get_elem?-append (y ∷ xs) ys (suc i) x h = get_elem?-append xs ys i x h

-- The job holds what was received of its datagram.
pub record Carries (arrived : List Datagram) (j : Job) : Type 0 where
  pub origin : Datagram
  pub found : get_elem? arrived j.number ≡ some origin
  pub content : j.datagram ≡ received origin

pub Carries-append :
    (arrived : List Datagram) (d : Datagram) (j : Job)
    → Carries arrived j
    → Carries (arrived ++ d ∷ []) j
Carries-append arrived d j c = record {
  origin = c.origin;
  found = get_elem?-append arrived (d ∷ []) j.number c.origin c.found;
  content = c.content;
}

-- Jobs for the datagrams from number `n` on.
abbrev pub IsLine : List Datagram → ℕ → List Job → Type 0
IsLine arrived n [] = n ≡ length arrived
IsLine arrived n (j ∷ js) = (j.number ≡ n) × Carries arrived j × IsLine arrived (suc n) js

abbrev pub held : Option Job → List Job
held none = []
held (some j) = j ∷ []

-- The jobs that were not taken.
abbrev pub waiting : {F : Type 0} → Pool F → List Job
waiting s = s.jobs ++ held s.reader

IsLine-append :
    (arrived : List Datagram) (n : ℕ) (js : List Job) (d : Datagram)
    → IsLine arrived n js
    → IsLine
        (arrived ++ d ∷ [])
        n
        (js ++ record { number = length arrived; datagram = received d } ∷ [])
IsLine-append arrived n [] d h = (
  sym h,
  record { origin = d; found = get_elem?-last arrived d; content = refl },
  omega (arith, length-append arrived (d ∷ [])),
)
IsLine-append arrived n (j ∷ js) d (e, c, h) =
    (e, Carries-append arrived d j c, IsLine-append arrived (suc n) js d h)

-- The jobs that wait are those of the last datagrams, and the channel has room for those in it.
pub record IsOrderly (worker_count : ℕ) {F : Type 0} (s : Pool F) : Type 0 where
  pub line : IsLine s.arrived s.taken (waiting s)
  pub room : length s.jobs ≤ worker_count

module _ (worker_count : ℕ) {F : Type 0} ⦃fl : Float64 F⦄ where
  Step-IsOrderly :
      {s t : Pool F} → Step worker_count s t → IsOrderly worker_count s → IsOrderly worker_count t
  Step-IsOrderly {s} (reads d free) v = record {
    line = IsLine-append s.arrived s.taken s.jobs d (rw (free, append-nil s.jobs) at v.line);
    room = v.room;
  }
  Step-IsOrderly {s} (sends j full room) v = record {
    line = rw append-nil (rw full at v.line);
    room = omega (arith, length-append s.jobs (j ∷ []));
  }
  Step-IsOrderly {s} (takes w j rest known free first) v = record {
    line = let (_, _, l) = rw first at v.line in l;
    room = let h = rw first at v.room in omega arith;
  }
  Step-IsOrderly {s} (handles w j writable es busy done) v = record { line = v.line; room = v.room }

  pub Reach-IsOrderly : {s : Pool F} → Reach worker_count s → IsOrderly worker_count s
  unfolding init
  Reach-IsOrderly start = record { line = refl; room = omega arith }
  Reach-IsOrderly (later r st) = Step-IsOrderly st (Reach-IsOrderly r)
