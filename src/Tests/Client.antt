-- ===== src/Tests/Client.antt =====
-- The theorem on the test client, at a concrete connection.
use teltonika.Prelude.{ℕ, ◌≡◌, refl, arith, true, Option, none, some, List, [], ◌∷◌, map}
use teltonika.TestClient.{Net, run, waits}
use teltonika.TestClient.Typed.{Turn, ping, exchange, typed, printed, IsPeer, run-typed}

-- A connection that takes turns from a list.
abbrev take_bytes : List Turn → List ℕ → Option (List Turn)
take_bytes [] bytes = none
take_bytes (ping ∷ ts) bytes = some ts
take_bytes (exchange expected response ∷ ts) bytes = some (exchange expected response ∷ ts)

abbrev respond : List Turn → ℕ → Option (List ℕ × List Turn)
respond [] n = none
respond (ping ∷ ts) n = none
respond (exchange bytes response ∷ ts) n = some (response, ts)

instance abbrev script : Net (List Turn)
script = record { write = take_bytes; read = respond }

script-IsPeer : IsPeer (List Turn) (λ s ts. s ≡ ts)
script-IsPeer = record {
  takes_ping = λ s ts h. (ts, rw h refl, refl);
  exchanged = λ s bytes response ts h. (s, ts, rw h refl, rw h refl, refl);
}

-- An IMEI message, a ping, and a frame.
abbrev turns : List Turn
turns = exchange (0 ∷ 1 ∷ b'3' ∷ []) (1 ∷ []) ∷ ping ∷ exchange (0xca ∷ 0xfe ∷ []) (0 ∷ 2 ∷ []) ∷ []

run-typed_example :
    (t : List Turn) × (run true (map typed turns) turns ≡ (map printed turns, waits t)) × (t ≡ [])
run-typed_example = run-typed (λ s ts. s ≡ ts) script-IsPeer turns turns (omega arith) refl
