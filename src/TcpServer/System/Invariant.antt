-- ===== src/TcpServer/System/Invariant.antt =====
-- simple-tcp-server: whom the registry holds in any interleaving of the handlers.
use teltonika.Prelude.{
  ℕ, ◌≡◌, sym, ◌∙◌, inl, inr, some, Bool-cases, update, update_same, update-cases,
}
use teltonika.IoElements.{Text, same_text}
use teltonika.IoElements.Lookup.{same_text_refl, same_text_eq}
use teltonika.TcpServer.{store_client, delete_client}
use teltonika.TcpServer.System.{
  Phase, connecting, replacing, serving, ended, System, no_clients, init, Step, stores, loads,
  replaces, ends, refuses, Reach, start, later,
}

-- Each client that is registered is that of a handler which serves this IMEI.
abbrev pub Inv : System → Type 0
Inv s = (imei : Text) (n : ℕ) → s.clients imei ≡ some n → s.phase n ≡ serving imei

-- A handler that is registered is not one whose phase is another.
update-serving :
    (n k : ℕ) (p q : Phase) (imei : Text) (phase : ℕ → Phase)
    → phase n ≡ q
    → phase k ≡ serving imei
    → ((q ≡ serving imei) → ⊥)
    → update n p phase k ≡ serving imei
update-serving n k p q imei phase e f other = elim (update-cases n p phase k) [
  | inl (k_n, _) ↦ absurd (other (sym e ∙ (rw k_n at f)))
  | inr same ↦ same ∙ f
]

store-Inv :
    (s : System) (n : ℕ) (imei : Text) (q : Phase)
    → s.phase n ≡ q
    → ((i : Text) → (q ≡ serving i) → ⊥)
    → Inv s
    → Inv (record {
      clients = store_client imei n s.clients;
      phase = update n (serving imei) s.phase;
    })
unfolding store_client
store-Inv s n imei q e other h i k found = elim (Bool-cases (same_text i imei)) [
  | inl same ↦
      let i_imei : i ≡ imei = same_text_eq i imei same in
      let n_k : some n ≡ some k = rw same at found in
      let k_n : k ≡ n = cc in rw (k_n, i_imei) (update_same n (serving imei) s.phase)
  | inr differs ↦ update-serving n k _ q i s.phase e (h i k (rw differs at found)) (other i)
]

-- Without a change of the registry.
move-Inv :
    (s : System) (n : ℕ) (p q : Phase)
    → s.phase n ≡ q
    → ((i : Text) → (q ≡ serving i) → ⊥)
    → Inv s
    → Inv (record { clients = s.clients; phase = update n p s.phase })
move-Inv s n p q e other h i k found = update-serving n k p q i s.phase e (h i k found) (other i)

serving_imei : {i j : Text} → serving i ≡ serving j → i ≡ j
serving_imei e = cc

end-Inv :
    (s : System) (n : ℕ) (imei : Text)
    → s.phase n ≡ serving imei
    → Inv s
    → Inv (record { clients = delete_client imei s.clients; phase = update n ended s.phase })
unfolding delete_client
end-Inv s n imei e h i k found = elim (Bool-cases (same_text i imei)) [
  | inl same ↦ absurd (cc (rw same at found))
  | inr differs ↦
      update-serving n k ended (serving imei) i s.phase e (h i k (rw differs at found))
        λ f. absurd (cc (rw (serving_imei f, same_text_refl i) at differs))
]

Step-Inv : {s t : System} → Step s t → Inv s → Inv t
Step-Inv {s} (stores n imei e _ _) h = store-Inv s n imei connecting e (λ i f. cc f) h
Step-Inv {s} (loads n other imei e _ _) h =
    move-Inv s n (replacing imei) connecting e (λ i f. cc f) h
Step-Inv {s} (replaces n imei e) h = store-Inv s n imei (replacing imei) e (λ i f. cc f) h
Step-Inv {s} (ends n imei e) h = end-Inv s n imei e h
Step-Inv {s} (refuses n e) h = move-Inv s n ended connecting e (λ i f. cc f) h

-- In every reachable state, however the handlers of the connections interleave, each client in
-- the registry is stored under the IMEI that its handler serves, and this handler has not ended.
pub Reach-Inv : {s : System} → Reach s → Inv s
unfolding init no_clients
Reach-Inv start = λ i n found. absurd (cc found)
Reach-Inv (later r st) = Step-Inv st (Reach-Inv r)
