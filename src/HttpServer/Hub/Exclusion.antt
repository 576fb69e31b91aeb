-- ===== src/HttpServer/Hub/Exclusion.antt =====
-- `handleCmd`: of the requests for one IMEI, one at a time is behind the loop over LoadOrStore.
use teltonika.Prelude.{
  ℕ, ◌≡◌, refl, sym, ◌∙◌, inl, inr, none, some, Bool-cases, update, update_same, update-cases,
}
use teltonika.IoElements.{Text, same_text}
use teltonika.IoElements.Lookup.{same_text_refl, same_text_eq}
use teltonika.HttpServer.Hub.{
  Slots, store_channel, delete_channel, Request, sending, awaiting, answering, deleted, Hub, init,
  Step, takes, refuses, sends, receives, times_out, closes, deletes, loads, delivers, panics, Reach,
  start, later,
}

-- Between LoadOrStore and Delete.
abbrev pub IsInside : Request → Type 0
IsInside sending = Unit {0}
IsInside awaiting = Unit {0}
IsInside (answering a l) = Unit {0}
IsInside _ = ⊥

module _ (imei_of : ℕ → Text) where
  -- Each request that is inside holds the slot of its IMEI, and only such requests hold one.
  pub record Slotted (slots : Slots) (request : ℕ → Request) : Type 0 where
    pub holds : (h : ℕ) → IsInside (request h) → slots (imei_of h) ≡ some h
    pub held :
        (imei : Text) (h : ℕ) → slots imei ≡ some h → IsInside (request h) × (imei_of h ≡ imei)

  -- A request that moves on inside.
  inside-Slotted :
      (slots : Slots) (request : ℕ → Request) (h : ℕ) (r q : Request)
      → request h ≡ q
      → IsInside q
      → IsInside r
      → Slotted slots request
      → Slotted slots (update h r request)
  inside-Slotted slots request h r q e was is v = record {
    holds = λ k p. elim (update-cases h r request k) [
      | inl (k_h, _) ↦ v.holds k (rw (k_h, e) was)
      | inr same ↦ v.holds k (rw same at p)
    ];
    held = λ imei k found.
        let (p, named) = v.held imei k found in
        elim (update-cases h r request k) [
          | inl (_, now) ↦ (rw now is, named)
          | inr same ↦ (rw same p, named)
        ];
  }

  -- And one that moves on outside.
  outside-Slotted :
      (slots : Slots) (request : ℕ → Request) (h : ℕ) (r q : Request)
      → request h ≡ q
      → (IsInside q → ⊥)
      → (IsInside r → ⊥)
      → Slotted slots request
      → Slotted slots (update h r request)
  outside-Slotted slots request h r q e was is v = record {
    holds = λ k p. elim (update-cases h r request k) [
      | inl (_, now) ↦ absurd (is (rw now at p))
      | inr same ↦ v.holds k (rw same at p)
    ];
    held = λ imei k found.
        let (p, named) = v.held imei k found in
        elim (update-cases h r request k) [
          | inl (k_h, _) ↦ absurd (was (rw (k_h, e) at p))
          | inr same ↦ (rw same p, named)
        ];
  }

  some_same : {h k : ℕ} → some h ≡ some k → k ≡ h
  some_same e = cc

  takes-Slotted :
      (slots : Slots) (request : ℕ → Request) (h : ℕ)
      → slots (imei_of h) ≡ none
      → Slotted slots request
      → Slotted (store_channel (imei_of h) h slots) (update h sending request)
  unfolding store_channel
  takes-Slotted slots request h free v = record {
    holds = λ k p. elim (update-cases h sending request k) [
      | inl (k_h, _) ↦ rw (k_h, same_text_refl (imei_of h)) refl
      | inr same ↦
          let mine : slots (imei_of k) ≡ some k = v.holds k (rw same at p) in
          elim (Bool-cases (same_text (imei_of k) (imei_of h))) [
            | inl taken ↦
                let one = same_text_eq (imei_of k) (imei_of h) taken in
                absurd (cc (sym free ∙ (rw one at mine)))
            | inr differs ↦ rw differs mine
          ]
    ];
    held = λ imei k found. elim (Bool-cases (same_text imei (imei_of h))) [
      | inl taken ↦
          let k_h : k ≡ h = some_same (rw taken at found) in
          (
            rw (k_h, update_same h sending request) tt,
            rw k_h (sym (same_text_eq imei (imei_of h) taken)),
          )
      | inr differs ↦
          let (p, named) = v.held imei k (rw differs at found) in
          elim (update-cases h sending request k) [
            | inl (_, now) ↦ (rw now tt, named)
            | inr same ↦ (rw same p, named)
          ]
    ];
  }

  deletes-Slotted :
      (slots : Slots) (request : ℕ → Request) (h : ℕ) (r : Request)
      → IsInside (request h)
      → (IsInside r → ⊥)
      → Slotted slots request
      → Slotted (delete_channel (imei_of h) slots) (update h r request)
  unfolding delete_channel
  deletes-Slotted slots request h r was is v = record {
    holds = λ k p. elim (update-cases h r request k) [
      | inl (_, now) ↦ absurd (is (rw now at p))
      | inr same ↦
          let mine : slots (imei_of k) ≡ some k = v.holds k (rw same at p) in
          elim (Bool-cases (same_text (imei_of k) (imei_of h))) [
            | inl taken ↦
                let one = same_text_eq (imei_of k) (imei_of h) taken in
                let k_h : k ≡ h = some_same (sym (v.holds h was) ∙ (rw one at mine)) in
                absurd (is (rw (k_h, update_same h r request) at p))
            | inr differs ↦ rw differs mine
          ]
    ];
    held = λ imei k found. elim (Bool-cases (same_text imei (imei_of h))) [
      | inl taken ↦ absurd (cc (rw taken at found))
      | inr differs ↦
          let (p, named) = v.held imei k (rw differs at found) in
          elim (update-cases h r request k) [
            | inl (k_h, _) ↦ absurd (cc (rw (← named, k_h, same_text_refl (imei_of h)) at differs))
            | inr same ↦ (rw same p, named)
          ]
    ];
  }

  module _ (tracker_of : ℕ → Text) where
    Step-Slotted :
        {s t : Hub}
        → Step imei_of tracker_of s t
        → Slotted s.slots s.request
        → Slotted t.slots t.request
    Step-Slotted {s} (takes h e free) v = takes-Slotted s.slots s.request h free v
    Step-Slotted {s} (refuses h e) v = inside-Slotted s.slots s.request h _ sending e tt tt v
    Step-Slotted {s} (sends h e) v = inside-Slotted s.slots s.request h _ sending e tt tt v
    Step-Slotted {s} (receives h l e _) v = inside-Slotted s.slots s.request h _ awaiting e tt tt v
    Step-Slotted {s} (times_out h e) v = inside-Slotted s.slots s.request h _ awaiting e tt tt v
    Step-Slotted {s} (deletes h a l e) v =
        deletes-Slotted s.slots s.request h (deleted a l) (rw e tt) (λ p. p) v
    Step-Slotted {s} (closes h a l e) v =
        outside-Slotted s.slots s.request h _ (deleted a l) e (λ p. p) (λ p. p) v
    Step-Slotted (loads c h m e found) v = v
    Step-Slotted (delivers c h m e room) v = v
    Step-Slotted (panics c h m e shut) v = v

    pub Reach-Slotted : {s : Hub} → Reach imei_of tracker_of s → Slotted s.slots s.request
    unfolding init
    Reach-Slotted start = record {
      holds = λ h p. elim p [ ];
      held = λ imei h found. absurd (cc found);
    }
    Reach-Slotted (later r st) = Step-Slotted st (Reach-Slotted r)

    -- In every reachable state, two requests for the same IMEI are not both between LoadOrStore and
    -- Delete: at most one at a time sends a command to a device or waits for its response.
    pub Reach-exclusive :
        (s : Hub) (h k : ℕ)
        → Reach imei_of tracker_of s
        → IsInside (s.request h)
        → IsInside (s.request k)
        → imei_of h ≡ imei_of k
        → h ≡ k
    Reach-exclusive s h k r p q e =
        let v = Reach-Slotted r in some_same (sym (v.holds k q) ∙ (rw e at (v.holds h p)))
