-- ===== src/UdpServer/Pool/Work.antt =====
-- simple-udp-server: what the workers have and had, and what a step makes of it.
use teltonika.Prelude.{
  ℕ, suc, ◌<◌, ◌≡◌, ◌⊎◌, sym, ap, ◌∙◌, arith, inl, inr, Bool, ltb, Bool-cases, Option, none, some,
  List, [], ◌∷◌, ◌++◌, ok, update, update_same, update-cases,
}
use teltonika.Packet.{Float64}
use teltonika.UdpServer.{Datagram, Event, received, handle_connection}
use teltonika.UdpServer.Pool.{Job, Pool}
use teltonika.UdpServer.Pool.Line.{get_elem?, get_elem?-append, Carries, Carries-append}

some_same : {A : Type 0} {a b : A} → some a ≡ some b → a ≡ b
some_same e = cc

module _ {F : Type 0} ⦃fl : Float64 F⦄ where
  -- What the handler of the datagram with this number did.
  pub record IsHandled (arrived : List Datagram) (n : ℕ) (es : List (Event F)) : Type 0 where
    pub origin : Datagram
    pub writable : Bool
    pub found : get_elem? arrived n ≡ some origin
    pub handled : handle_connection writable (received origin) ≡ ok es

  -- A job that was taken is at a worker, or it was handled.
  pub record IsWorking (s : Pool F) : Type 0 where
    pub busy :
        (w : ℕ) (j : Job)
        → s.worker w ≡ some j
        → (j.number < s.taken) × Carries s.arrived j × (s.outcome j.number ≡ none)
    pub apart :
        (w v : ℕ) (j k : Job)
        → s.worker w ≡ some j
        → s.worker v ≡ some k
        → j.number ≡ k.number
        → w ≡ v
    pub done :
        (n : ℕ) (es : List (Event F))
        → s.outcome n ≡ some es
        → (n < s.taken) × IsHandled s.arrived n es
    pub served :
        (n : ℕ)
        → n < s.taken
        → ((es : List (Event F)) × (s.outcome n ≡ some es))
          ⊎ ((w : ℕ) × (j : Job) × (s.worker w ≡ some j) × (j.number ≡ n))

  pub reads-IsWorking :
      (s : Pool F) (reader : Option Job) (d : Datagram)
      → IsWorking s
      → IsWorking (record s { reader = reader; arrived = s.arrived ++ d ∷ [] })
  reads-IsWorking s reader d v = record {
    busy =
        λ w j e. let (low, c, open_) = v.busy w j e in (low, Carries-append s.arrived d j c, open_);
    apart = v.apart;
    done = λ n es e.
        let (low, h) = v.done n es e in
        (
          low,
          record {
            origin = h.origin;
            writable = h.writable;
            found = get_elem?-append s.arrived (d ∷ []) n h.origin h.found;
            handled = h.handled;
          },
        );
    served = v.served;
  }

  pub takes-IsWorking :
      (s : Pool F) (w : ℕ) (j : Job) (rest : List Job)
      → j.number ≡ s.taken
      → Carries s.arrived j
      → s.outcome j.number ≡ none
      → s.worker w ≡ none
      → IsWorking s
      → IsWorking
          (record s { jobs = rest; worker = update w (some j) s.worker; taken = suc s.taken })
  takes-IsWorking s w j rest first c fresh free v = record {
    busy = λ u k e. elim (update-cases w (some j) s.worker u) [
      | inl (_, now) ↦
          let same : j ≡ k = some_same (sym now ∙ e) in rw (← same) (omega (arith, first), c, fresh)
      | inr kept ↦ let (low, d, open_) = v.busy u k (sym kept ∙ e) in (omega arith, d, open_)
    ];
    apart = λ u x k l e f same. elim (update-cases w (some j) s.worker u) [
      | inl (u_w, now) ↦ elim (update-cases w (some j) s.worker x) [
        | inl (x_w, _) ↦ u_w ∙ sym x_w
        | inr kept ↦
            let mine : j ≡ k = some_same (sym now ∙ e) in
            let (low, _, _) = v.busy x l (sym kept ∙ f) in
            absurd (omega (arith, first, same, ap (λ (i : Job). i.number) mine))
      ]
      | inr old ↦ elim (update-cases w (some j) s.worker x) [
        | inl (x_w, now) ↦
            let mine : j ≡ l = some_same (sym now ∙ f) in
            let (low, _, _) = v.busy u k (sym old ∙ e) in
            absurd (omega (arith, first, same, ap (λ (i : Job). i.number) mine))
        | inr kept ↦ v.apart u x k l (sym old ∙ e) (sym kept ∙ f) same
      ]
    ];
    done = λ n es e. let (low, h) = v.done n es e in (omega arith, h);
    served = λ n h. elim (Bool-cases (ltb n s.taken)) [
      | inl below ↦ elim (v.served n (ground arith)) [
        | inl handled ↦ inl handled
        | inr (u, k, e, m) ↦ elim (update-cases w (some j) s.worker u) [
          | inl (u_w, _) ↦ absurd (cc (sym e ∙ (ap s.worker u_w ∙ free)))
          | inr kept ↦ inr (u, k, kept ∙ e, m)
        ]
      ]
      | inr last ↦ inr (w, j, update_same w (some j) s.worker, ground (arith, first))
    ];
  }

  pub handles-IsWorking :
      (s : Pool F) (w : ℕ) (j : Job) (es : List (Event F))
      → s.worker w ≡ some j
      → IsHandled s.arrived j.number es
      → IsWorking s
      → IsWorking (record s {
        worker = update w none s.worker;
        outcome = update j.number (some es) s.outcome;
      })
  handles-IsWorking s w j es at_work h v = record {
    busy = λ u k e. elim (update-cases w none s.worker u) [
      | inl (_, now) ↦ absurd (cc (sym now ∙ e))
      | inr kept ↦
          let (low, c, fresh) = v.busy u k (sym kept ∙ e) in
          (
            low,
            c,
            elim (update-cases j.number (some es) s.outcome k.number) [
              | inl (same, _) ↦
                  let u_w = v.apart u w k j (sym kept ∙ e) at_work same in
                  let gone : update w none s.worker u ≡ none =
                    rw u_w (update_same w none s.worker) in
                  absurd (cc (sym gone ∙ e))
              | inr other ↦ other ∙ fresh
            ],
          )
    ];
    apart = λ u x k l e f same. elim (update-cases w none s.worker u) [
      | inl (_, now) ↦ absurd (cc (sym now ∙ e))
      | inr old ↦ elim (update-cases w none s.worker x) [
        | inl (_, now) ↦ absurd (cc (sym now ∙ f))
        | inr kept ↦ v.apart u x k l (sym old ∙ e) (sym kept ∙ f) same
      ]
    ];
    done = λ n fs e. elim (update-cases j.number (some es) s.outcome n) [
      | inl (same, now) ↦
          let this : es ≡ fs = some_same (sym now ∙ e) in
          let (low, _, _) = v.busy w j at_work in (omega (arith, same), rw (same, ← this) h)
      | inr other ↦ v.done n fs (sym other ∙ e)
    ];
    served = λ n h. elim (update-cases j.number (some es) s.outcome n) [
      | inl (same, now) ↦ inl (es, now)
      | inr other ↦ elim (v.served n h) [
        | inl (fs, e) ↦ inl (fs, other ∙ e)
        | inr (u, k, e, m) ↦ elim (update-cases w none s.worker u) [
          | inl (u_w, _) ↦
              let mine : j ≡ k = some_same (sym at_work ∙ (sym (ap s.worker u_w) ∙ e)) in
              inl (es, rw (← m, ← mine) (update_same j.number (some es) s.outcome))
          | inr kept ↦ inr (u, k, kept ∙ e, m)
        ]
      ]
    ];
  }
