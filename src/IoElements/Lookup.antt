-- ===== src/IoElements/Lookup.antt =====
-- ioelements.go: `GetElementInfo` on a decoder that `NewDecoder` made finds what there is, and only that.
use teltonika.Prelude.{
  ℕ, ◌≡◌, refl, sym, Bool, true, false, ◌&&◌, not, ◌⊎◌, inl, inr, List, [], ◌∷◌, ◌==◌, ==_iff,
  ==_refl, Bool-cases, if_same, ok,
}
use teltonika.IoElements.{
  IoElementDefinition, Text, same_text, add_model, add_models, any_model, supports, all_models,
  new_decoder, find_definition, get_element_info,
}

-- The element stands in the list.
abbrev pub Among : {A : Type 0} → A → List A → Type 0
Among x [] = ⊥
Among x (y ∷ ys) = (x ≡ y) ⊎ Among x ys

pub same_text_refl : (a : Text) → same_text a a ≡ true
unfolding same_text
same_text_refl [] = refl
same_text_refl (c ∷ cs) = rw (==_refl c) (same_text_refl cs)

pub same_text_eq : (a b : Text) → same_text a b ≡ true → a ≡ b
unfolding same_text
same_text_eq [] [] h = refl
same_text_eq [] (d ∷ ds) h = absurd (cc h)
same_text_eq (c ∷ cs) [] h = absurd (cc h)
same_text_eq (c ∷ cs) (d ∷ ds) h = elim (Bool-cases (c == d)) [
  | inl e ↦ let same : c ≡ d = (==_iff c d).0 e in let rest = same_text_eq cs ds (rw e at h) in cc
  | inr e ↦ absurd (cc (rw e at h))
]

pub and_false : (b : Bool) → (b && false) ≡ false
and_false true = refl
and_false false = refl

supports-Among : (model : Text) (vs : List Text) → supports model vs ≡ true → Among model vs
unfolding supports
supports-Among model [] h = absurd (cc h)
supports-Among model (v ∷ vs) h = elim (Bool-cases (same_text v model)) [
  | inl e ↦ inl (sym (same_text_eq v model e))
  | inr e ↦ inr (supports-Among model vs (rw e at h))
]

Among-supports : (model : Text) (vs : List Text) → Among model vs → supports model vs ≡ true
unfolding supports
Among-supports model [] h = elim h [ ]
Among-supports model (v ∷ vs) (inl e) = rw (← e, same_text_refl model)
Among-supports model (v ∷ vs) (inr h) =
    rw (Among-supports model vs h) (if_same (not (same_text v model)) true)

-- A model stays supported, and those that are added become supported.
add_models-keeps :
    (x : Text) (ms : List Text) (models : Text → Bool)
    → models x ≡ true
    → add_models ms models x ≡ true
unfolding add_models add_model
add_models-keeps x [] models h = h
add_models-keeps x (m ∷ ms) models h =
    add_models-keeps x ms (add_model m models) (rw h (if_same (same_text x m) true))

add_models-adds :
    (x : Text) (ms : List Text) (models : Text → Bool) → Among x ms → add_models ms models x ≡ true
unfolding add_models add_model
add_models-adds x [] models h = elim h [ ]
add_models-adds x (m ∷ ms) models (inl e) =
    add_models-keeps x ms (add_model m models) (rw (← e, same_text_refl x))
add_models-adds x (m ∷ ms) models (inr h) = add_models-adds x ms (add_model m models) h

module _ {V : Type 0} where
  all_models-keeps :
      (x : Text) (defs : List (IoElementDefinition V)) (models : Text → Bool)
      → models x ≡ true
      → all_models defs models x ≡ true
  unfolding all_models
  all_models-keeps x [] models h = h
  all_models-keeps x (it ∷ its) models h =
      all_models-keeps x its _ (add_models-keeps x it.supported_models models h)

  all_models-adds :
      (x : Text) (e : IoElementDefinition V) (defs : List (IoElementDefinition V))
      (models : Text → Bool)
      → Among e defs
      → Among x e.supported_models
      → all_models defs models x ≡ true
  unfolding all_models
  all_models-adds x e [] models h k = elim h [ ]
  all_models-adds x e (it ∷ its) models (inl same) k =
      let k' : Among x it.supported_models = rw same at k in
      all_models-keeps x its _ (add_models-adds x it.supported_models models k')
  all_models-adds x e (it ∷ its) models (inr h) k = all_models-adds x e its _ h k

  -- The definition is for the model, or any model is asked for.
  abbrev pub IsFor : Text → IoElementDefinition V → Type 0
  IsFor model e = (model ≡ any_model) ⊎ Among model e.supported_models

  -- What a lookup may give.
  pub record IsFound (model : Text) (id : ℕ) (defs : List (IoElementDefinition V))
      (e : IoElementDefinition V) : Type 0 where
    pub among : Among e defs
    pub same_id : e.id ≡ id
    pub for_model : IsFor model e

  later :
      {model : Text} {id : ℕ} {defs : List (IoElementDefinition V)} {e d : IoElementDefinition V}
      → IsFound model id defs e
      → IsFound model id (d ∷ defs) e
  later f = record { among = inr f.among; same_id = f.same_id; for_model = f.for_model }

  here :
      {model : Text} {id : ℕ} {defs : List (IoElementDefinition V)} {e d : IoElementDefinition V}
      → ok d ≡ ok e
      → (d.id == id) ≡ true
      → IsFor model d
      → IsFound model id (d ∷ defs) e
  here {id} {e} {d} h match f =
      let same : d ≡ e = cc in
      record {
        among = inl (sym same);
        same_id = rw (← same) ((==_iff d.id id).0 match);
        for_model = rw (← same) f;
      }

  find_definition-IsFound :
      (model : Text) (id : ℕ) (defs : List (IoElementDefinition V)) (e : IoElementDefinition V)
      → find_definition model id defs ≡ ok e
      → IsFound model id defs e
  unfolding find_definition
  find_definition-IsFound model id [] e h = absurd (cc h)
  find_definition-IsFound model id (d ∷ ds) e h = elim (Bool-cases (d.id == id)) [
    | inr other ↦ later (find_definition-IsFound model id ds e (rw other at h))
    | inl match ↦ elim (Bool-cases (same_text model any_model)) [
      | inl any ↦ here (rw (match, any) at h) match (inl (same_text_eq model any_model any))
      | inr one ↦ elim (Bool-cases (supports model d.supported_models)) [
        | inl supported ↦
            here (rw (match, one, supported) at h) match
              (inr (supports-Among model d.supported_models supported))
        | inr absent ↦ later (find_definition-IsFound model id ds e (rw (match, one, absent) at h))
      ]
    ]
  ]

  find_definition-finds :
      (model : Text) (id : ℕ) (defs : List (IoElementDefinition V)) (e : IoElementDefinition V)
      → Among e defs
      → e.id ≡ id
      → IsFor model e
      → (d : IoElementDefinition V) × (find_definition model id defs ≡ ok d)
  unfolding find_definition
  find_definition-finds model id [] e h same f = elim h [ ]
  find_definition-finds model id (d ∷ ds) e (inl first) same f =
      let match : (d.id == id) ≡ true = (==_iff d.id id).1 (rw first at same) in
      elim (rw first at f) [
        | inl any ↦ (d, rw (match, any, same_text_refl any_model))
        | inr one ↦ (
          d,
          rw (match, Among-supports model d.supported_models one)
              (if_same (same_text model any_model) (ok d)),
        )
      ]
  find_definition-finds model id (d ∷ ds) e (inr h) same f =
      let (d', found) = find_definition-finds model id ds e h same f in
      elim (Bool-cases (d.id == id)) [
        | inr other ↦ (d', rw (other, found))
        | inl match ↦ elim (Bool-cases (same_text model any_model)) [
          | inl any ↦ (d, rw (match, any))
          | inr one ↦ elim (Bool-cases (supports model d.supported_models)) [
            | inl supported ↦ (d, rw (match, one, supported))
            | inr absent ↦ (d', rw (match, one, absent, found))
          ]
        ]
      ]

  -- With a decoder that `NewDecoder` made, `GetElementInfo` returns only a definition that the
  -- decoder was made from, with the number that was asked for, and for the model that was asked
  -- for unless that was "*".
  pub get_element_info-IsFound :
      (defs : List (IoElementDefinition V)) (model : Text) (id : ℕ) (e : IoElementDefinition V)
      → get_element_info (new_decoder defs) model id ≡ ok e
      → IsFound model id defs e
  unfolding get_element_info new_decoder
  get_element_info-IsFound defs model id e h =
      elim (Bool-cases
        (not (same_text model any_model) && not (all_models defs (λ x. false) model))) [
          | inl refused ↦ absurd (cc (rw refused at h))
          | inr asked ↦ find_definition-IsFound model id defs e (rw asked at h)
        ]

  -- If the definitions that a decoder was made from hold one with the number and for the model
  -- that are asked for, `GetElementInfo` finds a definition.
  pub get_element_info-finds :
      (defs : List (IoElementDefinition V)) (model : Text) (id : ℕ) (e : IoElementDefinition V)
      → Among e defs
      → e.id ≡ id
      → IsFor model e
      → (d : IoElementDefinition V) × (get_element_info (new_decoder defs) model id ≡ ok d)
  unfolding get_element_info new_decoder
  get_element_info-finds defs model id e h same f =
      let (d, found) = find_definition-finds model id defs e h same f in
      elim f [
        | inl any ↦ (d, rw (any, same_text_refl any_model) (rw any at found))
        | inr one ↦ (
          d,
          rw
              (
                all_models-adds model e defs (λ x. false) h one,
                and_false (not (same_text model any_model)),
              )
              found,
        )
      ]
