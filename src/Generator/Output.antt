-- ===== src/Generator/Output.antt =====
-- tools/io_elements_gen.go: the set of models that `generate` writes, `supportedModels`, which
-- ioelements.go takes for its default decoder.
use teltonika.Prelude.{
  ◌≡◌, ◌↔◌, ◌⊎◌, refl, sym, ap, ◌∙◌, inl, inr, Bool, true, false, not, List, [], ◌∷◌, ◌++◌,
  Bool-cases, if◌then◌else◌,
}
use teltonika.IoElements.{
  Text, same_text, IoElementDefinition, add_model, add_models, all_models, new_decoder,
}
use teltonika.IoElements.Lookup.{Among, same_text_refl, same_text_eq}
use teltonika.Generator.{mark}
use teltonika.Generator.Slices.{Among-last, Among-first, Among-added}

-- `allSupportedModelsMap`, the function of its lookups, and `allSupportedModels`.
pub record Models : Type 0 where
  pub seen : Text → Bool
  pub listed : List Text

unfoldable pub list_model : Text → Models → Models
list_model model s = record {
  seen = mark model s.seen;
  listed = if not (s.seen model) then s.listed ++ model ∷ [] else s.listed;
}

unfoldable pub list_models : List Text → Models → Models
list_models [] s = s
list_models (m ∷ ms) s = list_models ms (list_model m s)

module _ {V : Type 0} where
  unfoldable pub list_all : List (IoElementDefinition V) → Models → Models
  list_all [] s = s
  list_all (it ∷ its) s = list_all its (list_models it.supported_models s)

  -- slices.Sort is a parameter.
  unfoldable pub all_supported_models :
      (List Text → List Text) → List (IoElementDefinition V) → List Text
  all_supported_models sort defs =
      sort (list_all defs (record { seen = λ x. false; listed = [] })).listed

-- What is listed is what was seen.
record Inv (s : Models) : Type 0 where
  sound : (y : Text) → Among y s.listed → s.seen y ≡ true
  complete : (y : Text) → s.seen y ≡ true → Among y s.listed

seen_or_same : (m y : Text) (seen : Text → Bool) → mark m seen y ≡ true → (y ≡ m) ⊎ (seen y ≡ true)
unfolding mark
seen_or_same m y seen h = elim (Bool-cases (same_text y m)) [
  | inl same ↦ inl (same_text_eq y m same)
  | inr differs ↦ inr (rw differs at h)
]

marked : (m : Text) (seen : Text → Bool) → mark m seen m ≡ true
unfolding mark
marked m seen = rw (same_text_refl m) refl

still_seen : (m y : Text) (seen : Text → Bool) → seen y ≡ true → mark m seen y ≡ true
unfolding mark
still_seen m y seen h = elim (Bool-cases (same_text y m)) [
  | inl same ↦ rw same refl
  | inr differs ↦ rw differs h
]

list_model-Inv : (m : Text) (s : Models) → Inv s → Inv (list_model m s)
unfolding list_model
list_model-Inv m s v = elim (Bool-cases (s.seen m)) [
  | inl known ↦ record {
    sound = λ y h. still_seen m y s.seen (v.sound y (rw known at h));
    complete = λ y h. rw known (elim (seen_or_same m y s.seen h) [
      | inl same ↦ v.complete y (rw same known)
      | inr old ↦ v.complete y old
    ]);
  }
  | inr new ↦ record {
    sound = λ y h. elim (Among-last s.listed (rw new at h)) [
      | inl old ↦ still_seen m y s.seen (v.sound y old)
      | inr same ↦ rw same (marked m s.seen)
    ];
    complete = λ y h. rw new (elim (seen_or_same m y s.seen h) [
      | inl same ↦ rw same (Among-added m s.listed)
      | inr old ↦ Among-first y m s.listed (v.complete y old)
    ]);
  }
]

list_models-Inv : (ms : List Text) (s : Models) → Inv s → Inv (list_models ms s)
unfolding list_models
list_models-Inv [] s v = v
list_models-Inv (m ∷ ms) s v = list_models-Inv ms (list_model m s) (list_model-Inv m s v)

list_models-seen : (ms : List Text) (s : Models) → (list_models ms s).seen ≡ add_models ms s.seen
unfolding list_models list_model mark add_models add_model
list_models-seen [] s = refl
list_models-seen (m ∷ ms) s = list_models-seen ms (list_model m s)

module _ {V : Type 0} where
  list_all-Inv : (defs : List (IoElementDefinition V)) (s : Models) → Inv s → Inv (list_all defs s)
  unfolding list_all
  list_all-Inv [] s v = v
  list_all-Inv (it ∷ its) s v = list_all-Inv its _ (list_models-Inv it.supported_models s v)

  list_all-seen :
      (defs : List (IoElementDefinition V)) (s : Models)
      → (list_all defs s).seen ≡ all_models defs s.seen
  unfolding list_all all_models
  list_all-seen [] s = refl
  list_all-seen (it ∷ its) s =
      list_all-seen its (list_models it.supported_models s)
      ∙ ap (all_models its) (list_models-seen it.supported_models s)

  -- The models that `generate` writes for a list of definitions are those that a decoder supports
  -- which NewDecoder makes of the same list. Sort is assumed to keep the elements.
  all_supported_models-new_decoder :
      (sort : List Text → List Text) (defs : List (IoElementDefinition V)) (model : Text)
      → ((xs : List Text) (y : Text) → Among y (sort xs) ↔ Among y xs)
      → Among model (all_supported_models sort defs)
        ↔ ((new_decoder defs).supported_models model ≡ true)
  unfolding all_supported_models new_decoder
  all_supported_models-new_decoder sort defs model keeps =
      let s : Models = record { seen = λ x. false; listed = [] } in
      let v =
        list_all-Inv defs s
          (record { sound = λ y h. elim h [ ]; complete = λ y h. absurd (cc h) }) in
      let same = ap (λ (f : Text → Bool). f model) (list_all-seen defs s) in
      (
        λ h. sym same ∙ v.sound model ((keeps _ model).0 h),
        λ h. (keeps _ model).1 (v.complete model (same ∙ h)),
      )
