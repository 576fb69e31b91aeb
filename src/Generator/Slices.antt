-- ===== src/Generator/Slices.antt =====
-- tools/io_elements_gen.go: `unique` keeps each element once.
use teltonika.Prelude.{
  ◌≡◌, ◌↔◌, ◌⊎◌, ◌++◌, refl, sym, ◌∙◌, inl, inr, Bool, true, false, List, [], ◌∷◌, Bool-cases,
}
use teltonika.IoElements.{Text, same_text}
use teltonika.IoElements.Lookup.{Among, same_text_refl, same_text_eq}
use teltonika.Generator.{mark, unique_loop, unique}

-- An element of a list with one more at its end.
pub Among-last :
    {A : Type 0} {y m : A} (xs : List A) → Among y (xs ++ m ∷ []) → Among y xs ⊎ (y ≡ m)
Among-last [] (inl e) = inr e
Among-last [] (inr h) = elim h [ ]
Among-last (x ∷ xs) (inl e) = inl (inl e)
Among-last (x ∷ xs) (inr h) = elim (Among-last xs h) [ inl k ↦ inl (inr k) | inr e ↦ inr e ]

pub Among-first : {A : Type 0} (y m : A) (xs : List A) → Among y xs → Among y (xs ++ m ∷ [])
Among-first y m [] h = elim h [ ]
Among-first y m (x ∷ xs) (inl e) = inl e
Among-first y m (x ∷ xs) (inr h) = inr (Among-first y m xs h)

pub Among-added : {A : Type 0} (m : A) (xs : List A) → Among m (xs ++ m ∷ [])
Among-added m [] = inl refl
Among-added m (x ∷ xs) = inr (Among-added m xs)

-- No element stands in the list twice.
abbrev pub IsOnce : List Text → Type 0
IsOnce [] = Unit {0}
IsOnce (x ∷ xs) = (Among x xs → ⊥) × IsOnce xs

-- The elements of the first list that were not seen, each of them once.
record IsRest (seen : Text → Bool) (xs ys : List Text) : Type 0 where
  once : IsOnce ys
  sound : (y : Text) → Among y ys → Among y xs × (seen y ≡ false)
  complete : (y : Text) → Among y xs → seen y ≡ false → Among y ys

seen-mark : (x y : Text) (seen : Text → Bool) → mark x seen y ≡ false → seen y ≡ false
unfolding mark
seen-mark x y seen h = elim (Bool-cases (same_text y x)) [
  | inl same ↦ absurd (cc (rw same at h))
  | inr differs ↦ rw differs at h
]

seen-IsRest :
    (seen : Text → Bool) (x : Text) (xs ys : List Text)
    → seen x ≡ true
    → IsRest seen xs ys
    → IsRest seen (x ∷ xs) ys
seen-IsRest seen x xs ys s r = record {
  once = r.once;
  sound = λ y h. let (k, e) = r.sound y h in (inr k, e);
  complete = λ y h e. elim h [
    | inl same ↦ absurd (cc (sym s ∙ (rw same at e)))
    | inr k ↦ r.complete y k e
  ];
}

new-IsRest :
    (seen : Text → Bool) (x : Text) (xs ys : List Text)
    → seen x ≡ false
    → IsRest (mark x seen) xs ys
    → IsRest seen (x ∷ xs) (x ∷ ys)
unfolding mark
new-IsRest seen x xs ys s r = record {
  once = (λ h. absurd (cc (rw (same_text_refl x) at (r.sound x h).1)), r.once);
  sound = λ y h. elim h [
    | inl same ↦ (inl same, rw same s)
    | inr k ↦ let (l, e) = r.sound y k in (inr l, seen-mark x y seen e)
  ];
  complete = λ y h e. elim (Bool-cases (same_text y x)) [
    | inl same ↦ inl (same_text_eq y x same)
    | inr differs ↦ elim h [ inl same ↦ inl same | inr k ↦ inr (r.complete y k (rw differs e)) ]
  ];
}

unique_loop-IsRest : (seen : Text → Bool) (xs : List Text) → IsRest seen xs (unique_loop seen xs)
unfolding unique_loop
unique_loop-IsRest seen [] = record { once = tt; sound = λ y h. elim h [ ]; complete = λ y h e. h }
unique_loop-IsRest seen (x ∷ xs) = elim (Bool-cases (seen x)) [
  | inl s ↦ rw s (seen-IsRest seen x xs _ s (unique_loop-IsRest seen xs))
  | inr s ↦ rw s (new-IsRest seen x xs _ s (unique_loop-IsRest (mark x seen) xs))
]

-- `unique` returns the elements of the slice that it is given, and no others, each of them once.
pub unique-IsOnce :
    (xs : List Text) → IsOnce (unique xs) × ((y : Text) → Among y (unique xs) ↔ Among y xs)
unfolding unique
unique-IsOnce xs =
    let r = unique_loop-IsRest (λ x. false) xs in
    (r.once, λ y. (λ h. (r.sound y h).0, λ h. r.complete y h refl))
