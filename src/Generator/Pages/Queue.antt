-- ===== src/Generator/Pages/Queue.antt =====
-- tools/io_elements_gen.go: the addresses that `loadPagesRecursively` adds to its list.
use teltonika.Prelude.{
  ℕ, ◌+◌, ◌≤◌, ◌<◌, ◌≡◌, ◌⊎◌, refl, sym, ap, ◌∙◌, arith, inl, inr, true, false, List, [], ◌∷◌, ◌++◌,
  length, append_assoc, append-nil, length-append, Bool-cases, if◌then◌else◌,
}
use teltonika.IoElements.{Text, same_text}
use teltonika.IoElements.Lookup.{Among, same_text_refl, same_text_eq}
use teltonika.Generator.{contains}
use teltonika.Generator.Rows.{is_empty}
use teltonika.Generator.Pages.{add_link, add_links}

-- Each address stands in the list for the first time.
abbrev pub IsNew : List Text → List Text → Type 0
IsNew before [] = Unit {0}
IsNew before (u ∷ us) = (contains before u ≡ false) × IsNew (before ++ u ∷ []) us

-- What a list grew to.
pub record Grows (before after : List Text) : Type 0 where
  pub extra : List Text
  pub shape : after ≡ before ++ extra
  pub new : IsNew before extra

contains-append :
    (us vs : List Text) (x : Text) → contains us x ≡ true → contains (us ++ vs) x ≡ true
unfolding contains
contains-append [] vs x h = absurd (cc h)
contains-append (u ∷ us) vs x h = elim (Bool-cases (same_text u x)) [
  | inl same ↦ rw same refl
  | inr differs ↦ rw differs (contains-append us vs x (rw differs at h))
]

contains-last : (us : List Text) (x : Text) → contains (us ++ x ∷ []) x ≡ true
unfolding contains
contains-last [] x = rw (same_text_refl x) refl
contains-last (u ∷ us) x = elim (Bool-cases (same_text u x)) [
  | inl same ↦ rw same refl
  | inr differs ↦ rw differs (contains-last us x)
]

contains-last_cases :
    (us : List Text) (u x : Text)
    → contains (us ++ u ∷ []) x ≡ true
    → (contains us x ≡ true) ⊎ (x ≡ u)
unfolding contains
contains-last_cases [] u x h = elim (Bool-cases (same_text u x)) [
  | inl same ↦ inr (sym (same_text_eq u x same))
  | inr differs ↦ absurd (cc (rw differs at h))
]
contains-last_cases (v ∷ us) u x h = elim (Bool-cases (same_text v x)) [
  | inl same ↦ inl (rw same refl)
  | inr differs ↦ rw differs (contains-last_cases us u x (rw differs at h))
]

IsNew-last :
    (before us : List Text) (u : Text)
    → IsNew before us
    → contains (before ++ us) u ≡ false
    → IsNew before (us ++ u ∷ [])
IsNew-last before [] u h new = (rw append-nil at new, tt)
IsNew-last before (v ∷ us) u (first, h) new =
    (first, IsNew-last (before ++ v ∷ []) us u h (rw (append_assoc before (v ∷ []) us) new))

pub Grows-same : (us : List Text) → Grows us us
Grows-same us = record { extra = []; shape = sym (append-nil us); new = tt }

Grows-last :
    (before us : List Text) (u : Text)
    → contains us u ≡ false
    → Grows before us
    → Grows before (us ++ u ∷ [])
Grows-last before us u new g = record {
  extra = g.extra ++ u ∷ [];
  shape = ap (λ (l : List Text). l ++ u ∷ []) g.shape ∙ append_assoc before g.extra (u ∷ []);
  new = IsNew-last before g.extra u g.new (rw g.shape at new);
}

add_link_rule {ℓ} :
    (P : List Text → Type ℓ) (urls : List Text) (l : Text)
    → (is_empty l ≡ false → contains urls l ≡ false → P (urls ++ l ∷ []))
    → P urls
    → P (add_link urls l)
unfolding add_link
add_link_rule P urls l keep h = elim (Bool-cases (is_empty l)) [
  | inl empty ↦ rw empty h
  | inr full ↦ elim (Bool-cases (contains urls l)) [
    | inl known ↦ rw (full, known) h
    | inr new ↦ rw (full, new) (keep full new)
  ]
]

-- A property that a new address from the links keeps holds behind the loop.
pub add_links_rule {ℓ} :
    (P : List Text → Type ℓ) (urls ls : List Text)
    → ((us : List Text) (u : Text)
        → Among u ls
        → is_empty u ≡ false
        → contains us u ≡ false
        → P us
        → P (us ++ u ∷ []))
    → P urls
    → P (add_links urls ls)
unfolding add_links
add_links_rule P urls [] keep h = h
add_links_rule P urls (l ∷ ls) keep h =
    add_links_rule P (add_link urls l) ls (λ us u m. keep us u (inr m))
      (add_link_rule P urls l (λ full new. keep urls l (inl refl) full new h) h)

pub Grows-add_links :
    (before urls ls : List Text) → Grows before urls → Grows before (add_links urls ls)
Grows-add_links before urls ls =
    add_links_rule (Grows before) urls ls (λ us u m full new. Grows-last before us u new)

pub contains-add_links :
    (urls ls : List Text) (x : Text)
    → contains urls x ≡ true
    → contains (add_links urls ls) x ≡ true
contains-add_links urls ls x =
    add_links_rule (λ us. contains us x ≡ true) urls ls
      (λ us u m full new. contains-append us (u ∷ []) x)

add_link-contains :
    (urls : List Text) (l : Text) → is_empty l ≡ false → contains (add_link urls l) l ≡ true
unfolding add_link
add_link-contains urls l full = elim (Bool-cases (contains urls l)) [
  | inl known ↦ rw (full, known) known
  | inr new ↦ rw (full, new) (contains-last urls l)
]

-- Every link is in the list behind the loop.
pub add_links-contains :
    (urls ls : List Text) (x : Text)
    → Among x ls
    → is_empty x ≡ false
    → contains (add_links urls ls) x ≡ true
unfolding add_links
add_links-contains urls [] x m full = elim m [ ]
add_links-contains urls (l ∷ ls) x (inl same) full =
    contains-add_links (add_link urls l) ls x
      (rw (same, add_link-contains urls l (rw same at full)) refl)
add_links-contains urls (l ∷ ls) x (inr m) full = add_links-contains (add_link urls l) ls x m full

-- An address in the list behind the loop was there before, or it is a link.
pub add_links_origin :
    (urls ls : List Text) (x : Text)
    → contains (add_links urls ls) x ≡ true
    → (contains urls x ≡ true) ⊎ Among x ls
add_links_origin urls ls x =
    add_links_rule (λ us. contains us x ≡ true → (contains urls x ≡ true) ⊎ Among x ls) urls ls
      (λ us u m full new before h. elim (contains-last_cases us u x h) [
        | inl old ↦ before old
        | inr same ↦ inr (rw same m)
      ])
      (λ h. inl h)

-- How many of the addresses are not in the list.
pub missing : List Text → List Text → ℕ
missing [] urls = 0
missing (u ∷ us) urls = (if contains urls u then 0 else 1) + missing us urls

missing_one :
    (u : Text) (urls : List Text) (x : Text)
    → (if contains (urls ++ x ∷ []) u then 0 else 1) ≤ (if contains urls u then 0 else 1)
missing_one u urls x = elim (Bool-cases (contains urls u)) [
  | inl known ↦ rw (known, contains-append urls (x ∷ []) u known) (omega arith)
  | inr new ↦ rw new (ground arith)
]

missing-le : (us urls : List Text) (x : Text) → missing us (urls ++ x ∷ []) ≤ missing us urls
unfolding missing
missing-le [] urls x = omega arith
missing-le (u ∷ us) urls x = omega (arith, missing_one u urls x, missing-le us urls x)

missing-lt :
    (us urls : List Text) (x : Text)
    → contains us x ≡ true
    → contains urls x ≡ false
    → missing us (urls ++ x ∷ []) < missing us urls
unfolding missing contains
missing-lt [] urls x h new = absurd (cc h)
missing-lt (u ∷ us) urls x h new = elim (Bool-cases (same_text u x)) [
  | inl same ↦
      rw (same_text_eq u x same, new, contains-last urls x) (omega (arith, missing-le us urls x))
  | inr differs ↦ omega (arith, missing_one u urls x, missing-lt us urls x (rw differs at h) new)
]

-- The list grows by no more than what is missing from it.
pub add_links-missing :
    (universe urls ls : List Text) (bound : ℕ)
    → ((u : Text) → Among u ls → is_empty u ≡ false → contains universe u ≡ true)
    → length urls + missing universe urls ≤ bound
    → length (add_links urls ls) + missing universe (add_links urls ls) ≤ bound
add_links-missing universe urls ls bound within =
    add_links_rule (λ us. length us + missing universe us ≤ bound) urls ls
      (λ us u m full new h.
        omega (arith, missing-lt universe us u (within u m full) new, length-append us (u ∷ [])))

pub missing_bound : (us urls : List Text) → missing us urls ≤ length us
unfolding missing
missing_bound [] urls = omega arith
missing_bound (u ∷ us) urls = ground (arith, missing_bound us urls)
