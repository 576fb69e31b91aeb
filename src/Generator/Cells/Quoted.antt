-- ===== src/Generator/Cells/Quoted.antt =====
-- tools/io_elements_gen.go: what `asText` makes of a text in quotation marks.
use teltonika.Prelude.{
  ℕ, suc, ◌+◌, ◌-◌, ◌≡◌, refl, ap, arith, false, List, [], ◌∷◌, ◌++◌, All, length, take, get_or,
  lt→ltb, ◌==◌,
}
use teltonika.IoElements.{Text, same_text}
use teltonika.Texts.{trim, trim_left, IsKept, trim_right-kept}
use teltonika.Generator.Cells.{
  quote, is_trimmed, trim_blank, space_size, collapse, count_byte, unquoted, as_text,
}

-- A byte that is no blank and does not begin one.
record IsInk (c : ℕ) : Type 0 where
  trimmed : is_trimmed c ≡ false
  narrow : (c == 0xe2) ≡ false
  wide : (c == 0xc2) ≡ false

-- Nor is it a quotation mark.
pub record IsPlain (c : ℕ) : Type 0 where
  pub trimmed : is_trimmed c ≡ false
  pub narrow : (c == 0xe2) ≡ false
  pub wide : (c == 0xc2) ≡ false
  pub unmarked : (c == quote) ≡ false

All-append {ℓ κ} :
    {A : Type ℓ} (P : A → Type κ) (xs ys : List A) → All P xs → All P ys → All P (xs ++ ys)
All-append P [] ys h k = k
All-append P (x ∷ xs) ys (p, h) k = (p, All-append P xs ys h k)

plain-IsInk : (t : Text) → All IsPlain t → All IsInk t
plain-IsInk [] h = tt
plain-IsInk (c ∷ cs) (p, h) =
    (record { trimmed = p.trimmed; narrow = p.narrow; wide = p.wide }, plain-IsInk cs h)

quote-IsInk : IsInk quote
unfolding is_trimmed
quote-IsInk = record { trimmed = refl; narrow = refl; wide = refl }

ink-IsKept : (t : Text) → All IsInk t → All (IsKept is_trimmed) t
ink-IsKept [] h = tt
ink-IsKept (c ∷ cs) (p, h) = (p.trimmed, ink-IsKept cs h)

space_size-ink : (c : ℕ) (cs : Text) → IsInk c → space_size (c ∷ cs) ≡ 0
unfolding space_size is_trimmed
space_size-ink c cs p = ground (arith, p.trimmed, p.narrow, p.wide)

collapse-ink : (t : Text) → All IsInk t → collapse false 0 t ≡ t
unfolding collapse
collapse-ink [] h = refl
collapse-ink (c ∷ cs) (p, h) =
    rw (space_size-ink c cs p, collapse) (ap (λ (r : Text). c ∷ r) (collapse-ink cs h))

count_byte-plain : (t : Text) → All IsPlain t → count_byte quote t ≡ 0
unfolding count_byte
count_byte-plain [] h = refl
count_byte-plain (c ∷ cs) (p, h) = rw (p.unmarked, count_byte-plain cs h) refl

pub count_byte-append :
    (b : ℕ) (t u : Text) → count_byte b (t ++ u) ≡ count_byte b t + count_byte b u
unfolding count_byte
count_byte-append b [] u = omega arith
count_byte-append b (c ∷ cs) u = ground (arith, count_byte-append b cs u)

count_byte-quoted : (u : Text) → All IsPlain u → count_byte quote (quote ∷ u ++ quote ∷ []) ≡ 2
unfolding count_byte
count_byte-quoted u h = rw (count_byte-append quote u (quote ∷ []), count_byte-plain u h) refl

get_or-quoted : (t : Text) (c : ℕ) → get_or ((t ++ c ∷ []) ++ quote ∷ []) (suc (length t)) 0 ≡ quote
get_or-quoted [] c = refl
get_or-quoted (d ∷ t) c = get_or-quoted t c

take-quoted : (t : Text) (c : ℕ) → take (length t) ((t ++ c ∷ []) ++ quote ∷ []) ≡ t
take-quoted [] c = refl
take-quoted (d ∷ t) c = ap (λ (r : Text). d ∷ r) (take-quoted t c)

length-quoted : (t : Text) (c : ℕ) → length ((t ++ c ∷ []) ++ quote ∷ []) ≡ suc (suc (length t))
length-quoted [] c = refl
length-quoted (d ∷ t) c = ap suc (length-quoted t c)

trim_blank-quoted :
    (t : Text) → All IsPlain t → trim_blank (quote ∷ t ++ quote ∷ []) ≡ quote ∷ t ++ quote ∷ []
unfolding trim_blank trim trim_left is_trimmed
trim_blank-quoted t h =
    trim_right-kept is_trimmed (quote ∷ t) quote
      (quote-IsInk.trimmed, ink-IsKept t (plain-IsInk t h)) quote-IsInk.trimmed

collapse-quoted :
    (t : Text)
    → All IsPlain t
    → collapse false 0 (quote ∷ t ++ quote ∷ []) ≡ quote ∷ t ++ quote ∷ []
collapse-quoted t h =
    collapse-ink (quote ∷ t ++ quote ∷ [])
      (quote-IsInk, All-append IsInk t (quote ∷ []) (plain-IsInk t h) (quote-IsInk, tt))

unquoted-quoted :
    (t : Text) (c : ℕ)
    → All IsPlain (t ++ c ∷ [])
    → unquoted (quote ∷ (t ++ c ∷ []) ++ quote ∷ []) ≡ t
unfolding unquoted
unquoted-quoted t c h =
    let n = length t in
    let above = lt→ltb 2 (suc (suc (suc n))) (omega arith) in
    let one : suc (suc (suc n)) - 1 ≡ suc (suc n) = omega arith in
    let two : suc (suc (suc n)) - 2 ≡ suc n = omega arith in
    rw
      (
        length-quoted t c,
        above,
        count_byte-quoted (t ++ c ∷ []) h,
        one,
        two,
        get_or-quoted t c,
        take-quoted t c,
      )
      refl

-- From a text in quotation marks, without blanks and other quotation marks inside, the last
-- character inside is lost with the marks.
pub as_text-quoted :
    (t : Text) (c : ℕ)
    → All IsPlain (t ++ c ∷ [])
    → as_text (quote ∷ (t ++ c ∷ []) ++ quote ∷ []) ≡ t
unfolding as_text same_text
as_text-quoted t c h =
    rw (trim_blank-quoted _ h, collapse-quoted _ h, trim_blank-quoted _ h) (unquoted-quoted t c h)
