-- ===== src/Prelude/Outcome.antt =====
-- The outcome of a Go call that returns (value, error): a value, an error, or a run-time panic.
use Prim.Native.Nat.{ℕ}
use mathlib.Core.Path.{◌≡◌, refl}
use mathlib.Core.Logic.{◌⊎◌, inl, inr}
use mathlib.Core.Option.{Option, none, some}
use mathlib.Core.Bool.{Bool, true, false}

-- A split on a computed option or outcome that keeps the equation.
pub Option-cases {ℓ} : {A : Type ℓ} (o : Option A) → (o ≡ none) ⊎ ((a : A) × (o ≡ some a))
Option-cases none = inl refl
Option-cases (some a) = inr (a, refl)

-- One constructor for each error value that the code builds or passes on, with the numbers that
-- its message prints where they matter.
pub data Error : Type 0 where
  eof : Error
  too_many_arguments : Error
  output_is_nil : Error
  header_too_short : Error
  bad_preamble : ℕ → Error
  too_large : ℕ → Error
  buffer_too_small : ℕ → ℕ → Error
  short_read : ℕ → ℕ → Error
  read_failed : Error
  unsupported_codec : ℕ → Error
  unsupported_type : ℕ → ℕ → Error
  count_mismatch : ℕ → ℕ → Error
  bad_generation_type : ℕ → Error
  too_many_elements : ℕ → ℕ → Error
  bad_crc : ℕ → ℕ → Error
  both_contents : Error
  nothing_to_encode : Error
  too_many_items : ℕ → Error
  event_id_too_large : ℕ → Error
  element_id_too_large : ℕ → ℕ → Error
  bad_element_size : ℕ → ℕ → Error
  bad_hex : Error
  model_not_supported : Error
  element_not_found : ℕ → Error
  undecodable : ℕ → Error
  unknown_generation_type : Error
  client_not_found : Error
  unknown_element_type : Error
  cache_unusable : Error

pub data Result {ℓ} (A : Type ℓ) : Type ℓ where
  ok : A → Result A
  err : Error → Result A
  panic : Result A

abbrev pub and_then {ℓ κ} : {A : Type ℓ} {B : Type κ} → Result A → (A → Result B) → Result B
and_then (ok a) f = f a
and_then (err e) f = err e
and_then panic f = panic

-- `if !b { return e }`
abbrev pub require {ℓ} : {A : Type ℓ} → Bool → Error → Result A → Result A
require true e k = k
require false e k = err e

-- The call returned, with a value or an error.
abbrev pub Returns {ℓ} : {A : Type ℓ} → Result A → Type 0
Returns (ok a) = Unit {0}
Returns (err e) = Unit {0}
Returns panic = ⊥

-- If the call returned a value, the value has the property.
abbrev pub Ensures {ℓ κ} : {A : Type ℓ} → (A → Type κ) → Result A → Type κ
Ensures P (ok a) = P a
Ensures P (err e) = Unit {κ}
Ensures P panic = Unit {κ}

pub Returns-and_then {ℓ κ} :
    {A : Type ℓ} {B : Type κ} (m : Result A) (f : A → Result B)
    → Returns m
    → ((a : A) → m ≡ ok a → Returns (f a))
    → Returns (and_then m f)
Returns-and_then (ok a) f h k = k a refl
Returns-and_then (err e) f h k = tt
Returns-and_then panic f h k = h

pub Result-cases {ℓ} :
    {A : Type ℓ} (r : Result A) → ((a : A) × (r ≡ ok a)) ⊎ ((e : Error) × (r ≡ err e)) ⊎ (r ≡ panic)
Result-cases (ok a) = inl (a, refl)
Result-cases (err e) = inr (inl (e, refl))
Result-cases panic = inr (inr refl)

-- Inversion of a successful chain.
pub and_then-eq-ok {ℓ κ} :
    {A : Type ℓ} {B : Type κ} (m : Result A) (f : A → Result B) {b : B}
    → and_then m f ≡ ok b
    → (a : A) × (m ≡ ok a) × (f a ≡ ok b)
and_then-eq-ok (ok a) f h = (a, refl, h)
and_then-eq-ok (err e) f h = cc
and_then-eq-ok panic f h = cc
