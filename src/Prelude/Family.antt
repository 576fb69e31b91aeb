-- ===== src/Prelude/Family.antt =====
-- Families of states, one for each number: of a handler, a channel or a call.
use Prim.Native.Nat.{ℕ}
use mathlib.Core.Path.{◌≡◌}
use mathlib.Core.Logic.{◌⊎◌, inl, inr}
use teltonika.Prelude.Tests.{◌==◌, ==_iff, ==_refl, Bool-cases, if◌then◌else◌}

module _ {ℓ} {A : Type ℓ} where
  unfoldable pub update : ℕ → A → (ℕ → A) → ℕ → A
  update n a f k = if k == n then a else f k

  pub update_same : (n : ℕ) (a : A) (f : ℕ → A) → update n a f n ≡ a
  unfolding update
  update_same n a f = rw (==_refl n)

  -- A lookup is at the number that was stored, or at another, where nothing changed.
  pub update-cases :
      (n : ℕ) (a : A) (f : ℕ → A) (k : ℕ)
      → ((k ≡ n) × (update n a f k ≡ a)) ⊎ (update n a f k ≡ f k)
  unfolding update
  update-cases n a f k = elim (Bool-cases (k == n)) [
    | inl same ↦ inl ((==_iff k n).0 same, rw same)
    | inr differs ↦ inr (rw differs)
  ]
