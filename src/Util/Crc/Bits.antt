-- ===== src/Util/Crc/Bits.antt =====
-- Laws of exclusive or on numbers of any width, from its recursion on binary digits.
use Prim.Native.Nat.{bit_and, bit_xor, digits, differ, min, bit_xor-bitwise, bit_and-bitwise}
use teltonika.Prelude.{ℕ, zero, suc, ◌+◌, ◌*◌, ◌/◌, ◌%◌, ◌^◌, ◌≤◌, ◌<◌, ◌≡◌, refl, arith, sym, ◌∙◌}
use native.Mathlib.Nat.{le_refl, pow-suc}

-- The recursion on digits takes fuel; any two amounts that suffice agree.
module _ (z : ℕ → ℕ) (f : ℕ → ℕ → ℕ) where
  enough_digits : (n m a b : ℕ) → a ≤ n → a ≤ m → digits z f n a b ≡ digits z f m a b
  enough_digits zero zero zero b p q = refl
  enough_digits zero (suc m) zero b p q = refl
  enough_digits (suc n) zero zero b p q = refl
  enough_digits (suc n) (suc m) zero b p q = refl
  enough_digits zero m (suc a) b p q = absurd (omega arith)
  enough_digits (suc n) zero (suc a) b p q = absurd (omega arith)
  enough_digits (suc n) (suc m) (suc a) b p q =
      rw (enough_digits n m (suc a / 2) (b / 2) (omega arith) (omega arith))

zero-bit_xor : (b : ℕ) → bit_xor 0 b ≡ b
zero-bit_xor b = bit_xor-bitwise 0 b

bit_xor_digit : (a b : ℕ) → bit_xor a b ≡ bit_xor (a / 2) (b / 2) * 2 + differ (a % 2) (b % 2)
bit_xor_digit zero b = omega (arith, zero-bit_xor b, zero-bit_xor (b / 2))
bit_xor_digit (suc a) b =
    rw
      (
        bit_xor-bitwise (suc a) b,
        bit_xor-bitwise (suc a / 2) (b / 2),
        enough_digits (λ y. y) differ a (suc a / 2) (suc a / 2) (b / 2) (omega arith) (le_refl _),
      )
      refl

differ_parity : (x y : ℕ) → x < 2 → y < 2 → differ x y ≡ (x + y) % 2
differ_parity zero y p q = omega arith
differ_parity (suc zero) zero p q = omega arith
differ_parity (suc zero) (suc zero) p q = omega arith
differ_parity (suc zero) (suc (suc y)) p q = absurd (omega arith)
differ_parity (suc (suc x)) y p q = absurd (omega arith)

bit_xor-zero_fuel : (n a : ℕ) → a ≤ n → bit_xor a 0 ≡ a
bit_xor-zero_fuel n zero h = refl
bit_xor-zero_fuel zero (suc a) h = absurd (omega arith)
bit_xor-zero_fuel (suc n) (suc a) h = omega (
  arith,
  bit_xor_digit (suc a) 0,
  bit_xor-zero_fuel n (suc a / 2) (omega arith),
  differ_parity (suc a % 2) 0 (omega arith) (omega arith),
)

pub bit_xor-zero : (a : ℕ) → bit_xor a 0 ≡ a
bit_xor-zero a = bit_xor-zero_fuel a a (le_refl a)

-- The lowest digit and the rest of an exclusive or.
pub bit_xor_parts :
    (a b : ℕ)
    → (bit_xor a b / 2 ≡ bit_xor (a / 2) (b / 2)) × (bit_xor a b % 2 ≡ (a % 2 + b % 2) % 2)
bit_xor_parts a b =
    omega (arith, bit_xor_digit a b, differ_parity (a % 2) (b % 2) (omega arith) (omega arith))

halves_eq : (a b : ℕ) → a / 2 ≡ b / 2 → a % 2 ≡ b % 2 → a ≡ b
halves_eq a b p q = omega arith

bit_xor-lt_suc : (m a b : ℕ) → bit_xor (a / 2) (b / 2) < m → bit_xor a b < 2 * m
bit_xor-lt_suc m a b h = omega (arith, bit_xor_parts a b)

pub bit_xor-lt : (k a b : ℕ) → a < 2 ^ k → b < 2 ^ k → bit_xor a b < 2 ^ k
bit_xor-lt zero a b p q =
    let ea : a ≡ 0 = omega arith in let eb : b ≡ 0 = omega arith in rw (ea, eb) (omega arith)
bit_xor-lt (suc k) a b p q = rw (pow-suc 2 k) (
    omega (
      arith,
      pow-suc 2 k,
      bit_xor-lt_suc (2 ^ k) a b
          (bit_xor-lt k (a / 2) (b / 2) (omega (arith, pow-suc 2 k)) (omega (arith, pow-suc 2 k))),
    ))

bit_xor_comm_fuel : (n a b : ℕ) → a ≤ n → bit_xor a b ≡ bit_xor b a
bit_xor_comm_fuel n zero b h = zero-bit_xor b ∙ sym (bit_xor-zero b)
bit_xor_comm_fuel zero (suc a) b h = absurd (omega arith)
bit_xor_comm_fuel (suc n) (suc a) b h = omega (
  arith,
  bit_xor_parts (suc a) b,
  bit_xor_parts b (suc a),
  bit_xor_comm_fuel n (suc a / 2) (b / 2) (omega arith),
)

pub bit_xor_comm : (a b : ℕ) → bit_xor a b ≡ bit_xor b a
bit_xor_comm a b = bit_xor_comm_fuel a a b (le_refl a)

bit_xor_assoc_fuel : (n a b c : ℕ) → a ≤ n → bit_xor (bit_xor a b) c ≡ bit_xor a (bit_xor b c)
bit_xor_assoc_fuel n zero b c h = rw (zero-bit_xor b, zero-bit_xor (bit_xor b c))
bit_xor_assoc_fuel zero (suc a) b c h = absurd (omega arith)
bit_xor_assoc_fuel (suc n) (suc a) b c h =
    halves_eq _ _
      (rw (
        (bit_xor_parts (bit_xor (suc a) b) c).0,
        (bit_xor_parts (suc a) b).0,
        bit_xor_assoc_fuel n (suc a / 2) (b / 2) (c / 2) (omega arith),
        (bit_xor_parts (suc a) (bit_xor b c)).0,
        (bit_xor_parts b c).0,
      ))
      (omega (
        arith,
        bit_xor_parts (bit_xor (suc a) b) c,
        bit_xor_parts (suc a) b,
        bit_xor_parts (suc a) (bit_xor b c),
        bit_xor_parts b c,
      ))

pub bit_xor_assoc : (a b c : ℕ) → bit_xor (bit_xor a b) c ≡ bit_xor a (bit_xor b c)
bit_xor_assoc a b c = bit_xor_assoc_fuel a a b c (le_refl a)

bit_xor_self_fuel : (n a : ℕ) → a ≤ n → bit_xor a a ≡ 0
bit_xor_self_fuel n zero h = refl
bit_xor_self_fuel zero (suc a) h = absurd (omega arith)
bit_xor_self_fuel (suc n) (suc a) h =
    omega (arith, bit_xor_parts (suc a) (suc a), bit_xor_self_fuel n (suc a / 2) (omega arith))

bit_xor_self : (a : ℕ) → bit_xor a a ≡ 0
bit_xor_self a = bit_xor_self_fuel a a (le_refl a)

-- A number and the part below 2 ^ k.
bit_xor_split_suc :
    (m hi lo : ℕ)
    → bit_xor (hi * m) (lo / 2) ≡ hi * m + lo / 2
    → bit_xor (2 * (hi * m)) lo ≡ 2 * (hi * m) + lo
bit_xor_split_suc m hi lo h =
    let e : 2 * (hi * m) / 2 ≡ hi * m = omega arith in
    omega (arith, bit_xor_parts (2 * (hi * m)) lo, rw (← e) at h)

pub bit_xor_split : (k hi lo : ℕ) → lo < 2 ^ k → bit_xor (hi * 2 ^ k) lo ≡ hi * 2 ^ k + lo
bit_xor_split zero hi lo h =
    let e : lo ≡ 0 = omega arith in rw e (bit_xor-zero (hi * 2 ^ 0) ∙ omega arith)
bit_xor_split (suc k) hi lo h =
    let double : hi * 2 ^ suc k ≡ 2 * (hi * 2 ^ k) = rw (pow-suc 2 k) (omega arith) in
    rw double
      (bit_xor_split_suc (2 ^ k) hi lo (bit_xor_split k hi (lo / 2) (omega (arith, pow-suc 2 k))))

-- The mask of the low byte.
bit_and_digit : (a b : ℕ) → bit_and a b ≡ bit_and (a / 2) (b / 2) * 2 + min (a % 2) (b % 2)
bit_and_digit zero b = omega (arith, bit_and-bitwise 0 b, bit_and-bitwise 0 (b / 2))
bit_and_digit (suc a) b =
    rw
      (
        bit_and-bitwise (suc a) b,
        bit_and-bitwise (suc a / 2) (b / 2),
        enough_digits (λ y. 0) min a (suc a / 2) (suc a / 2) (b / 2) (omega arith) (le_refl _),
      )
      refl

mask_zero : (k x : ℕ) → x ≤ k → bit_and x 0 ≡ 0
mask_zero k zero le = refl
mask_zero zero (suc x) le = absurd (omega arith)
mask_zero (suc k) (suc x) le =
    let half = mask_zero k (suc x / 2) (omega arith) in
    bit_and_digit (suc x) 0 ∙ rw half (omega arith)

-- The lowest digit alone.
bit_and_one : (a : ℕ) → bit_and a 1 ≡ a % 2
bit_and_one a = bit_and_digit a 1 ∙ rw (mask_zero (a / 2) (a / 2) (le_refl _)) (omega arith)

-- A mask one digit wider.
widen : (a m : ℕ) → bit_and a (2 * m + 1) ≡ 2 * bit_and (a / 2) m + a % 2
widen a m =
    let e : (2 * m + 1) / 2 ≡ m = omega arith in
    let o : (2 * m + 1) % 2 ≡ 1 = omega arith in
    bit_and_digit a (2 * m + 1) ∙ rw (e, o) (omega arith)

pub bit_and_byte : (a : ℕ) → bit_and a 0xff ≡ a % 256
bit_and_byte a = omega (
  arith,
  widen a 127,
  widen (a / 2) 63,
  widen (a / 2 / 2) 31,
  widen (a / 2 / 2 / 2) 15,
  widen (a / 2 / 2 / 2 / 2) 7,
  widen (a / 2 / 2 / 2 / 2 / 2) 3,
  widen (a / 2 / 2 / 2 / 2 / 2 / 2) 1,
  bit_and_one (a / 2 / 2 / 2 / 2 / 2 / 2 / 2),
)
