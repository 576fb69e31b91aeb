-- ===== src/Util/Crc/Bitwise.antt =====
-- The checksum by the polynomial division that defines it, one bit at a time, and the proof that
-- the table-driven `Crc16IBM` computes it.
use Prim.Native.Nat.{bit_xor}
use native.Mathlib.Nat.{pow-suc}
use mathlib.Core.Option
use teltonika.Prelude.{
  ℕ, zero, suc, ◌+◌, ◌*◌, ◌/◌, ◌%◌, ◌^◌, ◌<◌, ◌≡◌, refl, arith, sym, ap, ◌∙◌, Bool, true, ◌&&◌,
  List, [], ◌∷◌, get_or, All, ◌==◌, if◌then◌else◌,
}
use teltonika.Bytes.{IsByte}
use teltonika.Util.Crc.{update_crc, crc_loop, crc16_ibm, crc16_ibm_lookup_table}
use teltonika.Util.Crc.Bits.{
  bit_xor_comm, bit_xor_assoc, bit_xor-zero, bit_xor_parts, bit_xor_split, bit_and_byte, bit_xor-lt,
}

-- The division step: a register of 16 bits shifts right, and the polynomial is added if the bit
-- that falls out is one.
pub divide_bit : ℕ → ℕ
divide_bit x = if x % 2 == 1 then bit_xor (x / 2) 0xa001 else x / 2

pub divide_bits : ℕ → ℕ → ℕ
divide_bits zero x = x
divide_bits (suc n) x = divide_bits n (divide_bit x)

-- The remainder after one more byte, and after a message.
pub remainder_loop : ℕ → List ℕ → ℕ
remainder_loop crc [] = crc
remainder_loop crc (b ∷ bs) = remainder_loop (divide_bits 8 (bit_xor crc b)) bs

swap_middle :
    (a b c d : ℕ) → bit_xor (bit_xor a b) (bit_xor c d) ≡ bit_xor (bit_xor a c) (bit_xor b d)
swap_middle a b c d = rw (
  bit_xor_assoc a b (bit_xor c d),
  ← bit_xor_assoc b c d,
  bit_xor_comm b c,
  bit_xor_assoc c b d,
  ← bit_xor_assoc a c (bit_xor b d),
)

-- What is added for the bit that falls out.
abbrev feedback : ℕ → ℕ
feedback zero = 0
feedback (suc n) = 0xa001

divide_bit_lem : (x : ℕ) → divide_bit x ≡ bit_xor (x / 2) (feedback (x % 2))
unfolding divide_bit
divide_bit_lem x = go (x % 2) (omega arith)
  where
    go :
        (p : ℕ)
        → p < 2
        → (if p == 1 then bit_xor (x / 2) 0xa001 else x / 2) ≡ bit_xor (x / 2) (feedback p)
    go zero h = sym (bit_xor-zero (x / 2))
    go (suc zero) h = refl
    go (suc (suc p)) h = absurd (omega arith)

feedback_sum :
    (p q : ℕ) → p < 2 → q < 2 → feedback ((p + q) % 2) ≡ bit_xor (feedback p) (feedback q)
feedback_sum zero zero h k = refl
feedback_sum zero (suc zero) h k = refl
feedback_sum (suc zero) zero h k = refl
feedback_sum (suc zero) (suc zero) h k = refl
feedback_sum zero (suc (suc q)) h k = absurd (omega arith)
feedback_sum (suc zero) (suc (suc q)) h k = absurd (omega arith)
feedback_sum (suc (suc p)) q h k = absurd (omega arith)

-- Division is linear.
divide_bit-bit_xor : (x y : ℕ) → divide_bit (bit_xor x y) ≡ bit_xor (divide_bit x) (divide_bit y)
divide_bit-bit_xor x y =
    rw
      (
        divide_bit_lem (bit_xor x y),
        divide_bit_lem x,
        divide_bit_lem y,
        (bit_xor_parts x y).0,
        (bit_xor_parts x y).1,
        feedback_sum (x % 2) (y % 2) (omega arith) (omega arith),
      )
      (swap_middle (x / 2) (y / 2) (feedback (x % 2)) (feedback (y % 2)))

divide_bits-bit_xor :
    (n x y : ℕ) → divide_bits n (bit_xor x y) ≡ bit_xor (divide_bits n x) (divide_bits n y)
unfolding divide_bits
divide_bits-bit_xor zero x y = refl
divide_bits-bit_xor (suc n) x y =
    rw (divide_bit-bit_xor x y) (divide_bits-bit_xor n (divide_bit x) (divide_bit y))

-- Bits that are zero fall out without a trace.
divide_bit_even : (x : ℕ) → divide_bit (2 * x) ≡ x
divide_bit_even x =
    let half : 2 * x / 2 ≡ x = omega arith in
    let even : 2 * x % 2 ≡ 0 = omega arith in
    divide_bit_lem (2 * x) ∙ rw (half, even) (bit_xor-zero x)

divide_bits_shift : (n x : ℕ) → divide_bits n (x * 2 ^ n) ≡ x
unfolding divide_bits
divide_bits_shift zero x = omega arith
divide_bits_shift (suc n) x =
    let double : x * 2 ^ suc n ≡ 2 * (x * 2 ^ n) = rw (pow-suc 2 n) (omega arith) in
    rw (double, divide_bit_even (x * 2 ^ n)) (divide_bits_shift n x)

-- Dividing a number takes its high part down and adds the division of its low part.
divide_bits_split :
    (n hi lo : ℕ) → lo < 2 ^ n → divide_bits n (hi * 2 ^ n + lo) ≡ bit_xor hi (divide_bits n lo)
divide_bits_split n hi lo h =
    rw (← bit_xor_split n hi lo h, divide_bits-bit_xor n (hi * 2 ^ n) lo, divide_bits_shift n hi)

-- The table that `genCrc16IBMLookupTable` builds holds the division of each byte.
agrees : List ℕ → ℕ → Bool
agrees table zero = true
agrees table (suc n) = get_or table n 0 == divide_bits 8 n && agrees table n

agrees_sound :
    (table : List ℕ) (n i : ℕ) → agrees table n ≡ true → i < n → get_or table i 0 ≡ divide_bits 8 i
unfolding agrees
agrees_sound table zero i h lt = absurd (omega arith)
agrees_sound table (suc n) i h lt = ground (arith, agrees_sound table n i)

table_agrees : agrees crc16_ibm_lookup_table 256 ≡ true
unfolding agrees crc16_ibm_lookup_table divide_bits divide_bit Option.bind
table_agrees = refl

pub table_lem : (i : ℕ) → i < 256 → get_or crc16_ibm_lookup_table i 0 ≡ divide_bits 8 i
table_lem i = agrees_sound crc16_ibm_lookup_table 256 i table_agrees

high_byte : (x b : ℕ) → b < 256 → bit_xor x b / 256 ≡ x / 256
high_byte x b h =
    let low_lt : bit_xor (x % 256) b < 2 ^ 8 = bit_xor-lt 8 (x % 256) b (omega arith) h in
    let parts : x ≡ x / 256 * 2 ^ 8 + x % 256 = omega arith in
    let whole : bit_xor x b ≡ x / 256 * 2 ^ 8 + bit_xor (x % 256) b =
      ap (λ (t : ℕ). bit_xor t b) (parts ∙ sym (bit_xor_split 8 (x / 256) (x % 256) (omega arith)))
      ∙ bit_xor_assoc (x / 256 * 2 ^ 8) (x % 256) b
      ∙ bit_xor_split 8 (x / 256) (bit_xor (x % 256) b) low_lt in
    omega arith

update_crc_lem :
    (crc b : ℕ) → b < 256 → update_crc crc16_ibm_lookup_table crc b ≡ divide_bits 8 (bit_xor crc b)
unfolding update_crc
update_crc_lem crc b h =
    let x = bit_xor crc b in
    let parts : x ≡ x / 256 * 2 ^ 8 + x % 256 = omega arith in
    rw (
      bit_and_byte x,
      table_lem (x % 256) (omega arith),
      ← high_byte crc b h,
      ← divide_bits_split 8 (x / 256) (x % 256) (omega arith),
      ← parts,
    )

crc_loop-remainder :
    (crc : ℕ) (bytes : List ℕ)
    → All IsByte bytes
    → crc_loop crc16_ibm_lookup_table crc bytes ≡ remainder_loop crc bytes
unfolding crc_loop remainder_loop
crc_loop-remainder crc [] h = refl
crc_loop-remainder crc (b ∷ bs) (hb, hbs) =
    rw (update_crc_lem crc b hb) (crc_loop-remainder (divide_bits 8 (bit_xor crc b)) bs hbs)

-- On any bytes the table-driven checksum is the remainder of the polynomial division, which takes
-- the message one bit at a time.
pub crc16_ibm-remainder :
    (bytes : List ℕ) → All IsByte bytes → crc16_ibm bytes ≡ remainder_loop 0 bytes
unfolding crc16_ibm
crc16_ibm-remainder = crc_loop-remainder 0

divide_bit-lt : (x : ℕ) → x < 2 ^ 16 → divide_bit x < 2 ^ 16
divide_bit-lt x h = rw (divide_bit_lem x) (bit_xor-lt 16 _ _ (omega arith) (feedback-lt (x % 2)))
  where
    feedback-lt : (p : ℕ) → feedback p < 2 ^ 16
    feedback-lt zero = omega arith
    feedback-lt (suc p) = omega arith

-- The register keeps its width.
pub divide_bits-lt : (n x : ℕ) → x < 2 ^ 16 → divide_bits n x < 2 ^ 16
unfolding divide_bits
divide_bits-lt zero x h = h
divide_bits-lt (suc n) x h = divide_bits-lt n (divide_bit x) (divide_bit-lt x h)
