-- ===== src/Prelude/Int.antt =====
-- Signed integers over the native numbers, under the library's names, and their w-bit patterns.
use Prim.Native.Nat.{ℕ, ◌-◌, ◌*◌, ◌%◌, ◌^◌, ◌<◌}
use mathlib.Core.Path.{◌≡◌}
use native.Mathlib.Omega.{arith}
use teltonika.Prelude.Tests.{ltb, if◌then◌else◌}

-- `negsuc n` is -(n + 1).
pub data ℤ : Type 0 where
  pos : ℕ → ℤ
  negsuc : ℕ → ℤ

-- The value of a bit pattern `w` below 2 * half in two's complement: Go's intN(uintN).
abbrev pub to_signed : ℕ → ℕ → ℤ
to_signed half w = if ltb w half then pos w else negsuc (2 * half - w - 1)

-- The bit pattern of an integer: Go's uintN(intN).
abbrev pub to_unsigned : ℕ → ℤ → ℕ
to_unsigned half (pos n) = n % (2 * half)
to_unsigned half (negsuc n) = 2 * half - 1 - n % (2 * half)

-- The range of a signed integer type.
abbrev pub IsSigned : ℕ → ℤ → Type 0
IsSigned half (pos n) = n < half
IsSigned half (negsuc n) = n < half

pub to_signed-to_unsigned_16 :
    (z : ℤ) → IsSigned 32768 z → to_signed 32768 (to_unsigned 32768 z) ≡ z
to_signed-to_unsigned_16 (pos n) h = ground arith
to_signed-to_unsigned_16 (negsuc n) h = ground arith

pub to_unsigned_lt_16 : (z : ℤ) → to_unsigned 32768 z < 65536
to_unsigned_lt_16 (pos n) = omega arith
to_unsigned_lt_16 (negsuc n) = omega arith

pub to_unsigned_lt_32 : (z : ℤ) → to_unsigned 2147483648 z < 2 ^ 32
to_unsigned_lt_32 (pos n) = omega arith
to_unsigned_lt_32 (negsuc n) = omega arith
