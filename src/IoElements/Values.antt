-- ===== src/IoElements/Values.antt =====
-- ioelements.go: `DecodeByDefinition` always returns, and reads the integers of each width.
use teltonika.Prelude.{
  ℕ, zero, suc, ◌++◌, ◌*◌, ◌/◌, ◌%◌, ◌<◌, ◌≡◌, refl, ap, arith, Bool, true, false, ◌&&◌, ◌||◌, List,
  [], ◌∷◌, length, ◌==◌, if◌then◌else◌, Result, ok, and_then, Returns, Returns-and_then,
}
use teltonika.Prelude.Int.{ℤ, pos, negsuc, to_signed, to_unsigned, IsSigned}
use teltonika.Encode.Elements.{is_group_width}
use teltonika.Util.ByteReader.{first}
use teltonika.Util.ByteReader.Bounds.{first_long, uint16_be_long, uint32_be_long, uint64_be_long}
use teltonika.IoElements.{
  Number, IoElementDefinition, uint64, int64, element_unsigned, element_signed, unsigned_value,
  signed_value, scaled, integer_value, decode_value, decode_by_definition, element_hex,
  element_ascii,
}

ok-Returns : {A : Type 0} (m : Result A) → (a : A) × (m ≡ ok a) → Returns m
ok-Returns m (a, e) = rw e tt

pub both-Returns :
    {A : Type 0} (b : Bool) (m n : Result A)
    → (b ≡ true → Returns m)
    → (b ≡ false → Returns n)
    → Returns (if b then m else n)
both-Returns true m n h k = h refl
both-Returns false m n h k = k refl

and_left : (a b : Bool) → (a && b) ≡ true → a ≡ true
and_left true b h = refl
and_left false b h = h

unsigned_value-Returns :
    (buffer : List ℕ) → is_group_width (length buffer) ≡ true → Returns (unsigned_value buffer)
unfolding unsigned_value
unsigned_value-Returns buffer h =
    both-Returns (length buffer == 1) _ _ (λ e. ok-Returns _ (first_long buffer (ground arith)))
      λ n₁.
        both-Returns (length buffer == 2) _ _
          (λ e. ok-Returns _ (uint16_be_long buffer (ground arith)))
          λ n₂.
            both-Returns (length buffer == 4) _ _
              (λ e. ok-Returns _ (uint32_be_long buffer (ground arith)))
              λ n₃. ok-Returns _ (uint64_be_long buffer (ground arith))

signed_value-Returns :
    (buffer : List ℕ) → is_group_width (length buffer) ≡ true → Returns (signed_value buffer)
unfolding signed_value
signed_value-Returns buffer h =
    both-Returns (length buffer == 1) _ _ (λ e. chain _ _ (first_long buffer (ground arith)))
      λ n₁.
        both-Returns (length buffer == 2) _ _
          (λ e. chain _ _ (uint16_be_long buffer (ground arith)))
          λ n₂.
            both-Returns (length buffer == 4) _ _
              (λ e. chain _ _ (uint32_be_long buffer (ground arith)))
              λ n₃. chain _ _ (uint64_be_long buffer (ground arith))
  where
    chain :
        (half : ℕ) (m : Result ℕ)
        → (a : ℕ) × (m ≡ ok a)
        → Returns (and_then m (λ v. ok (to_signed half v)))
    chain half m (a, e) = rw e tt

-- The bytes of a number, the high ones first.
pub big_endian : ℕ → ℕ → List ℕ
big_endian zero n = []
big_endian (suc k) n = big_endian k (n / 256) ++ (n % 256 ∷ [])

-- The widths of integers, with half the range of the width.
pub data IsWidth : ℕ → ℕ → Type 0 where
  one_byte : IsWidth 1 128
  two_bytes : IsWidth 2 32768
  four_bytes : IsWidth 4 2147483648
  eight_bytes : IsWidth 8 9223372036854775808

unsigned_value-big_endian :
    (w half n : ℕ) → IsWidth w half → n < 2 * half → unsigned_value (big_endian w n) ≡ ok n
unfolding unsigned_value big_endian
unsigned_value-big_endian w half n one_byte h = ap ok (omega arith)
unsigned_value-big_endian w half n two_bytes h = ap ok (omega arith)
unsigned_value-big_endian w half n four_bytes h = ap ok (omega arith)
unsigned_value-big_endian w half n eight_bytes h = ap ok (omega arith)

signed_value-big_endian :
    (w half : ℕ) (z : ℤ)
    → IsWidth w half
    → IsSigned half z
    → signed_value (big_endian w (to_unsigned half z)) ≡ ok z
unfolding signed_value big_endian
signed_value-big_endian w half (pos n) one_byte h = ap ok (ground arith)
signed_value-big_endian w half (negsuc n) one_byte h = ap ok (ground arith)
signed_value-big_endian w half (pos n) two_bytes h = ap ok (ground arith)
signed_value-big_endian w half (negsuc n) two_bytes h = ap ok (ground arith)
signed_value-big_endian w half (pos n) four_bytes h = ap ok (ground arith)
signed_value-big_endian w half (negsuc n) four_bytes h = ap ok (ground arith)
signed_value-big_endian w half (pos n) eight_bytes h = ap ok (ground arith)
signed_value-big_endian w half (negsuc n) eight_bytes h = ap ok (ground arith)

group_width : (w half n : ℕ) → IsWidth w half → is_group_width (length (big_endian w n)) ≡ true
unfolding big_endian
group_width w half n one_byte = refl
group_width w half n two_bytes = refl
group_width w half n four_bytes = refl
group_width w half n eight_bytes = refl

module _ {V : Type 0} ⦃num : Number V⦄ where
  -- `DecodeByDefinition` returns a value or an error for any definition and any buffer.
  pub decode_by_definition-Returns :
      (def : IoElementDefinition V) (buffer : List ℕ) → Returns (decode_by_definition def buffer)
  unfolding decode_by_definition decode_value integer_value
  decode_by_definition-Returns def buffer =
      Returns-and_then (decode_value def buffer) _
        (both-Returns
          (length buffer == 1
            && num.is_zero def.min
            && num.is_one def.max
            && def.type == element_unsigned)
          _ _
          (λ e.
            Returns-and_then (first buffer) _ (ok-Returns _ (first_long buffer (ground arith)))
              λ b e'. tt)
          λ n₁.
            both-Returns
              (is_group_width (length buffer)
                && (def.type == element_unsigned || def.type == element_signed))
              _ _
              (λ e.
                both-Returns (def.type == element_unsigned) _ _
                  (λ u.
                    Returns-and_then (unsigned_value buffer) _
                      (unsigned_value-Returns buffer (and_left _ _ e)) λ v e'. tt)
                  λ u.
                    Returns-and_then (signed_value buffer) _
                      (signed_value-Returns buffer (and_left _ _ e)) λ v e'. tt)
              λ n₂.
                both-Returns (def.type == element_hex) _ _ (λ e. tt)
                  λ n₃. both-Returns (def.type == element_ascii) _ _ (λ e. tt) λ n₄. tt)
        λ v e. tt

  -- A buffer of 1, 2, 4 or 8 bytes that holds a number is decoded to that number by a definition
  -- of an unsigned element without multiplier, unless its range from 0 to 1 makes it a Boolean.
  decode_by_definition-uint64 :
      (def : IoElementDefinition V) (w half n : ℕ)
      → IsWidth w half
      → n < 2 * half
      → def.type ≡ element_unsigned
      → num.is_one def.multiplier ≡ true
      → num.is_zero def.min && num.is_one def.max ≡ false
      → decode_by_definition def (big_endian w n)
        ≡ ok (record { id = def.id; value = uint64 n; definition = def })
  unfolding decode_by_definition decode_value integer_value scaled
  decode_by_definition-uint64 def w half n width h type one range =
      let size = length (big_endian w n) in
      let not_bool : (size == 1
            && num.is_zero def.min
            && num.is_one def.max
            && def.type == element_unsigned)
          ≡ false =
        ground arith in
      rw (
        not_bool,
        group_width w half n width,
        type,
        unsigned_value-big_endian w half n width h,
        one,
      )

  -- A buffer of 1, 2, 4 or 8 bytes that holds a number in two's complement is decoded to that
  -- number by a definition of a signed element without multiplier.
  pub decode_by_definition-int64 :
      (def : IoElementDefinition V) (w half : ℕ) (z : ℤ)
      → IsWidth w half
      → IsSigned half z
      → def.type ≡ element_signed
      → num.is_one def.multiplier ≡ true
      → decode_by_definition def (big_endian w (to_unsigned half z))
        ≡ ok (record { id = def.id; value = int64 z; definition = def })
  unfolding decode_by_definition decode_value integer_value scaled
  decode_by_definition-int64 def w half z width h type one =
      let size = length (big_endian w (to_unsigned half z)) in
      let not_bool : (size == 1
            && num.is_zero def.min
            && num.is_one def.max
            && def.type == element_unsigned)
          ≡ false =
        ground arith in
      rw (
        not_bool,
        group_width w half (to_unsigned half z) width,
        type,
        signed_value-big_endian w half z width h,
        one,
      )
