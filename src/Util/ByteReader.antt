-- ===== src/Util/ByteReader.antt =====
-- util.go: `byteReader`, a cursor over a byte slice. `int` has 64 bits, so `pos + n` does not wrap.
pub mod Reads
pub mod Bounds
use teltonika.Prelude.{
  ℕ, ◌+◌, ◌-◌, ◌^◌, Bool, List, [], ◌∷◌, length, take, drop, replicate, ltb, if◌then◌else◌, Result,
  ok, err, panic, eof, and_then, Error,
}
use teltonika.Prelude.Int.{ℤ, to_signed}
use teltonika.Bytes.{uint16_be, uint32_be, uint64_be, slice_from, copy_at}

pub record ByteReader : Type 0 where
  pub pos : ℕ
  pub size : ℕ
  pub input : List ℕ
  pub alloc_on_read : Bool

unfoldable pub new_byte_reader : List ℕ → Bool → ByteReader
new_byte_reader input alloc_on_read = record {
  pos = 0;
  size = length input;
  input = input;
  alloc_on_read = alloc_on_read;
}

-- What reads from the reader: a method returns its value and the reader's new state.
abbrev pub Decoder {ℓ} : Type ℓ → Type ℓ
Decoder A = ByteReader → Result (A × ByteReader)

abbrev pub pure {ℓ} : {A : Type ℓ} → A → Decoder A
pure a r = ok (a, r)

abbrev pub fail {ℓ} : {A : Type ℓ} → Error → Decoder A
fail e r = err e

infixl 5 ◌>>=◌ ◌>>◌
abbrev pub ◌>>=◌ {ℓ κ} : {A : Type ℓ} {B : Type κ} → Decoder A → (A → Decoder B) → Decoder B
◌>>=◌ m f r = and_then (m r) (λ (a, r'). f a r')

abbrev pub ◌>>◌ {ℓ} : {B : Type ℓ} → Decoder (Unit {0}) → Decoder B → Decoder B
m >> k = m >>= λ _. k

-- `if !b { return e }`
abbrev pub ensure : Bool → Error → Decoder (Unit {0})
ensure b e r = if b then ok (tt, r) else err e

-- `r.input[lo:hi]`, which panics if the bounds are out of range.
unfoldable pub slice : ℕ → ℕ → List ℕ → Result (List ℕ)
slice lo hi b =
    if ltb hi lo
    then panic
    else if ltb (length b) hi
    then panic
    else ok (take (hi - lo) (drop lo b))

-- With `allocOnRead` the bytes are copied to a new slice, else the result is a part of the input.
unfoldable pub read_bytes : ℕ → Decoder (List ℕ)
read_bytes n r =
    if ltb r.size (r.pos + n)
    then err eof
    else let r' : ByteReader = record r { pos = r.pos + n } in
      and_then (slice (r'.pos - n) r'.pos r'.input) λ part.
        if r'.alloc_on_read
        then and_then (copy_at 0 part (replicate n 0)) (λ buf. ok (buf, r'))
        else ok (part, r')

-- The integer methods differ in the width and in how the bytes are read.
abbrev read_int {ℓ} : {A : Type ℓ} → ℕ → (List ℕ → Result A) → Decoder A
read_int width value r =
    if ltb r.size (r.pos + width)
    then err eof
    else let r' : ByteReader = record r { pos = r.pos + width } in
      and_then (slice_from (r'.pos - width) r'.input) λ part. and_then (value part) λ v. ok (v, r')

-- `b[0]`
abbrev pub first : List ℕ → Result ℕ
first b = elim b [ [] ↦ panic | x ∷ _ ↦ ok x ]

abbrev signed : ℕ → (List ℕ → Result ℕ) → List ℕ → Result ℤ
signed half value b = and_then (value b) λ v. ok (to_signed half v)

unfoldable pub read_uint8_be : Decoder ℕ
unfolding slice_from
read_uint8_be = read_int 1 first

unfoldable pub read_int8_be : Decoder ℤ
unfolding slice_from
read_int8_be = read_int 1 (signed 128 first)

unfoldable pub read_uint16_be : Decoder ℕ
unfolding slice_from
read_uint16_be = read_int 2 uint16_be

unfoldable pub read_int16_be : Decoder ℤ
unfolding slice_from
read_int16_be = read_int 2 (signed 32768 uint16_be)

unfoldable pub read_uint32_be : Decoder ℕ
unfolding slice_from
read_uint32_be = read_int 4 uint32_be

unfoldable pub read_int32_be : Decoder ℤ
unfolding slice_from
read_int32_be = read_int 4 (signed 2147483648 uint32_be)

unfoldable pub read_uint64_be : Decoder ℕ
unfolding slice_from
read_uint64_be = read_int 8 uint64_be

unfoldable pub read_int64_be : Decoder ℤ
unfolding slice_from
read_int64_be = read_int 8 (signed (2 ^ 63) uint64_be)
