-- ===== src/Util/ByteReader/Bounds.antt =====
-- No method of `byteReader` panics, and each leaves a sound cursor behind; how this composes.
use mathlib.Core.Path.{◌∙◌}
use teltonika.Prelude.{
  ℕ, ◌+◌, ◌-◌, ◌≤◌, ◌≡◌, refl, arith, Bool, true, false, inl, inr, List, [], ◌∷◌, length, take,
  drop, replicate, length-drop, length-take, length-replicate, ltb, if_same, ap, ◌*◌, le→leb,
  le→ltb, if◌then◌else◌, Bool-cases, Result, ok, err, eof, Error, and_then, Returns,
}
use teltonika.Prelude.Int.{ℤ, to_signed}
use teltonika.Bytes.{uint16_be, uint32_be, uint64_be, slice_from, copy_at}
use teltonika.Util.ByteReader.{
  ByteReader, Decoder, pure, fail, ◌>>=◌, ensure, slice, first, read_int, signed, read_bytes,
  read_uint8_be, read_uint16_be, read_uint32_be, read_uint64_be, read_int16_be, read_int32_be,
}
use teltonika.Util.ByteReader.Reads.{copy_at_whole}

-- The cursor stands inside the input, and `size` is the input's length.
pub record IsSound (r : ByteReader) : Type 0 where
  pub inside : r.pos ≤ r.size
  pub sized : r.size ≡ length r.input

-- The reader after a call: sound, over the same input in the same mode, and not before where it was.
pub record Advances (r r' : ByteReader) : Type 0 where
  pub sound : IsSound r'
  pub same_input : r'.input ≡ r.input
  pub same_mode : r'.alloc_on_read ≡ r.alloc_on_read
  pub forward : r.pos ≤ r'.pos

-- The call returned a value or an error: it did not panic.
pub data Safely {ℓ} {A : Type ℓ} (r : ByteReader) : Result (A × ByteReader) → Type ℓ where
  returned : (a : A) (r' : ByteReader) → Advances r r' → Safely r (ok (a, r'))
  failed : (e : Error) → Safely r (err e)

abbrev pub IsSafe {ℓ} : {A : Type ℓ} → Decoder A → Type ℓ
IsSafe p = (r : ByteReader) → IsSound r → Safely r (p r)

Advances-trans : {r s t : ByteReader} → Advances r s → Advances s t → Advances r t
Advances-trans p q = record {
  sound = q.sound;
  same_input = q.same_input ∙ p.same_input;
  same_mode = q.same_mode ∙ p.same_mode;
  forward = omega arith;
}

Safely-trans {ℓ} :
    {A : Type ℓ} {r s : ByteReader} {m : Result (A × ByteReader)}
    → Advances r s
    → Safely s m
    → Safely r m
Safely-trans p (returned a r' q) = returned a r' (Advances-trans p q)
Safely-trans p (failed e) = failed e

pub pure-IsSafe {ℓ} : {A : Type ℓ} (a : A) → IsSafe (pure a)
pure-IsSafe a r h =
    returned a r (record { sound = h; same_input = refl; same_mode = refl; forward = omega arith })

pub fail-IsSafe {ℓ} : {A : Type ℓ} (e : Error) → IsSafe (fail {A = A} e)
fail-IsSafe e r h = failed e

pub ensure-IsSafe : (b : Bool) (e : Error) → IsSafe (ensure b e)
ensure-IsSafe true e = pure-IsSafe tt
ensure-IsSafe false e = fail-IsSafe e

chain {ℓ κ} :
    {A : Type ℓ} {B : Type κ} {r : ByteReader} {m : Result (A × ByteReader)} (f : A → Decoder B)
    → Safely r m
    → ((a : A) → IsSafe (f a))
    → Safely r (and_then m (λ (a, r'). f a r'))
chain f (returned a r' p) k = Safely-trans p (k a r' p.sound)
chain f (failed e) k = failed e

pub bind-IsSafe {ℓ κ} :
    {A : Type ℓ} {B : Type κ} {p : Decoder A} {f : A → Decoder B}
    → IsSafe p
    → ((a : A) → IsSafe (f a))
    → IsSafe (p >>= f)
bind-IsSafe {f} hp hf r h = chain f (hp r h) hf

pub if-IsSafe {ℓ} :
    {A : Type ℓ} (b : Bool) {p q : Decoder A}
    → IsSafe p
    → IsSafe q
    → (r : ByteReader) → IsSound r
    → Safely r ((if b then p else q) r)
if-IsSafe true hp hq r h = hp r h
if-IsSafe false hp hq r h = hq r h

pub slice_from_le : (i : ℕ) (b : List ℕ) → i ≤ length b → slice_from i b ≡ ok (drop i b)
unfolding slice_from
slice_from_le i b h = rw (le→leb i (length b) h)

pub slice_le :
    (lo hi : ℕ) (b : List ℕ)
    → lo ≤ hi
    → hi ≤ length b
    → slice lo hi b ≡ ok (take (hi - lo) (drop lo b))
unfolding slice
slice_le lo hi b h k = rw (le→ltb hi lo h, le→ltb (length b) hi k)

step :
    (r : ByteReader) (n : ℕ)
    → IsSound r
    → ltb r.size (r.pos + n) ≡ false
    → Advances r (record r { pos = r.pos + n })
step r n h e = record {
  sound = record { inside = ground arith; sized = h.sized };
  same_input = refl;
  same_mode = refl;
  forward = omega arith;
}

read_int-IsSafe {ℓ} :
    {A : Type ℓ} (width : ℕ) (value : List ℕ → Result A)
    → ((b : List ℕ) → width ≤ length b → (a : A) × (value b ≡ ok a))
    → IsSafe (read_int width value)
read_int-IsSafe width value k r h = elim (Bool-cases (ltb r.size (r.pos + width))) [
  | inl short ↦ rw short (failed eof)
  | inr fits ↦
      let back : r.pos + width - width ≡ r.pos = omega arith in
      let room : r.pos + width ≤ length r.input = ground (arith, h.sized) in
      let (a, e) = k (drop r.pos r.input) (omega (arith, length-drop r.pos r.input)) in
      rw (fits, back, slice_from_le r.pos r.input (omega arith), e)
        (returned a _ (step r width h fits))
]

pub first_long : (b : List ℕ) → 1 ≤ length b → (a : ℕ) × (first b ≡ ok a)
first_long (x ∷ b) h = (x, refl)
first_long [] h = absurd (omega arith)

pub uint16_be_long : (b : List ℕ) → 2 ≤ length b → (a : ℕ) × (uint16_be b ≡ ok a)
uint16_be_long (x ∷ y ∷ b) h = (x * 256 + y, refl)
uint16_be_long [] h = absurd (omega arith)
uint16_be_long (x ∷ []) h = absurd (omega arith)

pub uint32_be_long : (b : List ℕ) → 4 ≤ length b → (a : ℕ) × (uint32_be b ≡ ok a)
uint32_be_long (x ∷ y ∷ z ∷ w ∷ b) h = (((x * 256 + y) * 256 + z) * 256 + w, refl)
uint32_be_long [] h = absurd (omega arith)
uint32_be_long (_ ∷ []) h = absurd (omega arith)
uint32_be_long (_ ∷ _ ∷ []) h = absurd (omega arith)
uint32_be_long (_ ∷ _ ∷ _ ∷ []) h = absurd (omega arith)

pub uint64_be_long : (b : List ℕ) → 8 ≤ length b → (a : ℕ) × (uint64_be b ≡ ok a)
uint64_be_long (_ ∷ _ ∷ _ ∷ _ ∷ _ ∷ _ ∷ _ ∷ _ ∷ b) h = (_, refl)
uint64_be_long [] h = absurd (omega arith)
uint64_be_long (_ ∷ []) h = absurd (omega arith)
uint64_be_long (_ ∷ _ ∷ []) h = absurd (omega arith)
uint64_be_long (_ ∷ _ ∷ _ ∷ []) h = absurd (omega arith)
uint64_be_long (_ ∷ _ ∷ _ ∷ _ ∷ []) h = absurd (omega arith)
uint64_be_long (_ ∷ _ ∷ _ ∷ _ ∷ _ ∷ []) h = absurd (omega arith)
uint64_be_long (_ ∷ _ ∷ _ ∷ _ ∷ _ ∷ _ ∷ []) h = absurd (omega arith)
uint64_be_long (_ ∷ _ ∷ _ ∷ _ ∷ _ ∷ _ ∷ _ ∷ []) h = absurd (omega arith)

signed_long :
    (half n : ℕ) (value : List ℕ → Result ℕ)
    → ((b : List ℕ) → n ≤ length b → (a : ℕ) × (value b ≡ ok a))
    → (b : List ℕ) → n ≤ length b
    → (a : ℤ) × (signed half value b ≡ ok a)
signed_long half n value k b h =
    let (a, e) = k b h in (to_signed half a, ap (λ m. and_then m (λ v. ok (to_signed half v))) e)

pub read_uint8_be-IsSafe : IsSafe read_uint8_be
unfolding read_uint8_be
read_uint8_be-IsSafe = read_int-IsSafe 1 first first_long

pub read_uint16_be-IsSafe : IsSafe read_uint16_be
unfolding read_uint16_be
read_uint16_be-IsSafe = read_int-IsSafe 2 uint16_be uint16_be_long

pub read_uint32_be-IsSafe : IsSafe read_uint32_be
unfolding read_uint32_be
read_uint32_be-IsSafe = read_int-IsSafe 4 uint32_be uint32_be_long

pub read_uint64_be-IsSafe : IsSafe read_uint64_be
unfolding read_uint64_be
read_uint64_be-IsSafe = read_int-IsSafe 8 uint64_be uint64_be_long

pub read_int16_be-IsSafe : IsSafe read_int16_be
unfolding read_int16_be
read_int16_be-IsSafe = read_int-IsSafe 2 _ (signed_long 32768 2 uint16_be uint16_be_long)

pub read_int32_be-IsSafe : IsSafe read_int32_be
unfolding read_int32_be
read_int32_be-IsSafe = read_int-IsSafe 4 _ (signed_long 2147483648 4 uint32_be uint32_be_long)

pub read_bytes-IsSafe : (n : ℕ) → IsSafe (read_bytes n)
unfolding read_bytes
read_bytes-IsSafe n r h = elim (Bool-cases (ltb r.size (r.pos + n))) [
  | inl short ↦ rw short (failed eof)
  | inr fits ↦
      let room : r.pos + n ≤ length r.input = ground (arith, h.sized) in
      let cut : r.pos + n - (r.pos + n - n) ≡ n = omega arith in
      let part = take n (drop (r.pos + n - n) r.input) in
      let copied : copy_at 0 part (replicate n 0) ≡ ok part = copy_at_whole part (replicate n 0) (
        omega (
          arith,
          length-replicate {0} {A = ℕ} n 0,
          length-take n (drop (r.pos + n - n) r.input),
          length-drop (r.pos + n - n) r.input,
        )) in
      rw
        (
          fits,
          slice_le (r.pos + n - n) (r.pos + n) r.input (omega arith) room,
          cut,
          copied,
          if_same r.alloc_on_read _,
        )
        (returned part _ (step r n h fits))
]

-- What runs on the outcome of a safe call.
pub Safely-Returns {ℓ κ} :
    {A : Type ℓ} {B : Type κ} {r : ByteReader} {m : Result (A × ByteReader)}
    (f : A × ByteReader → Result B)
    → Safely r m
    → ((a : A) (r' : ByteReader) → Advances r r' → Returns (f (a, r')))
    → Returns (and_then m f)
Safely-Returns f (returned a r' p) k = k a r' p
Safely-Returns f (failed e) k = tt

-- The decoders by these rules.
pub ruleset safe_reads = (
  pure-IsSafe, read_uint8_be-IsSafe, read_uint16_be-IsSafe, read_uint32_be-IsSafe,
  read_uint64_be-IsSafe, read_int16_be-IsSafe, read_int32_be-IsSafe, read_bytes-IsSafe,
  ensure-IsSafe, fail-IsSafe, bind-IsSafe,
)
