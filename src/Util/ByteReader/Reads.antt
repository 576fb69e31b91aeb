-- ===== src/Util/ByteReader/Reads.antt =====
-- The methods of `byteReader` on input that starts with the encoding of a value, and how such facts compose.
use teltonika.Prelude.{
  ℕ, ◌+◌, ◌-◌, ◌*◌, ◌/◌, ◌^◌, ◌<◌, ◌≡◌, refl, sym, ap, ◌∙◌, arith, Bool, false, List, [], ◌∷◌, ◌++◌,
  append_assoc, append-nil, length, length-append, drop-length_append, take-length_append,
  take-length, drop_all, length-replicate, replicate, le→ltb, le→leb, ltb, if_same, Result, ok,
  and_then,
}
use teltonika.Prelude.Int.{to_signed}
use teltonika.Bytes.{be16, be32, be64, uint16_be, uint32_be, uint64_be, u8, slice_from, copy_at}
use teltonika.Util.ByteReader.{
  ByteReader, Decoder, pure, ◌>>=◌, read_bytes, read_int, first, signed, slice, read_uint8_be,
  read_uint16_be, read_uint32_be, read_uint64_be, read_int16_be, read_int32_be,
}

-- A reader that has read `pre` and has `post` before it.
abbrev pub reader_at : Bool → List ℕ → List ℕ → ByteReader
reader_at alloc pre post = record {
  pos = length pre;
  size = length (pre ++ post);
  input = pre ++ post;
  alloc_on_read = alloc;
}

-- `p` reads `a` off `code`, wherever that stands and in both allocation modes.
pub record Reads {ℓ} {A : Type ℓ} (p : Decoder A) (code : List ℕ) (a : A) : Type ℓ where
  pub runs :
      (alloc : Bool) (pre post : List ℕ)
      → p (reader_at alloc pre (code ++ post)) ≡ ok (a, reader_at alloc (pre ++ code) post)

pub Reads-pure {ℓ} : {A : Type ℓ} (a : A) → Reads (pure a) [] a
Reads-pure a = record { runs = λ alloc pre post. rw append-nil }

pub Reads-bind {ℓ κ} :
    {A : Type ℓ} {B : Type κ} {p : Decoder A} (f : A → Decoder B) {c d : List ℕ} {a : A} {b : B}
    → Reads p c a
    → Reads (f a) d b
    → Reads (p >>= f) (c ++ d) b
Reads-bind {p} f {c} {d} {a} {b} hp hf = record {
  runs = λ alloc pre post. rw (
    append_assoc c d post,
    hp.runs alloc pre (d ++ post),
    hf.runs alloc (pre ++ c) post,
    append_assoc pre c d,
  );
}

advance :
    (alloc : Bool) (pre code post : List ℕ) (n : ℕ)
    → length code ≡ n
    → record (reader_at alloc pre (code ++ post)) { pos = length pre + n }
      ≡ reader_at alloc (pre ++ code) post
advance alloc pre code post n e = rw (append_assoc pre code post, length-append pre code, e)

pub slice_from-append : (pre xs : List ℕ) → slice_from (length pre) (pre ++ xs) ≡ ok xs
unfolding slice_from
slice_from-append pre xs = rw (
  le→leb (length pre) (length (pre ++ xs)) (omega (arith, length-append pre xs)),
  drop-length_append pre xs,
)

fits :
    (pre code post : List ℕ) (n : ℕ)
    → length code ≡ n
    → ltb (length (pre ++ (code ++ post))) (length pre + n) ≡ false
fits pre code post n e =
    le→ltb _ _ (omega (arith, length-append pre (code ++ post), length-append code post))

-- A read of an integer sees the bytes that it reads first.
read_int-Reads {ℓ} :
    {A : Type ℓ} (width : ℕ) (value : List ℕ → Result A) (code : List ℕ) (a : A)
    → length code ≡ width
    → ((post : List ℕ) → value (code ++ post) ≡ ok a)
    → Reads (read_int width value) code a
read_int-Reads width value code a e h = record {
  runs = λ alloc pre post.
      let back : length pre + width - width ≡ length pre = omega arith in
      rw (
        fits pre code post width e,
        back,
        slice_from-append pre (code ++ post),
        h post,
        advance alloc pre code post width e,
      );
}

pub read_uint8_be-Reads : (v : ℕ) → Reads read_uint8_be (v ∷ []) v
unfolding read_uint8_be
read_uint8_be-Reads v = read_int-Reads 1 first (v ∷ []) v refl (λ post. refl)

uint16_be-be16 : (v : ℕ) (post : List ℕ) → v < 65536 → uint16_be (be16 v ++ post) ≡ ok v
uint16_be-be16 v post h = let e : u8 (v / 256) * 256 + u8 v ≡ v = omega arith in rw e

uint32_be-be32 : (v : ℕ) (post : List ℕ) → v < 2 ^ 32 → uint32_be (be32 v ++ post) ≡ ok v
uint32_be-be32 v post h = ap ok (omega arith)

uint64_be-be64 : (v : ℕ) (post : List ℕ) → v < 2 ^ 64 → uint64_be (be64 v ++ post) ≡ ok v
uint64_be-be64 v post h = ap ok (omega arith)

pub read_uint16_be-Reads : (v : ℕ) → v < 65536 → Reads read_uint16_be (be16 v) v
unfolding read_uint16_be
read_uint16_be-Reads v h =
    read_int-Reads 2 uint16_be (be16 v) v refl (λ post. uint16_be-be16 v post h)

pub read_uint32_be-Reads : (v : ℕ) → v < 2 ^ 32 → Reads read_uint32_be (be32 v) v
unfolding read_uint32_be
read_uint32_be-Reads v h =
    read_int-Reads 4 uint32_be (be32 v) v refl (λ post. uint32_be-be32 v post h)

pub read_uint64_be-Reads : (v : ℕ) → v < 2 ^ 64 → Reads read_uint64_be (be64 v) v
unfolding read_uint64_be
read_uint64_be-Reads v h =
    read_int-Reads 8 uint64_be (be64 v) v refl (λ post. uint64_be-be64 v post h)

pub read_int16_be-Reads : (v : ℕ) → v < 65536 → Reads read_int16_be (be16 v) (to_signed 32768 v)
unfolding read_int16_be
read_int16_be-Reads v h =
    read_int-Reads 2 (signed 32768 uint16_be) (be16 v) _ refl
      (λ post. ap (λ m. and_then m (λ n. ok (to_signed 32768 n))) (uint16_be-be16 v post h))

pub read_int32_be-Reads :
    (v : ℕ) → v < 2 ^ 32 → Reads read_int32_be (be32 v) (to_signed 2147483648 v)
unfolding read_int32_be
read_int32_be-Reads v h =
    read_int-Reads 4 (signed 2147483648 uint32_be) (be32 v) _ refl
      (λ post. ap (λ m. and_then m (λ n. ok (to_signed 2147483648 n))) (uint32_be-be32 v post h))

-- `copy` of a slice onto a fresh slice of its length is that slice.
pub copy_at_whole : (part buf : List ℕ) → length buf ≡ length part → copy_at 0 part buf ≡ ok part
unfolding copy_at
copy_at_whole part buf e =
    let room : length part - 0 ≡ length part = omega arith in
    let whole : 0 + length part ≡ length part = omega arith in
    rw (
      le→leb 0 (length buf) (omega arith),
      e,
      room,
      whole,
      take-length part,
      drop_all buf (length part) (omega arith),
      append-nil,
    )

pub slice-append :
    (pre code post : List ℕ) (lo hi : ℕ)
    → lo ≡ length pre
    → hi ≡ length pre + length code
    → slice lo hi (pre ++ (code ++ post)) ≡ ok code
unfolding slice
slice-append pre code post lo hi e f =
    let cut : hi - lo ≡ length code = omega arith in
    rw (
      le→ltb hi lo (omega arith),
      le→ltb (length (pre ++ (code ++ post))) hi
          (omega (arith, length-append pre (code ++ post), length-append code post)),
      cut,
      e,
      drop-length_append pre (code ++ post),
      take-length_append code post,
    )

-- Where `n` bytes stand before the cursor, `ReadBytes(n)` returns them in both allocation modes
-- and leaves the cursor behind them.
pub read_bytes-Reads : (code : List ℕ) (n : ℕ) → length code ≡ n → Reads (read_bytes n) code code
unfolding read_bytes
read_bytes-Reads code n e = record {
  runs = λ alloc pre post.
      rw
        (
          fits pre code post n e,
          slice-append pre code post (length pre + n - n) (length pre + n) (omega arith)
              (omega arith),
          copy_at_whole code (replicate n 0) (length-replicate n 0 ∙ sym e),
          advance alloc pre code post n e,
        )
        (if_same alloc _);
}

pub Reads-map {ℓ κ} :
    {A : Type ℓ} {B : Type κ} {p : Decoder A} (g : A → B) {c : List ℕ} {a : A} {b : B}
    → Reads p c a
    → g a ≡ b
    → Reads (p >>= λ x. pure (g x)) c b
Reads-map {p} g {c} {a} {b} h e = record { runs = λ alloc pre post. rw (h.runs alloc pre post, e) }
