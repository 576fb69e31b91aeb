-- ===== src/Encode/Writes.antt =====
-- A buffer that is written from the front: what the stores, the copies and the calls on a part of
-- it do to the bytes written so far.
use teltonika.Prelude.{
  ℕ, ◌+◌, ◌-◌, ◌≤◌, ◌≡◌, refl, ap, arith, List, ◌++◌, append_assoc, length, take, drop,
  length-append, length-drop, drop-drop, drop-length_append, take-length_append, take_all,
  take-append-drop-length, le→leb, ok,
}
use teltonika.Bytes.{store, copy_at, slice_from}
use teltonika.Encode.Elements.{Written}

-- The buffer `buf` after `done` was written over its front.
abbrev pub onto : List ℕ → List ℕ → List ℕ
onto done buf = done ++ drop (length done) buf

-- `f` writes `code` over the front of any slice that has room for it, and returns its length.
abbrev pub Writes : (List ℕ → Written) → List ℕ → Type 0
Writes f code = (buf : List ℕ) → length code ≤ length buf → f buf ≡ ok (length code, onto code buf)

-- The result of having written `code` into `buf`.
abbrev pub written : List ℕ → List ℕ → Written
written buf code = ok (length code, onto code buf)

pub length-onto :
    (done buf : List ℕ) → length done ≤ length buf → length (onto done buf) ≡ length buf
length-onto done buf h =
    omega (arith, length-append done (drop (length done) buf), length-drop (length done) buf)

drop-onto :
    (done buf : List ℕ) (n : ℕ) → n ≡ length done → drop n (onto done buf) ≡ drop (length done) buf
drop-onto done buf n e = rw (e, drop-length_append done (drop (length done) buf))

pub take-onto : (done buf : List ℕ) (n : ℕ) → n ≡ length done → take n (onto done buf) ≡ done
take-onto done buf n e = rw (e, take-length_append done (drop (length done) buf))

-- The part of the buffer that is not written.
pub slice_from-onto :
    (done buf : List ℕ) (n : ℕ)
    → n ≡ length done
    → length done ≤ length buf
    → slice_from n (onto done buf) ≡ ok (drop (length done) buf)
unfolding slice_from
slice_from-onto done buf n e h = rw (
  le→leb n (length (onto done buf)) (omega (arith, length-onto done buf h)),
  drop-onto done buf n e,
)

-- Writing behind what is written.
pub onto-append :
    (done code buf : List ℕ)
    → done ++ (code ++ drop (length code) (drop (length done) buf)) ≡ onto (done ++ code) buf
onto-append done code buf = rw (
  drop-drop (length done) (length code) buf,
  ← length-append done code,
  ← append_assoc done code (drop (length (done ++ code)) buf),
)

pub store-onto :
    (done code buf : List ℕ) (pos : ℕ)
    → pos ≡ length done
    → length done + length code ≤ length buf
    → store pos code (onto done buf) ≡ ok (onto (done ++ code) buf)
unfolding store
store-onto done code buf pos e h = rw (
  le→leb (pos + length code) (length (onto done buf))
      (omega (arith, length-onto done buf (omega arith))),
  take-onto done buf pos e,
  ← drop-drop pos (length code) (onto done buf),
  drop-onto done buf pos e,
  onto-append done code buf,
)

pub copy_at-onto :
    (done code buf : List ℕ) (pos : ℕ)
    → pos ≡ length done
    → length done + length code ≤ length buf
    → copy_at pos code (onto done buf) ≡ ok (onto (done ++ code) buf)
unfolding copy_at
copy_at-onto done code buf pos e h =
    let len : length (onto done buf) ≡ length buf = length-onto done buf (omega arith) in
    rw (
      le→leb pos (length (onto done buf)) (omega arith),
      take-onto done buf pos e,
      take_all code (length (onto done buf) - pos) (omega arith),
      ← drop-drop pos (length code) (onto done buf),
      drop-onto done buf pos e,
      onto-append done code buf,
    )

store_middle :
    (before old rest code : List ℕ) (pos : ℕ)
    → pos ≡ length before
    → length old ≡ length code
    → store pos code (before ++ (old ++ rest)) ≡ ok (before ++ (code ++ rest))
unfolding store
store_middle before old rest code pos e f =
    let after_old : drop (pos + length code) (before ++ (old ++ rest)) ≡ rest =
      rw
        (
          ← drop-drop pos (length code) (before ++ (old ++ rest)),
          e,
          drop-length_append before (old ++ rest),
          ← f,
        )
        (drop-length_append old rest) in
    rw (
      le→leb (pos + length code) (length (before ++ (old ++ rest)))
          (omega (arith, length-append before (old ++ rest), length-append old rest)),
      after_old,
      e,
      take-length_append before (old ++ rest),
    )

onto_parts :
    (before mid after buf : List ℕ) (n : ℕ)
    → length mid ≡ n
    → onto (before ++ (mid ++ after)) buf
      ≡ before ++ (mid ++ (after ++ drop (length before + (n + length after)) buf))
onto_parts before mid after buf n e = rw (
  length-append before (mid ++ after),
  length-append mid after,
  e,
  append_assoc before (mid ++ after) (drop (length before + (n + length after)) buf),
  append_assoc mid after (drop (length before + (n + length after)) buf),
)

-- A store over bytes that are written already.
pub store_back :
    (before old after code buf : List ℕ) (pos : ℕ)
    → pos ≡ length before
    → length old ≡ length code
    → store pos code (onto (before ++ (old ++ after)) buf)
      ≡ ok (onto (before ++ (code ++ after)) buf)
store_back before old after code buf pos e f =
    rw
      (
        onto_parts before old after buf (length code) f,
        onto_parts before code after buf (length code) refl,
      )
      (store_middle before old _ code pos e f)

-- Bytes that are skipped keep what the buffer held.
pub onto_skip :
    (done buf : List ℕ) (n : ℕ) → onto (done ++ take n (drop (length done) buf)) buf ≡ onto done buf
onto_skip done buf n =
    rw (← onto-append done (take n (drop (length done) buf)) buf)
      (ap (λ (t : List ℕ). done ++ t) (take-append-drop-length n (drop (length done) buf)))
