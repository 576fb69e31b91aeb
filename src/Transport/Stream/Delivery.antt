-- ===== src/Transport/Stream/Delivery.antt =====
-- teltonika.go: `readFromReader` on a reader that delivers a byte stream in pieces of any size.
use mathlib.Core.Path.{subst}
use teltonika.Prelude.{
  ℕ, zero, suc, ◌-◌, ◌≤◌, ◌<◌, ◌≡◌, sym, ap, ◌∙◌, arith, false, none, some, List, [], ◌++◌,
  append_assoc, append-nil, length, take, drop, take_append, drop_append, length-append, ◌==◌, ok,
}
use teltonika.Transport.Stream.{Reader, ReadResult, read_loop, read_from_reader}

module _ {S : Type 0} ⦃rd : Reader S⦄ where
  -- One call delivered the front of `bytes`: at least a byte of it, and no error.
  pub record Delivers (Holds : S → List ℕ → Type 0) (bytes : List ℕ) (r : ReadResult S)
      : Type 0 where
    pub error : r.error ≡ none
    pub some_byte : 0 < length r.chunk
    pub rest : List ℕ
    pub parts : bytes ≡ r.chunk ++ rest
    pub holds : Holds r.state rest

  -- A reader that `Holds` bytes delivers them in order, in pieces whose sizes it chooses.
  abbrev pub IsStream : (S → List ℕ → Type 0) → Type 0
  IsStream Holds =
      (s : S) (bytes : List ℕ) (n : ℕ)
      → Holds s bytes
      → 0 < n
      → n ≤ length bytes
      → Delivers Holds bytes (rd.read s n)

  module _ (Holds : S → List ℕ → Type 0) (stream : IsStream Holds) where
    read_loop-IsStream :
        (fuel size left : ℕ) (got bytes : List ℕ) (s : S)
        → left ≤ fuel
        → Holds s bytes
        → left ≤ length bytes
        → (s' : S) × (read_loop fuel size left got s ≡ ok (got ++ take left bytes, s'))
          × Holds s' (drop left bytes)
    unfolding read_loop
    read_loop-IsStream fuel size zero got bytes s h p k = (s, rw (append-nil got), p)
    read_loop-IsStream zero size (suc left) got bytes s h p k = absurd (omega arith)
    read_loop-IsStream (suc fuel) size (suc left) got bytes s h p k =
        let d = stream s bytes (suc left) p (omega arith) k in
        let c = (rd.read s (suc left)).chunk in
        let fits : length c ≤ suc left = rd.length-read s (suc left) in
        let sum = ap (λ (t : List ℕ). length t) d.parts ∙ length-append c d.rest in
        let n = suc left - length c in
        let taken : c ++ take n d.rest ≡ take (suc left) bytes =
          sym (
            ap (λ (t : List ℕ). take (suc left) t) d.parts
            ∙ take_append (suc left) c d.rest fits) in
        let dropped : drop n d.rest ≡ drop (suc left) bytes =
          sym (
            ap (λ (t : List ℕ). drop (suc left) t) d.parts
            ∙ drop_append (suc left) c d.rest fits) in
        let nonzero : (length c == 0) ≡ false = ground (arith, d.some_byte) in
        let (s', e, q) =
          read_loop-IsStream fuel size n (got ++ c) d.rest _ (omega (arith, d.some_byte)) d.holds
            (omega arith) in
        (
          s',
          rw (d.error, nonzero)
              (e
                ∙ ap (λ (t : List ℕ). ok (t, s'))
                    (append_assoc got c (take n d.rest) ∙ ap (λ (t : List ℕ). got ++ t) taken)),
          subst (Holds s') dropped q,
        )

    -- `readFromReader` takes exactly the bytes that were asked for off the stream.
    pub read_from_reader-IsStream :
        (n : ℕ) (bytes : List ℕ) (s : S)
        → Holds s bytes
        → n ≤ length bytes
        → (s' : S) × (read_from_reader n (some s) ≡ ok (take n bytes, some s'))
          × Holds s' (drop n bytes)
    unfolding read_from_reader
    read_from_reader-IsStream n bytes s p k =
        let (s', e, q) = read_loop-IsStream n n n [] bytes s (omega arith) p k in (s', rw e, q)
