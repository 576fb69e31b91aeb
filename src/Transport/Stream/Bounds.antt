-- ===== src/Transport/Stream/Bounds.antt =====
-- teltonika.go: `readFromReader` ends, with all the bytes or an error, whatever the reader does.
use teltonika.Prelude.{
  ℕ, zero, suc, ◌+◌, ◌-◌, ◌≤◌, ◌<◌, ◌≡◌, refl, arith, Bool, true, false, ◌||◌, inl, inr, Option,
  none, some, List, [], ◌++◌, length, take, length-append, length-take, leb, le→ltb, ◌==◌,
  Bool-cases, Result, ok, err, and_then, require, header_too_short, buffer_too_small, Error,
  short_read, read_failed, if◌then◌else◌,
}
use teltonika.Transport.Stream.{
  Reader, ReadResult, is_eof, is_error, read_loop, read_from_reader, take_header, read_rest,
  take_packet,
}

-- `n` bytes were taken, or the call failed; it did not panic, and `P` holds of the reader after it.
pub data Took (T : Type 0) (P : T → Type 0) (n : ℕ) : Result (List ℕ × T) → Type 0 where
  took : (got : List ℕ) (t : T) → length got ≡ n → P t → Took T P n (ok (got, t))
  failed : (e : Error) → Took T P n (err e)

-- The reader is not nil.
abbrev pub IsReader : {S : Type 0} → Option S → Type 0
IsReader none = ⊥
IsReader (some s) = Unit {0}

-- There is a slice to decode, or a reader.
abbrev pub IsUsable : {S : Type 0} → Option (List ℕ) → Option S → Type 0
IsUsable (some input) reader = Unit {0}
IsUsable none reader = IsReader reader

require-Took :
    {T : Type 0} {P : T → Type 0} {n : ℕ} (b : Bool) (e : Error) (k : Result (List ℕ × T))
    → (b ≡ true → Took T P n k)
    → Took T P n (require b e k)
require-Took true e k h = h refl
require-Took false e k h = failed e

module _ {S : Type 0} ⦃rd : Reader S⦄ where
  -- One round of the loop: the call failed, or it gave a byte and the loop goes on.
  read_round :
      (size left : ℕ) (got : List ℕ) (r : ReadResult S) (k : Result (List ℕ × S))
      → (0 < length r.chunk → Took S (λ s. Unit {0}) size k)
      → Took S
          (λ s. Unit {0})
          size
          (if length r.chunk == 0 || is_eof r.error
            then err (short_read (length got) size)
            else if is_error r.error
            then err read_failed
            else k)
  read_round size left got r k h = elim (Bool-cases (length r.chunk == 0)) [
    | inl nothing ↦ rw nothing (failed _)
    | inr something ↦ rw something (rest (is_eof r.error) (is_error r.error) (h (ground arith)))
  ]
    where
      rest :
          (a b : Bool)
          → Took S (λ s. Unit {0}) size k
          → Took S
              (λ s. Unit {0})
              size
              (if a then err (short_read (length got) size) else if b then err read_failed else k)
      rest true b t = failed _
      rest false true t = failed _
      rest false false t = t

  read_loop-Took :
      (fuel size left : ℕ) (got : List ℕ) (s : S)
      → left ≤ fuel
      → length got + left ≡ size
      → Took S (λ s. Unit {0}) size (read_loop fuel size left got s)
  unfolding read_loop
  read_loop-Took fuel size zero got s h e = took got s (omega arith) tt
  read_loop-Took zero size (suc left) got s h e = absurd (omega arith)
  read_loop-Took (suc fuel) size (suc left) got s h e =
      let r = rd.read s (suc left) in
      let fits : length r.chunk ≤ suc left = rd.length-read s (suc left) in
      read_round size left got r _ λ some_byte.
        read_loop-Took fuel size (suc left - length r.chunk) (got ++ r.chunk) r.state (omega arith)
          (omega (arith, length-append got r.chunk))

  keep :
      (n : ℕ) (m : Result (List ℕ × S))
      → Took S (λ s. Unit {0}) n m
      → Took (Option S) IsReader n (and_then m λ (got, s'). ok (got, some s'))
  keep n m (took got s e p) = took got (some s) e tt
  keep n m (failed e) = failed e

  -- Whatever the reader does, `readFromReader` ends: with exactly the bytes that were asked for,
  -- or with an error. The fuel is enough, since each round but the last takes a byte.
  read_from_reader-Took :
      (n : ℕ) (reader : Option S)
      → IsReader reader
      → Took (Option S) IsReader n (read_from_reader n reader)
  unfolding read_from_reader
  read_from_reader-Took n none h = elim h [ ]
  read_from_reader-Took n (some s) h =
      keep n _ (read_loop-Took n n n [] s (omega arith) (omega arith))

  pub take_header-Took :
      (n : ℕ) (reader : Option S) (input output : Option (List ℕ))
      → IsUsable input reader
      → Took
          (Option S)
          (IsUsable input)
          n
          (take_header n (record { reader = reader; input_buffer = input; output_buffer = output }))
  unfolding take_header
  take_header-Took n reader (some input) output h =
      require-Took (leb n (length input)) header_too_short (ok (take n input, reader))
        λ enough. took (take n input) reader (ground (arith, length-take n input)) tt
  take_header-Took n reader none (some output) h =
      require-Took _ _ _ λ enough. read_from_reader-Took n reader h
  take_header-Took n reader none none h = read_from_reader-Took n reader h

  join :
      (n size : ℕ) (header : List ℕ) (m : Result (List ℕ × Option S))
      → length header + n ≡ size
      → Took (Option S) IsReader n m
      → Took (Option S) IsReader size (and_then m λ (got, reader'). ok (header ++ got, reader'))
  join n size header m e (took got s f p) = took _ _ (omega (arith, length-append header got)) p
  join n size header m e (failed x) = failed x

  read_rest-Took :
      (n size : ℕ) (header : List ℕ) (reader : Option S)
      → length header ≡ n
      → n ≤ size
      → IsReader reader
      → Took (Option S) IsReader size (read_rest n size header reader)
  unfolding read_rest
  read_rest-Took n size header reader e f h =
      rw (le→ltb size n f)
        (join (size - n) size header _ (omega arith) (read_from_reader-Took (size - n) reader h))

  pub take_packet-Took :
      (n size : ℕ) (header : List ℕ) (reader start : Option S) (input output : Option (List ℕ))
      → length header ≡ n
      → n ≤ size
      → IsUsable input reader
      → Took (Option S) (IsUsable input) size (
          take_packet n size header reader
            (record { reader = start; input_buffer = input; output_buffer = output }))
  unfolding take_packet
  take_packet-Took n size header reader start (some input) output e f h =
      require-Took (leb size (length input)) (buffer_too_small _ _) (ok (take size input, reader))
        λ enough. took (take size input) reader (ground (arith, length-take size input)) tt
  take_packet-Took n size header reader start none (some output) e f h =
      require-Took _ _ _ λ enough. read_rest-Took n size header reader e f h
  take_packet-Took n size header reader start none none e f h =
      read_rest-Took n size header reader e f h
