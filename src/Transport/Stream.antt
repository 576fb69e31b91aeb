-- ===== src/Transport/Stream.antt =====
-- teltonika.go: `readFromReader`, and how the two decoders take a packet's bytes from a slice, or
-- from an io.Reader into a buffer of the caller or of their own.
pub mod Delivery
pub mod Bounds
use Prim.Native.Nat.{zero-le}
use teltonika.Prelude.{
  ℕ, zero, suc, ◌+◌, ◌-◌, ◌≤◌, Bool, true, false, ◌||◌, Option, none, some, List, [], ◌∷◌, ◌++◌,
  length, take, leb, ltb, ◌==◌, if◌then◌else◌, Result, ok, err, panic, and_then, require,
  short_read, read_failed, header_too_short, buffer_too_small,
}

pub data IoError : Type 0 where
  io_eof : IoError
  io_other : IoError

-- What one call of `Read(p)` gives: the bytes that it put into `p`, its error, and the reader after it.
pub record ReadResult (S : Type 0) : Type 0 where
  pub chunk : List ℕ
  pub error : Option IoError
  pub state : S

-- io.Reader, with its documented bound `0 <= n <= len(p)`.
pub record Reader (S : Type 0) : Type 0 where
  pub read : S → ℕ → ReadResult S
  pub length-read : (s : S) (n : ℕ) → length ((read s n).chunk) ≤ n

-- A slice is decoded with a nil reader; this is the type of a reader that is never asked.
instance abbrev pub no_reader : Reader (Unit {0})
no_reader = record {
  read = λ s n. record { chunk = []; error = none; state = s };
  length-read = λ s n. zero-le;
}

abbrev pub is_eof : Option IoError → Bool
is_eof (some io_eof) = true
is_eof (some io_other) = false
is_eof none = false

abbrev pub is_error : Option IoError → Bool
is_error none = false
is_error (some e) = true

-- What a decoder is given: a reader, a slice to decode, and a buffer to read into; `none` is nil.
pub record Source (S : Type 0) : Type 0 where
  pub reader : Option S
  pub input_buffer : Option (List ℕ)
  pub output_buffer : Option (List ℕ)

module _ {S : Type 0} ⦃rd : Reader S⦄ where
  -- The loop of `readFromReader`: `left` bytes are missing and `got` are there. The fuel bounds
  -- `left`, which each round lowers, so the clause without fuel is never reached.
  unfoldable pub read_loop : ℕ → ℕ → ℕ → List ℕ → S → Result (List ℕ × S)
  read_loop fuel size zero got s = ok (got, s)
  read_loop zero size (suc left) got s = panic
  read_loop (suc fuel) size (suc left) got s =
      let r = rd.read s (suc left) in
      let rest = read_loop fuel size (suc left - length r.chunk) (got ++ r.chunk) r.state in
      if length r.chunk == 0 || is_eof r.error
      then err (short_read (length got) size)
      else if is_error r.error
      then err read_failed
      else rest

  -- `readFromReader` into a slice of length `size`; a nil reader is a nil pointer dereference,
  -- unless nothing is to be read.
  unfoldable pub read_from_reader : ℕ → Option S → Result (List ℕ × Option S)
  read_from_reader size (some s) =
      and_then (read_loop size size size [] s) λ (got, s'). ok (got, some s')
  read_from_reader zero none = ok ([], none)
  read_from_reader (suc size) none = panic

  -- The header of `header_size` bytes.
  unfoldable pub take_header : ℕ → Source S → Result (List ℕ × Option S)
  take_header header_size src = elim src.input_buffer [
    | some input ↦
        require (leb header_size (length input)) header_too_short
          (ok (take header_size input, src.reader))
    | none ↦ elim src.output_buffer [
      | some output ↦
          require (leb header_size (length output)) header_too_short
            (read_from_reader header_size src.reader)
      | none ↦ read_from_reader header_size src.reader
    ]
  ]

  -- The rest is read into `buffer[headerSize:]`, behind the header; that slice expression panics
  -- if the buffer is shorter than the header.
  unfoldable pub read_rest : ℕ → ℕ → List ℕ → Option S → Result (List ℕ × Option S)
  read_rest header_size packet_size header reader =
      if ltb packet_size header_size
      then panic
      else and_then (read_from_reader (packet_size - header_size) reader)
          λ (got, reader'). ok (header ++ got, reader')

  -- The whole packet of `packet_size` bytes.
  unfoldable pub take_packet : ℕ → ℕ → List ℕ → Option S → Source S → Result (List ℕ × Option S)
  take_packet header_size packet_size header reader src = elim src.input_buffer [
    | some input ↦
        require (leb packet_size (length input)) (buffer_too_small packet_size (length input))
          (ok (take packet_size input, reader))
    | none ↦ elim src.output_buffer [
      | some output ↦
          require (leb packet_size (length output)) (buffer_too_small packet_size (length output))
            (read_rest header_size packet_size header reader)
      | none ↦ read_rest header_size packet_size header reader
    ]
  ]
