-- ===== src/Hex.antt =====
-- encoding/hex and `strings.TrimLeft(s, "0")`, as the code uses them on IMEI numbers.
pub mod RoundTrip
use teltonika.Prelude.{
  ℕ, ◌+◌, ◌-◌, ◌*◌, ◌/◌, ◌%◌, Bool, true, false, ◌&&◌, Option, none, some, List, [], ◌∷◌, ltb, leb,
  ◌==◌, if◌then◌else◌, Result, ok, err, and_then, bad_hex,
}

-- One digit of the table "0123456789abcdef".
unfoldable pub hex_digit : ℕ → ℕ
hex_digit n = if ltb n 10 then n + b'0' else n - 10 + b'a'

-- `hex.EncodeToString`
unfoldable pub encode_to_string : List ℕ → List ℕ
encode_to_string [] = []
encode_to_string (b ∷ bs) = hex_digit (b / 16) ∷ hex_digit (b % 16) ∷ encode_to_string bs

unfoldable pub hex_value : ℕ → Option ℕ
hex_value c =
    if leb b'0' c && leb c b'9'
    then some (c - b'0')
    else if leb b'a' c && leb c b'f'
    then some (c - b'a' + 10)
    else if leb b'A' c && leb c b'F'
    then some (c - b'A' + 10)
    else none

abbrev join_nibbles : Option ℕ → Option ℕ → Result (List ℕ) → Result (List ℕ)
join_nibbles (some hi) (some lo) rest = and_then rest (λ bs. ok ((hi * 16 + lo) ∷ bs))
join_nibbles (some hi) none rest = err bad_hex
join_nibbles none lo rest = err bad_hex

-- `hex.DecodeString`: an error on a digit out of range or on an odd length.
unfoldable pub decode_string : List ℕ → Result (List ℕ)
decode_string [] = ok []
decode_string (c ∷ []) = err bad_hex
decode_string (c ∷ d ∷ cs) = join_nibbles (hex_value c) (hex_value d) (decode_string cs)

-- `strings.TrimLeft(s, "0")`
unfoldable pub trim_left_zeros : List ℕ → List ℕ
trim_left_zeros [] = []
trim_left_zeros (c ∷ cs) = if c == b'0' then trim_left_zeros cs else c ∷ cs
