-- ===== src/Hex/RoundTrip.antt =====
-- Hexadecimal text: what `hex.DecodeString` makes of digits, and `hex.EncodeToString` of that.
use teltonika.Prelude.{
  ℕ, ◌+◌, ◌-◌, ◌*◌, ◌/◌, ◌%◌, ◌<◌, ◌≡◌, refl, arith, true, ◌&&◌, ◌||◌, some, List, [], ◌∷◌, length,
  All, leb, if◌then◌else◌, ok,
}
use teltonika.Hex.{hex_digit, hex_value, encode_to_string, decode_string}

-- The digits that `hex.EncodeToString` writes.
abbrev pub IsHexDigit : ℕ → Type 0
IsHexDigit c = (leb b'0' c && leb c b'9' || leb b'a' c && leb c b'f') ≡ true

-- The number of a digit.
abbrev pub digit_value : ℕ → ℕ
digit_value c = if leb c b'9' then c - b'0' else c - b'a' + 10

-- The bytes that pairs of digits stand for.
unfoldable pub pack_digits : List ℕ → List ℕ
pack_digits (c ∷ d ∷ cs) = (digit_value c * 16 + digit_value d) ∷ pack_digits cs
pack_digits (c ∷ []) = []
pack_digits [] = []

hex_value-digit : (c : ℕ) → IsHexDigit c → hex_value c ≡ some (digit_value c)
unfolding hex_value
hex_value-digit c h = ground arith

hex_digit-value : (c : ℕ) → IsHexDigit c → (digit_value c < 16) × (hex_digit (digit_value c) ≡ c)
unfolding hex_digit
hex_digit-value c h = ground arith

-- Lists of an even length.
abbrev pub IsEven : List ℕ → Type 0
IsEven cs = length cs % 2 ≡ 0

pub decode_string-pack_digits :
    (cs : List ℕ) → All IsHexDigit cs → IsEven cs → decode_string cs ≡ ok (pack_digits cs)
unfolding decode_string pack_digits
decode_string-pack_digits [] h e = refl
decode_string-pack_digits (c ∷ []) h e = absurd (omega arith)
decode_string-pack_digits (c ∷ d ∷ cs) (hc, (hd, hs)) e =
    rw (hex_value-digit c hc, hex_value-digit d hd, decode_string-pack_digits cs hs (omega arith))

-- Decoding digits and encoding the bytes gives the digits back.
pub encode_to_string-pack_digits :
    (cs : List ℕ) → All IsHexDigit cs → IsEven cs → encode_to_string (pack_digits cs) ≡ cs
unfolding encode_to_string pack_digits
encode_to_string-pack_digits [] h e = refl
encode_to_string-pack_digits (c ∷ []) h e = absurd (omega arith)
encode_to_string-pack_digits (c ∷ d ∷ cs) (hc, (hd, hs)) e =
    let hi : (digit_value c * 16 + digit_value d) / 16 ≡ digit_value c =
      omega (arith, hex_digit-value d hd) in
    let lo : (digit_value c * 16 + digit_value d) % 16 ≡ digit_value d =
      omega (arith, hex_digit-value d hd) in
    rw (
      hi,
      lo,
      (hex_digit-value c hc).1,
      (hex_digit-value d hd).1,
      encode_to_string-pack_digits cs hs (omega arith),
    )

pub length-pack_digits : (cs : List ℕ) → IsEven cs → length (pack_digits cs) * 2 ≡ length cs
unfolding pack_digits
length-pack_digits [] e = refl
length-pack_digits (c ∷ []) e = absurd (omega arith)
length-pack_digits (c ∷ d ∷ cs) e = omega (arith, length-pack_digits cs (omega arith))

hex_value-hex_digit : (n : ℕ) → n < 16 → hex_value (hex_digit n) ≡ some n
unfolding hex_value hex_digit
hex_value-hex_digit n h = ground arith

-- `hex.DecodeString` undoes `hex.EncodeToString` on any bytes.
pub decode_string-encode_to_string :
    (bs : List ℕ) → All (λ b. b < 256) bs → decode_string (encode_to_string bs) ≡ ok bs
unfolding decode_string encode_to_string
decode_string-encode_to_string [] h = refl
decode_string-encode_to_string (b ∷ bs) (h, hs) =
    let whole : b / 16 * 16 + b % 16 ≡ b = omega arith in
    rw (
      hex_value-hex_digit (b / 16) (omega arith),
      hex_value-hex_digit (b % 16) (omega arith),
      decode_string-encode_to_string bs hs,
      whole,
    )
