-- ===== src/Json/Bytes.antt =====
-- teltonika.go: the JSON methods of `IOElementValue` and `PacketResponse`.
use teltonika.Prelude.{
  ℕ, ◌≡◌, refl, none, some, List, [], ◌∷◌, ◌++◌, Result, ok, err, panic, and_then, and_then-eq-ok,
  bad_hex,
}
use teltonika.Hex.{hex_value, encode_to_string}

-- `hex.Decode(dst, src)`, which writes into `dst`: what it returns, without the bytes it writes. A
-- digit out of range or an odd length is an error, a `dst` that is too short a panic.
unfoldable pub hex_decode : List ℕ → List ℕ → Result (Unit {0})
hex_decode dst [] = ok tt
hex_decode dst (c ∷ []) = err bad_hex
hex_decode dst (c ∷ d ∷ src) = elim (hex_value c) [
  | none ↦ err bad_hex
  | some hi ↦ elim (hex_value d) [
    | none ↦ err bad_hex
    | some lo ↦ elim dst [ [] ↦ panic | b ∷ bs ↦ hex_decode bs src ]
  ]
]

-- Both types are byte slices with the same methods.
unfoldable pub marshal_bytes : List ℕ → List ℕ
marshal_bytes r = b'"' ∷ (encode_to_string r ++ b'"' ∷ [])

-- The result is the slice `r` after the call: it is the source of `hex.Decode`, and the data is where
-- that writes to.
unfoldable pub unmarshal_bytes : List ℕ → List ℕ → Result (List ℕ)
unmarshal_bytes r json = and_then (hex_decode json r) (λ n. ok r)

-- Whatever value is written as JSON, reading it back into an empty value gives no error and leaves
-- it empty; and a value that is not empty is left as it was by any data that it is read from.
unmarshal_bytes_lem :
    (value r json s : List ℕ)
    → unmarshal_bytes r json ≡ ok s
    → (unmarshal_bytes [] (marshal_bytes value) ≡ ok []) × (r ≡ s)
unfolding unmarshal_bytes hex_decode
unmarshal_bytes_lem value r json s h =
    let (n, decoded, same) = and_then-eq-ok (hex_decode json r) (λ n. ok r) h in (refl, cc)
