-- ===== src/Json/RoundTrip.antt =====
-- teltonika.go: a generation type that is written as JSON and read again.
use teltonika.Prelude.{
  ℕ, zero, suc, ◌<◌, ◌≡◌, refl, arith, ◌⊎◌, inl, inr, true, false, Bool-cases, Bool, ltb, ◌-◌, take,
  drop, length, Error, if◌then◌else◌, Result, ok, err, and_then,
}
use teltonika.Packet.{unknown}
use teltonika.IoElements.{Text, same_text}
use teltonika.Util.ByteReader.{slice}
use teltonika.Json.{marshal_json, generation_type_of, unmarshal_json}

-- The values that have a name.
abbrev pub IsGenerationType : ℕ → Type 0
IsGenerationType g = (g < 8) ⊎ (g ≡ unknown)

-- `UnmarshalJSON` gives back the generation type that `MarshalJSON` wrote, for each of the nine
-- that have a name.
pub unmarshal_json-marshal_json :
    (g : ℕ) → IsGenerationType g → and_then (marshal_json g) unmarshal_json ≡ ok g
unfolding marshal_json unmarshal_json generation_type_of same_text slice
unmarshal_json-marshal_json zero (inl h) = refl
unmarshal_json-marshal_json (suc zero) (inl h) = refl
unmarshal_json-marshal_json (suc (suc zero)) (inl h) = refl
unmarshal_json-marshal_json (suc (suc (suc zero))) (inl h) = refl
unmarshal_json-marshal_json (suc (suc (suc (suc zero)))) (inl h) = refl
unmarshal_json-marshal_json (suc (suc (suc (suc (suc zero))))) (inl h) = refl
unmarshal_json-marshal_json (suc (suc (suc (suc (suc (suc zero)))))) (inl h) = refl
unmarshal_json-marshal_json (suc (suc (suc (suc (suc (suc (suc zero))))))) (inl h) = refl
unmarshal_json-marshal_json (suc (suc (suc (suc (suc (suc (suc (suc g)))))))) (inl h) =
    absurd (omega arith)
unmarshal_json-marshal_json g (inr e) = rw e

-- A generation type that has a name, or an error.
pub data Named : Result ℕ → Type 0 where
  named : (g : ℕ) → IsGenerationType g → Named (ok g)
  failed : (e : Error) → Named (err e)

pick :
    (b : Bool) (g : ℕ) (rest : Result ℕ)
    → IsGenerationType g
    → Named rest
    → Named (if b then ok g else rest)
pick true g rest h later = named g h
pick false g rest h later = later

generation_type_of-Named : (key : Text) → Named (generation_type_of key)
unfolding generation_type_of
generation_type_of-Named key = pick _ 0 _ (inl (omega arith)) (
    pick _ 1 _ (inl (omega arith)) (
      pick _ 2 _ (inl (omega arith)) (
        pick _ 3 _ (inl (omega arith)) (
          pick _ 4 _ (inl (omega arith)) (
            pick _ 5 _ (inl (omega arith)) (
              pick _ 6 _ (inl (omega arith))
                (pick _ 7 _ (inl (omega arith)) (pick _ 255 _ (inr refl) (failed _)))))))))

-- Whatever the text, `UnmarshalJSON` stores a generation type that has a name, or returns an
-- error: no text makes it panic.
unmarshal_json-Named : (text : Text) → Named (unmarshal_json text)
unfolding unmarshal_json slice
unmarshal_json-Named text = elim (Bool-cases (ltb (length text) 4)) [
  | inl short ↦ rw short (failed _)
  | inr long ↦
      let key = take (length text - 1 - 1) (drop 1 text) in
      let ordered : ltb (length text - 1) 1 ≡ false = ground arith in
      let inside : ltb (length text) (length text - 1) ≡ false = ground arith in
      rw (long, ordered, inside) (generation_type_of-Named key)
]
