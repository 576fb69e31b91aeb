-- ===== src/Json.antt =====
-- teltonika.go: the JSON methods of `GenerationType`.
pub mod RoundTrip
pub mod Bytes
use teltonika.Prelude.{
  ℕ, ◌-◌, Bool, not, List, [], ◌∷◌, ◌++◌, length, ltb, ◌==◌, if◌then◌else◌, Result, ok, err,
  and_then, require, unknown_generation_type,
}
use teltonika.Packet.{unknown}
use teltonika.IoElements.{Text, same_text}
use teltonika.Util.ByteReader.{slice}

-- The constants, and the strings of the two switches.
abbrev pub on_exit : ℕ
on_exit = 0

abbrev pub on_entrance : ℕ
on_entrance = 1

abbrev pub on_both : ℕ
on_both = 2

abbrev pub reserved : ℕ
reserved = 3

abbrev pub hysteresis : ℕ
hysteresis = 4

abbrev pub on_change : ℕ
on_change = 5

abbrev pub eventual : ℕ
eventual = 6

abbrev pub periodical : ℕ
periodical = 7

abbrev pub on_exit_name : Text
on_exit_name = b'O' ∷ b'n' ∷ b'E' ∷ b'x' ∷ b'i' ∷ b't' ∷ []

abbrev pub on_entrance_name : Text
on_entrance_name = b'O' ∷ b'n' ∷ b'E' ∷ b'n' ∷ b't' ∷ b'r' ∷ b'a' ∷ b'n' ∷ b'c' ∷ b'e' ∷ []

abbrev pub on_both_name : Text
on_both_name = b'O' ∷ b'n' ∷ b'B' ∷ b'o' ∷ b't' ∷ b'h' ∷ []

abbrev pub reserved_name : Text
reserved_name = b'R' ∷ b'e' ∷ b's' ∷ b'e' ∷ b'r' ∷ b'v' ∷ b'e' ∷ b'd' ∷ []

abbrev pub hysteresis_name : Text
hysteresis_name = b'H' ∷ b'y' ∷ b's' ∷ b't' ∷ b'e' ∷ b'r' ∷ b'e' ∷ b's' ∷ b'i' ∷ b's' ∷ []

abbrev pub on_change_name : Text
on_change_name = b'O' ∷ b'n' ∷ b'C' ∷ b'h' ∷ b'a' ∷ b'n' ∷ b'g' ∷ b'e' ∷ []

abbrev pub eventual_name : Text
eventual_name = b'E' ∷ b'v' ∷ b'e' ∷ b'n' ∷ b't' ∷ b'u' ∷ b'a' ∷ b'l' ∷ []

abbrev pub periodical_name : Text
periodical_name = b'P' ∷ b'e' ∷ b'r' ∷ b'i' ∷ b'o' ∷ b'd' ∷ b'i' ∷ b'c' ∷ b'a' ∷ b'l' ∷ []

abbrev pub unknown_name : Text
unknown_name = b'U' ∷ b'n' ∷ b'k' ∷ b'n' ∷ b'o' ∷ b'w' ∷ b'n' ∷ []

-- A string literal of JSON.
abbrev pub quoted : Text → Text
quoted text = b'"' ∷ (text ++ (b'"' ∷ []))

-- `GenerationType.MarshalJSON`
unfoldable pub marshal_json : ℕ → Result Text
marshal_json r =
    if r == on_exit
    then ok (quoted on_exit_name)
    else if r == on_entrance
    then ok (quoted on_entrance_name)
    else if r == on_both
    then ok (quoted on_both_name)
    else if r == reserved
    then ok (quoted reserved_name)
    else if r == hysteresis
    then ok (quoted hysteresis_name)
    else if r == on_change
    then ok (quoted on_change_name)
    else if r == eventual
    then ok (quoted eventual_name)
    else if r == periodical
    then ok (quoted periodical_name)
    else if r == unknown
    then ok (quoted unknown_name)
    else err unknown_generation_type

-- The switch of `UnmarshalJSON`: the new value of the receiver.
unfoldable pub generation_type_of : Text → Result ℕ
generation_type_of key =
    if same_text key on_exit_name
    then ok on_exit
    else if same_text key on_entrance_name
    then ok on_entrance
    else if same_text key on_both_name
    then ok on_both
    else if same_text key reserved_name
    then ok reserved
    else if same_text key hysteresis_name
    then ok hysteresis
    else if same_text key on_change_name
    then ok on_change
    else if same_text key eventual_name
    then ok eventual
    else if same_text key periodical_name
    then ok periodical
    else if same_text key unknown_name
    then ok unknown
    else err unknown_generation_type

-- `GenerationType.UnmarshalJSON`; the key is `data[1 : len(data)-1]`, where `data` is `text` here.
unfoldable pub unmarshal_json : Text → Result ℕ
unmarshal_json text =
    require (not (ltb (length text) 4)) unknown_generation_type
      (and_then (slice 1 (length text - 1) text) generation_type_of)
