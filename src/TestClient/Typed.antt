-- ===== src/TestClient/Typed.antt =====
-- test-client: pings and bytes in hex that are typed, and what is printed.
use teltonika.Prelude.{
  ℕ, ◌/◌, ◌%◌, ◌<◌, ◌≡◌, refl, arith, Bool, true, false, some, List, [], ◌∷◌, ◌++◌, map, All, ◌==◌,
}
use teltonika.Hex.{hex_digit, encode_to_string}
use teltonika.Hex.RoundTrip.{decode_string-encode_to_string}
use teltonika.IoElements.{Text, same_text}
use teltonika.IoElements.Lookup.{and_false}
use teltonika.Texts.{trim, trim_left, trim_right, is_blank, IsKept, trim-cut}
use teltonika.TestClient.{
  exit_word, ping_word, is_cut, sends, pings, command, Net, Print, sent_ping, server_response,
  waits, receive, behind_write, obey, run,
}

hex_digit-IsKept : (n : ℕ) → n < 16 → IsKept is_cut (hex_digit n)
unfolding is_cut hex_digit
hex_digit-IsKept n h = ground arith

encode_to_string-IsKept :
    (bs : List ℕ) → All (λ b. b < 256) bs → All (IsKept is_cut) (encode_to_string bs)
unfolding encode_to_string
encode_to_string-IsKept [] h = tt
encode_to_string-IsKept (b ∷ bs) (h, hs) = (
  hex_digit-IsKept (b / 16) (omega arith),
  (hex_digit-IsKept (b % 16) (omega arith), encode_to_string-IsKept bs hs),
)

-- Bytes in hex are neither of the two words.
encode_to_string-word :
    (bs : List ℕ)
    → All (λ b. b < 256) bs
    → (same_text (encode_to_string bs) exit_word ≡ false)
      × (same_text (encode_to_string bs) ping_word ≡ false)
unfolding encode_to_string same_text hex_digit
encode_to_string-word [] h = (refl, refl)
encode_to_string-word (b ∷ bs) (h, hs) =
    let other : (hex_digit (b / 16) == b'p') ≡ false = ground arith in (and_false _, rw other refl)

newline_cut : is_cut b'\n' ≡ true
unfolding is_cut
newline_cut = refl

-- Any bytes can be typed in hex, in both modes.
command-hex :
    (tcp : Bool) (bs : List ℕ)
    → All (λ b. b < 256) bs
    → command tcp (encode_to_string bs ++ b'\n' ∷ []) ≡ sends bs
unfolding command
command-hex tcp bs h =
    let (no_exit, no_ping) = encode_to_string-word bs h in
    rw
      (
        trim-cut is_cut (encode_to_string bs) b'\n' (encode_to_string-IsKept bs h) newline_cut,
        no_exit,
        no_ping,
        decode_string-encode_to_string bs h,
      )
      refl

command-ping : command true (ping_word ++ b'\n' ∷ []) ≡ pings
unfolding command same_text is_cut trim trim_left trim_right is_blank
command-ping = refl

-- A turn of the client: a ping, or bytes, with what the server answers them.
pub data Turn : Type 0 where
  ping : Turn
  exchange : List ℕ → List ℕ → Turn

unfoldable pub typed : Turn → Text
typed ping = ping_word ++ b'\n' ∷ []
typed (exchange bytes response) = encode_to_string bytes ++ b'\n' ∷ []

unfoldable pub printed : Turn → Print
printed ping = sent_ping
printed (exchange bytes response) = server_response (encode_to_string response)

abbrev pub AreBytes : List Turn → Type 0
AreBytes [] = Unit {0}
AreBytes (ping ∷ ts) = AreBytes ts
AreBytes (exchange bytes response ∷ ts) = All (λ b. b < 256) bytes × AreBytes ts

-- A connection on which the turns are taken that it `Holds`: the bytes of each turn and no others can
-- be written, and what is read behind those of an exchange is the response.
pub record IsPeer (S : Type 0) ⦃net : Net S⦄ (Holds : S → List Turn → Type 0) : Type 0 where
  pub takes_ping :
      (s : S) (ts : List Turn)
      → Holds s (ping ∷ ts)
      → (t : S) × (net.write s (0xff ∷ []) ≡ some t) × Holds t ts
  pub exchanged :
      (s : S) (bytes response : List ℕ) (ts : List Turn)
      → Holds s (exchange bytes response ∷ ts)
      → (t u : S) × (net.write s bytes ≡ some t)
        × (net.read t 1000 ≡ some (response, u))
        × Holds u ts

module _ {S : Type 0} ⦃net : Net S⦄ (Holds : S → List Turn → Type 0) (peer : IsPeer S Holds) where
  -- In TCP mode, lines with pings and with bytes in hex, each ended by a line break, write a ping or
  -- these bytes each, print of each exchange the response in hex, and leave the client waiting for
  -- the next line, if the connection takes the turns.
  pub run-typed :
      (turns : List Turn) (s : S)
      → AreBytes turns
      → Holds s turns
      → (t : S) × (run true (map typed turns) s ≡ (map printed turns, waits t)) × Holds t []
  unfolding run typed printed obey behind_write receive
  run-typed [] s h k = (s, refl, k)
  run-typed (ping ∷ ts) s h k =
      let (t, e, k') = peer.takes_ping s ts k in
      let (u, runs, k'') = run-typed ts t h k' in (u, rw (command-ping, e, runs) refl, k'')
  run-typed (exchange bytes response ∷ ts) s (h, hs) k =
      let (t, u, e, f, k') = peer.exchanged s bytes response ts k in
      let (v, runs, k'') = run-typed ts u hs k' in
      (v, rw (command-hex true bytes h, e, f, runs) refl, k'')
