-- ===== src/TestClient.antt =====
-- examples/test-client/main.go: the loop that sends what is typed to a server.
pub mod Typed
use teltonika.Prelude.{
  ℕ, Bool, Option, none, some, List, [], ◌∷◌, ◌==◌, ◌||◌, if◌then◌else◌, Result, ok, err, panic,
}
use teltonika.Hex.{encode_to_string, decode_string}
use teltonika.IoElements.{Text, same_text}
use teltonika.Texts.{trim}

abbrev pub exit_word : Text
exit_word = b'e' ∷ []

abbrev pub ping_word : Text
ping_word = b'p' ∷ b'i' ∷ b'n' ∷ b'g' ∷ []

-- The characters "\n ", at which strings.Trim cuts.
unfoldable pub is_cut : ℕ → Bool
is_cut c = c == b'\n' || c == b' '

-- What a line asks for: the end; a ping, which only TCP has; bytes in hex, or something else.
pub data Command : Type 0 where
  exits : Command
  rejects_ping : Command
  pings : Command
  rejects_hex : Command
  sends : List ℕ → Command

-- The command on a line; the first argument says whether the mode is TCP.
unfoldable pub command : Bool → Text → Command
command tcp raw =
    let str = trim is_cut raw in
    if same_text str exit_word
    then exits
    else if same_text str ping_word
    then (if tcp then pings else rejects_ping)
    else elim (decode_string str) [
      | ok packet ↦ sends packet
      | err e ↦ rejects_hex
      | panic ↦ rejects_hex
    ]

-- net.Conn, as the loop uses it; `none` is an error. A Read returns at most so many bytes.
pub record Net (S : Type 0) : Type 0 where
  pub write : S → List ℕ → Option S
  pub read : S → ℕ → Option (List ℕ × S)

-- What is printed, but for the prompt.
pub data Print : Type 0 where
  ping_unsupported : Print
  sent_ping : Print
  bad_input : Print
  server_response : Text → Print
  send_error : Print
  read_error : Print

-- The loop was left by the word for it or by an error, or it waits for a line.
pub data Ending (S : Type 0) : Type 0 where
  left : Ending S
  failed : Ending S
  waits : S → Ending S

abbrev pub also : {S : Type 0} → Print → List Print × Ending S → List Print × Ending S
also p (ps, e) = (p ∷ ps, e)

module _ {S : Type 0} ⦃net : Net S⦄ where
  -- The response to bytes that were written, and what follows.
  unfoldable pub receive : Option (List ℕ × S) → (S → List Print × Ending S) → List Print × Ending S
  receive none rest = (read_error ∷ [], failed)
  receive (some (bytes, s)) rest = also (server_response (encode_to_string bytes)) (rest s)

  unfoldable pub behind_write : Option S → (S → List Print × Ending S) → List Print × Ending S
  behind_write none rest = (send_error ∷ [], failed)
  behind_write (some s) rest = rest s

  unfoldable pub obey : Command → S → (S → List Print × Ending S) → List Print × Ending S
  obey exits s rest = ([], left)
  obey rejects_ping s rest = also ping_unsupported (rest s)
  obey pings s rest = behind_write (net.write s (0xff ∷ [])) (λ s'. also sent_ping (rest s'))
  obey rejects_hex s rest = also bad_input (rest s)
  obey (sends packet) s rest =
      behind_write (net.write s packet) (λ s'. receive (net.read s' 1000) rest)

  -- The loop, on the lines that ReadString returns.
  unfoldable pub run : Bool → List Text → S → List Print × Ending S
  run tcp [] s = ([], waits s)
  run tcp (line ∷ lines) s = obey (command tcp line) s (run tcp lines)
