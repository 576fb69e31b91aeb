-- ===== src/TcpServer/Session/Answers.antt =====
-- simple-tcp-server: the loop of `handleConnection` on a stream of pings and frames.
use teltonika.Prelude.{
  ℕ, suc, ◌+◌, ◌≤◌, ◌≡◌, refl, sym, ap, arith, inl, inr, Option, none, some, List, [], ◌∷◌, ◌++◌,
  append_assoc, length, if◌then◌else◌, Bool-cases,
}
use teltonika.Bytes.{be32}
use teltonika.Packet.{Packet, Float64, is_cmd_codec_id}
use teltonika.IoElements.{Text}
use teltonika.Encode.Frame.{or_nil}
use teltonika.Transport.Stream.{Reader}
use teltonika.Transport.Stream.Delivery.{IsStream}
use teltonika.Transport.Streaming.{decode_tcp_from_reader_buf-IsStream}
use teltonika.Transport.Responses.{tcp_response-count}
use teltonika.Transport.Decoding.{tcp_decoded}
use teltonika.Transport.Format.{tcp_code}
use teltonika.Wire.{IsPacket, packet_code, normal_packet}
use teltonika.TcpServer.Session.{
  Conn, Event, on_packet, wrote, next, decode_config, read_buffer, write_with_deadline, respond,
  decoded, pinged, go_on, peeked, round, serve,
}

-- What a device sends after its IMEI message.
pub data Item (F : Type 0) : Type 0 where
  ping : Item F
  frame : Packet F → Item F

-- The call succeeded, and the bytes that are still to come are these.
abbrev pub Keeps : {S : Type 0} → (S → List ℕ → Type 0) → List ℕ → Option S → Type 0
Keeps {S} Holds bytes o = (s : S) × (o ≡ some s) × Holds s bytes

-- A connection that stays up until the bytes that it `Holds` were read: Read of the bufio.Reader
-- delivers them in pieces of any size, Peek shows the next one, and at their end it fails.
pub record IsUp (S : Type 0) ⦃rd : Reader S⦄ ⦃cn : Conn S⦄ (Holds : S → List ℕ → Type 0)
    : Type 0 where
  pub stream : IsStream Holds
  pub read_deadline :
      (s : S) (bytes : List ℕ) → Holds s bytes → Keeps Holds bytes (cn.set_read_deadline s)
  pub write_deadline :
      (s : S) (bytes : List ℕ) → Holds s bytes → Keeps Holds bytes (cn.set_write_deadline s)
  pub writes : (s : S) (bytes out : List ℕ) → Holds s bytes → Keeps Holds bytes (cn.write s out)
  pub peeks :
      (s : S) (b : ℕ) (bytes : List ℕ)
      → Holds s (b ∷ bytes)
      → (s' : S) × (cn.peek s ≡ some (b, s')) × Holds s' (b ∷ bytes)
  pub discards :
      (s : S) (b : ℕ) (bytes : List ℕ) → Holds s (b ∷ bytes) → Keeps Holds bytes (cn.discard s)
  pub ends : (s : S) → Holds s [] → cn.peek s ≡ none

module _ {F : Type 0} ⦃fl : Float64 F⦄ where
  unfoldable pub item_code : Item F → List ℕ
  item_code ping = 0xff ∷ []
  item_code (frame p) = tcp_code p

  unfoldable pub items_code : List (Item F) → List ℕ → List ℕ
  items_code [] rest = rest
  items_code (i ∷ is) rest = item_code i ++ items_code is rest

  -- A ping is not answered. A packet is handed on, and a packet of data frames is answered before
  -- with the number of its frames.
  unfoldable pub answers : Text → Item F → List (Event F)
  answers imei ping = []
  answers imei (frame p) =
      if is_cmd_codec_id p.codec_id
      then on_packet imei (normal_packet p) ∷ []
      else wrote (be32 (length (or_nil p.frames))) ∷ on_packet imei (normal_packet p) ∷ []

  unfoldable pub all_answers : Text → List (Item F) → List (Event F)
  all_answers imei [] = []
  all_answers imei (i ∷ is) = answers imei i ++ all_answers imei is

  -- Items that the server can take.
  abbrev pub IsItem : Item F → Type 0
  IsItem ping = Unit {0}
  IsItem (frame p) = IsPacket p × (length (packet_code p) ≤ 1280)

  abbrev pub AreItems : List (Item F) → Type 0
  AreItems [] = Unit {0}
  AreItems (i ∷ is) = IsItem i × AreItems is

module _ {S : Type 0} ⦃rd : Reader S⦄ ⦃cn : Conn S⦄ (Holds : S → List ℕ → Type 0)
    (up : IsUp S Holds) where
  pub write_with_deadline-IsUp :
      (s : S) (bytes out : List ℕ) → Holds s bytes → Keeps Holds bytes (write_with_deadline out s)
  unfolding write_with_deadline
  write_with_deadline-IsUp s bytes out h =
      let (s₁, e₁, h₁) = up.write_deadline s bytes h in
      let (s₂, e₂, h₂) = up.writes s₁ bytes out h₁ in (s₂, rw (e₁, e₂), h₂)

  module _ {F : Type 0} ⦃fl : Float64 F⦄ where
    respond-answers :
        (imei : Text) (p : Packet F) (rest : List ℕ) (s : S)
        → IsPacket p
        → Holds s rest
        → (s' : S) × (respond imei (tcp_decoded p) s ≡ (answers imei (frame p), next s'))
          × Holds s' rest
    unfolding respond tcp_decoded answers
    respond-answers imei p rest s h k =
        let (s', e, k') = write_with_deadline-IsUp s rest (be32 (length (or_nil p.frames))) k in
        elim (Bool-cases (is_cmd_codec_id p.codec_id)) [
          | inl command ↦ (s, rw (tcp_response-count p h, command) refl, k)
          | inr data_frames ↦ (s', rw (tcp_response-count p h, data_frames, e) refl, k')
        ]

    -- A frame does not start like a ping.
    peek-tcp_code :
        (p : Packet F) (rest : List ℕ) (s : S)
        → Holds s (tcp_code p ++ rest)
        → (s' : S) × (cn.peek s ≡ some (0, s')) × Holds s' (tcp_code p ++ rest)
    unfolding tcp_code
    peek-tcp_code p rest s k = up.peeks s 0 _ k

    -- One round takes one item off the stream.
    round-answers :
        (imei : Text) (i : Item F) (rest : List ℕ) (s : S)
        → IsItem i
        → Holds s (item_code i ++ rest)
        → (s' : S) × (round imei s ≡ (answers imei i, next s')) × Holds s' rest
    unfolding round peeked pinged decoded item_code answers
    round-answers imei ping rest s h k =
        let (s₁, e₁, k₁) = up.read_deadline s _ k in
        let (s₂, e₂, k₂) = up.peeks s₁ 0xff rest k₁ in
        let (s₃, e₃, k₃) = up.discards s₂ 0xff rest k₂ in (s₃, rw (e₁, e₂, e₃) refl, k₃)
    round-answers imei (frame p) rest s (h, small) k =
        let (s₁, e₁, k₁) = up.read_deadline s _ k in
        let (s₂, e₂, k₂) = peek-tcp_code p rest s₁ k₁ in
        let (s₃, e₃, k₃) =
          decode_tcp_from_reader_buf-IsStream Holds up.stream p rest read_buffer s₂
            (some decode_config ∷ []) h small (omega arith) (omega arith) k₂ in
        let (s₄, e₄, k₄) = respond-answers imei p rest s₃ h k₃ in (s₄, rw (e₁, e₂, e₃) e₄, k₄)

    -- So do the rounds of the loop, and those that follow go on behind the items.
    pub serve-answers :
        (imei : Text) (items : List (Item F)) (rest : List ℕ) (s : S) (more : ℕ)
        → AreItems items
        → Holds s (items_code items rest)
        → (s' : S) × (serve (length items + more) imei s
            ≡ go_on (all_answers imei items, next s') (λ t. serve more imei t))
          × Holds s' rest
    unfolding serve items_code all_answers go_on
    serve-answers imei [] rest s more h k =
        let same : 0 + more ≡ more = omega arith in (s, rw same refl, k)
    serve-answers imei (i ∷ is) rest s more (h, hs) k =
        let (s₁, e₁, k₁) = round-answers imei i (items_code is rest) s h k in
        let (s₂, e₂, k₂) = serve-answers imei is rest s₁ more hs k₁ in
        let step : suc (length is) + more ≡ suc (length is + more) = omega arith in
        (
          s₂,
          rw (step, e₁, e₂)
              (ap (λ (t : List (Event F)). (t, (serve {F = F} more imei s₂).1))
                (sym (
                  append_assoc (answers imei i) (all_answers imei is)
                    (serve {F = F} more imei s₂).0))),
          k₂,
        )
