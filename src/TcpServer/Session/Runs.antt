-- ===== src/TcpServer/Session/Runs.antt =====
-- simple-tcp-server: `handleConnection` on a device that sends its IMEI, pings and frames, and leaves.
use teltonika.Prelude.{
  ℕ, suc, ◌+◌, ◌*◌, ◌/◌, ◌≤◌, ◌<◌, ◌≡◌, refl, ◌∙◌, arith, false, none, some, List, [], ◌∷◌, ◌++◌,
  append-nil, length, drop, take-length_append, ltb, le→ltb, ◌==◌,
}
use teltonika.Bytes.{be16, u8}
use teltonika.Packet.{Float64}
use teltonika.IoElements.{Text}
use teltonika.Transport.Stream.{Reader}
use teltonika.TcpServer.Session.{
  Conn, on_connect, registers, wrote, on_close, deletes, closes, stopped, imei_buffer, filled,
  checked_imei, read_text, read_length, read_imei, go_on, ending, peeked, round, serve, greeted,
  session, admitted, handle_connection,
}
use teltonika.TcpServer.Session.Answers.{
  Item, items_code, all_answers, AreItems, IsUp, write_with_deadline-IsUp, serve-answers,
}

-- Read of the connection does not split what is asked for and has come, as `handleConnection`
-- counts on for the two reads of the IMEI message.
pub record IsWhole (S : Type 0) ⦃cn : Conn S⦄ (Holds : S → List ℕ → Type 0) : Type 0 where
  pub error :
      (s : S) (front rest : List ℕ)
      → Holds s (front ++ rest)
      → (cn.conn_read s (length front)).error ≡ none
  pub chunk :
      (s : S) (front rest : List ℕ)
      → Holds s (front ++ rest)
      → (cn.conn_read s (length front)).chunk ≡ front
  pub state :
      (s : S) (front rest : List ℕ)
      → Holds s (front ++ rest)
      → Holds (cn.conn_read s (length front)).state rest

module _ {S : Type 0} ⦃rd : Reader S⦄ ⦃cn : Conn S⦄ (Holds : S → List ℕ → Type 0)
    (up : IsUp S Holds) (whole : IsWhole S Holds) where
  checked_imei-IsWhole :
      (text rest buf : List ℕ) (s : S)
      → 0 < length (cn.trim_space text)
      → Holds s (text ++ rest)
      → (s' : S) × (checked_imei (length text) buf (cn.conn_read s (length text))
          ≡ some (cn.trim_space text, s'))
        × Holds s' rest
  unfolding checked_imei
  checked_imei-IsWhole text rest buf s some_text k =
      let all : ltb (length text) (length text) ≡ false = le→ltb _ _ (omega arith) in
      let some_imei : (length (cn.trim_space text) == 0) ≡ false = ground arith in
      (
        (cn.conn_read s (length text)).state,
        rw
            (
              whole.error s text rest k,
              whole.chunk s text rest k,
              all,
              take-length_append text (drop (length text) buf),
              some_imei,
            )
            refl,
        whole.state s text rest k,
      )

  -- The two reads of the IMEI message.
  read_imei-IsWhole :
      (text rest : List ℕ) (s : S)
      → 0 < length (cn.trim_space text)
      → length text ≤ 512
      → Holds s (be16 (length text) ++ (text ++ rest))
      → (s' : S) × (read_imei s ≡ some (cn.trim_space text, s')) × Holds s' rest
  unfolding read_imei read_length read_text
  read_imei-IsWhole text rest s some_text fits k =
      let (s₁, e₁, k₁) = up.read_deadline s _ k in
      let front = be16 (length text) in
      let field : u8 (length text / 256) * 256 + u8 (length text) ≡ length text = omega arith in
      let k₂ = whole.state s₁ front (text ++ rest) k₁ in
      let (s₃, e₃, k₃) = up.read_deadline _ _ k₂ in
      let (s₄, e₄, k₄) =
        checked_imei-IsWhole text rest (filled front imei_buffer) s₃ some_text k₃ in
      (
        s₄,
        rw
            (
              e₁,
              whole.error s₁ front (text ++ rest) k₁,
              whole.chunk s₁ front (text ++ rest) k₁,
              field,
              le→ltb 512 (length text) fits,
              e₃,
            )
            e₄,
        k₄,
      )

  module _ {F : Type 0} ⦃fl : Float64 F⦄ where
    -- At the end of the stream the next round ends the loop.
    serve-ends :
        (imei : Text) (s : S) (more : ℕ)
        → Holds s []
        → serve {F = F} (suc more) imei s ≡ ([], stopped)
    unfolding serve round peeked go_on
    serve-ends imei s more k =
        let (s₁, e₁, k₁) = up.read_deadline s [] k in rw (e₁, up.ends s₁ k₁) refl

    -- If a device sends its IMEI message, in which the text is not blank and at most 512 bytes long,
    -- then any pings and frames of packets that fit the format, in pieces of any size, and closes
    -- the connection, then its handler announces and registers it, sends 1, answers each packet of
    -- data frames with their number and hands on each packet, all in the order of the stream, then
    -- reports the end, deletes the client, closes the connection and returns. One round for each
    -- item and one more are enough, if the two reads of the IMEI message get all of it, the other
    -- calls of the connection succeed, and the hooks return. Packets of commands get no answer.
    pub handle_connection-answers :
        (text : List ℕ) (items : List (Item F)) (s : S) (more : ℕ)
        → 0 < length (cn.trim_space text)
        → length text ≤ 512
        → AreItems items
        → Holds s (be16 (length text) ++ (text ++ items_code items []))
        → let imei = cn.trim_space text in
          handle_connection (length items + suc more) s ≡ (
            on_connect imei
                ∷ registers imei
                ∷ wrote (1 ∷ [])
                ∷ (all_answers imei items ++ on_close imei ∷ deletes imei ∷ closes ∷ []),
            stopped,
          )
    unfolding handle_connection admitted session greeted ending
    handle_connection-answers text items s more some_text fits h k =
        let imei = cn.trim_space text in
        let (s₁, e₁, k₁) = read_imei-IsWhole text (items_code items []) s some_text fits k in
        let (s₂, e₂, k₂) = write_with_deadline-IsUp Holds up s₁ _ (1 ∷ []) k₁ in
        let (s₃, e₃, k₃) = serve-answers Holds up imei items [] s₂ (suc more) h k₂ in
        let done : serve (length items + suc more) imei s₂ ≡ (all_answers imei items, stopped) =
          unfold go_on in
          e₃ ∙ rw (serve-ends imei s₃ more k₃) (rw (append-nil (all_answers imei items)) refl) in
        rw (e₁, e₂, done) refl
