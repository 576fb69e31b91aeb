-- ===== src/TcpServer/Session.antt =====
-- simple-tcp-server: `handleConnection`, one connection from its IMEI message to its end.
pub mod Imei
pub mod Protocol
pub mod Hooked
pub mod Answers
pub mod Runs
use teltonika.Prelude.{
  ℕ, zero, suc, Bool, Option, none, some, List, [], ◌∷◌, ◌++◌, length, take, drop, replicate, ltb,
  ◌==◌, not, if◌then◌else◌, Result, ok, err, panic,
}
use teltonika.Bytes.{uint16_be}
use teltonika.Packet.{Packet, Float64, DecodedTcp, DecodeConfig, on_read_buffer}
use teltonika.IoElements.{Text}
use teltonika.Transport.Stream.{Reader, ReadResult, is_error}
use teltonika.Transport.Tcp.{decode_tcp_from_reader_buf}

-- The calls of net.Conn and of the bufio.Reader over it but for Read: `conn_read` is Read of the
-- connection, which runs before the bufio.Reader is made, and Read of the latter is the interface
-- Reader. `none` is an error. strings.TrimSpace is a parameter too.
pub record Conn (S : Type 0) : Type 0 where
  pub conn_read : S → ℕ → ReadResult S
  pub set_read_deadline : S → Option S
  pub set_write_deadline : S → Option S
  pub write : S → List ℕ → Option S
  pub peek : S → Option (ℕ × S)
  pub discard : S → Option S
  pub trim_space : Text → Text

-- What a handler does to the world, in order: calls of the hooks, which do nothing if they are nil,
-- of the registry, and successful writes. `registers` is LoadOrStore with what follows if there was
-- a client already. An event of a hook is its call, and the events behind it are what the handler
-- does if the call returns; Session/Hooked has what it does if it blocks or panics.
pub data Event (F : Type 0) : Type 0 where
  on_connect : Text → Event F
  registers : Text → Event F
  wrote : List ℕ → Event F
  on_packet : Text → Packet F → Event F
  on_close : Text → Event F
  deletes : Text → Event F
  closes : Event F

-- A handler returned, or it panicked, or it goes on from a state.
pub data Next (S : Type 0) : Type 0 where
  stopped : Next S
  crashed : Next S
  next : S → Next S

abbrev pub decode_config : DecodeConfig
decode_config = record { io_elements_alloc = on_read_buffer }

abbrev pub imei_buffer : List ℕ
imei_buffer = replicate 512 0

abbrev pub read_buffer : List ℕ
read_buffer = replicate 1300 0

-- What a `Read` of a chunk leaves in a buffer.
abbrev pub filled : List ℕ → List ℕ → List ℕ
filled chunk buf = chunk ++ drop (length chunk) buf

-- `if err != nil { return }` behind a call.
abbrev pub on_success {ℓ κ} : {A : Type ℓ} {B : Type κ} → Option A → B → (A → B) → B
on_success none failed k = failed
on_success (some a) failed k = k a

module _ {S : Type 0} ⦃cn : Conn S⦄ where
  unfoldable pub write_with_deadline : List ℕ → S → Option S
  write_with_deadline bytes s = on_success (cn.set_write_deadline s) none (λ s'. cn.write s' bytes)

  -- The IMEI that was read into the buffer, if all of it came and it is not blank.
  unfoldable pub checked_imei : ℕ → List ℕ → ReadResult S → Option (Text × S)
  checked_imei imei_len buf r =
      let imei = cn.trim_space (take imei_len (filled r.chunk buf)) in
      if is_error r.error
      then none
      else if ltb (length r.chunk) imei_len
      then none
      else if length imei == 0
      then none
      else some (imei, r.state)

  unfoldable pub read_text : Result ℕ → List ℕ → S → Option (Text × S)
  read_text panic buf s = none
  read_text (err e) buf s = none
  read_text (ok imei_len) buf s =
      if ltb (length buf) imei_len
      then none
      else on_success (cn.set_read_deadline s) none
          (λ s'. checked_imei imei_len buf (cn.conn_read s' imei_len))

  unfoldable pub read_length : ReadResult S → Option (Text × S)
  read_length r =
      let buf = filled r.chunk imei_buffer in
      if is_error r.error
      then none
      else if not (length r.chunk == 2)
      then none
      else read_text (uint16_be buf) buf r.state

  -- The IMEI message.
  unfoldable pub read_imei : S → Option (Text × S)
  read_imei s = on_success (cn.set_read_deadline s) none (λ s'. read_length (cn.conn_read s' 2))

  module _ {F : Type 0} where
    -- A packet is answered, if it has a response, before it is handed on.
    unfoldable pub respond : Text → DecodedTcp F → S → List (Event F) × Next S
    respond imei res s =
        if length res.response == 0
        then (on_packet imei res.packet ∷ [], next s)
        else on_success (write_with_deadline res.response s) ([], stopped)
            (λ s'. (wrote res.response ∷ on_packet imei res.packet ∷ [], next s'))

    unfoldable pub decoded : Text → Result (ℕ × DecodedTcp F × Option S) → List (Event F) × Next S
    decoded imei (ok (read, res, some s)) = respond imei res s
    decoded imei (ok (read, res, none)) = ([], crashed)
    decoded imei (err e) = ([], stopped)
    decoded imei panic = ([], crashed)

    unfoldable pub pinged : Option S → List (Event F) × Next S
    pinged none = ([], stopped)
    pinged (some s) = ([], next s)

    -- What a round gave, and the rounds after it.
    unfoldable pub go_on :
        List (Event F) × Next S → (S → List (Event F) × Next S) → List (Event F) × Next S
    go_on (es, stopped) k = (es, stopped)
    go_on (es, crashed) k = (es, crashed)
    go_on (es, next s) k = let (es', r) = k s in (es ++ es', r)

    -- The deferred function; a handler that did not return has not run it.
    unfoldable pub ending : List (Event F) → List (Event F) × Next S → List (Event F) × Next S
    ending last (es, stopped) = (es ++ last, stopped)
    ending last (es, crashed) = (es ++ last, crashed)
    ending last (es, next s) = (es, next s)

    module _ ⦃fl : Float64 F⦄ ⦃rd : Reader S⦄ where
      unfoldable pub peeked : Text → Option (ℕ × S) → List (Event F) × Next S
      peeked imei none = ([], stopped)
      peeked imei (some (byte, s)) =
          if byte == 0xff
          then pinged (cn.discard s)
          else decoded imei
              (decode_tcp_from_reader_buf s (some read_buffer) (some decode_config ∷ []))

      -- One round of the loop over packets.
      unfoldable pub round : Text → S → List (Event F) × Next S
      round imei s =
          on_success (cn.set_read_deadline s) ([], stopped) (λ s'. peeked imei (cn.peek s'))

      -- So many rounds of it; the loop has no end of its own.
      unfoldable pub serve : ℕ → Text → S → List (Event F) × Next S
      serve zero imei s = ([], next s)
      serve (suc rounds) imei s = go_on (round imei s) (λ s'. serve rounds imei s')

      -- The answer to the IMEI message, and the packets.
      unfoldable pub greeted : ℕ → Text → Option S → List (Event F) × Next S
      greeted rounds imei none = ([], stopped)
      greeted rounds imei (some s) = let (es, r) = serve rounds imei s in (wrote (1 ∷ []) ∷ es, r)

      unfoldable pub session : ℕ → Text → S → List (Event F) × Next S
      session rounds imei s =
          let (es, r) = greeted rounds imei (write_with_deadline (1 ∷ []) s) in
          (on_connect imei ∷ registers imei ∷ es, r)

      unfoldable pub admitted : ℕ → Option (Text × S) → List (Event F) × Next S
      admitted rounds none = (closes ∷ [], stopped)
      admitted rounds (some (imei, s)) =
          ending (on_close imei ∷ deletes imei ∷ closes ∷ []) (session rounds imei s)

      unfoldable pub handle_connection : ℕ → S → List (Event F) × Next S
      handle_connection rounds s = admitted rounds (read_imei s)
