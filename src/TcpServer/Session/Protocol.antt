-- ===== src/TcpServer/Session/Protocol.antt =====
-- simple-tcp-server: what a handler of a connection does, in which order, whatever the connection
-- delivers and whichever of its calls fail.
use teltonika.Prelude.{
  ℕ, zero, suc, ◌<◌, ◌≡◌, refl, inl, inr, Bool, true, false, Option, none, some, List, [], ◌∷◌,
  ◌++◌, length, All, ◌==◌, Bool-cases, if◌then◌else◌, Result,
}
use teltonika.Packet.{Float64, DecodedTcp}
use teltonika.IoElements.{Text}
use teltonika.Transport.Stream.{Reader}
use teltonika.Transport.Readers.{Decoded, gave, gave_up, decode_tcp_from_reader_buf-Decoded}
use teltonika.TcpServer.Session.Imei.{IsNamed, read_imei-IsNamed}
use teltonika.TcpServer.Session.{
  Conn, Event, on_connect, registers, wrote, on_packet, on_close, deletes, closes, Next, next,
  stopped, crashed, decode_config, read_buffer, write_with_deadline, read_imei, respond, decoded,
  pinged, go_on, ending, peeked, round, serve, greeted, session, admitted, handle_connection,
  on_success,
}

module _ {F : Type 0} where
  -- An answer, or a packet that is handed on under the IMEI.
  abbrev pub IsService : Text → Event F → Type 0
  IsService imei (wrote bytes) = Unit {0}
  IsService imei (on_packet i p) = i ≡ imei
  IsService imei _ = ⊥

  module _ {S : Type 0} where
    -- Services alone, and no panic.
    record Serves (imei : Text) (r : List (Event F) × Next S) : Type 0 where
      services : All (IsService imei) r.0
      no_panic : (r.1 ≡ crashed) → ⊥

    -- The connection was refused without a word; or it was announced and registered under an IMEI
    -- that is not empty, served under it, and either is still served, or was reported, deleted
    -- and closed.
    pub data IsSession : List (Event F) × Next S → Type 0 where
      refused : IsSession (closes ∷ [], stopped)
      running :
          (imei : Text) (es : List (Event F)) (s : S)
          → 0 < length imei
          → All (IsService imei) es
          → IsSession (on_connect imei ∷ registers imei ∷ es, next s)
      over :
          (imei : Text) (es : List (Event F))
          → 0 < length imei
          → All (IsService imei) es
          → IsSession (
            on_connect imei ∷ registers imei ∷ (es ++ on_close imei ∷ deletes imei ∷ closes ∷ []),
            stopped,
          )

All-append {ℓ κ} :
    {A : Type ℓ} (P : A → Type κ) (xs ys : List A) → All P xs → All P ys → All P (xs ++ ys)
All-append P [] ys hx hy = hy
All-append P (x ∷ xs) ys hx hy = (hx.0, All-append P xs ys hx.1 hy)

module _ {S : Type 0} ⦃cn : Conn S⦄ {F : Type 0} where
  quiet : (imei : Text) (r : Next S) → ((r ≡ crashed) → ⊥) → Serves {F = F} imei ([], r)
  quiet imei r h = record { services = tt; no_panic = h }

  respond-Serves : (imei : Text) (res : DecodedTcp F) (s : S) → Serves imei (respond imei res s)
  unfolding respond
  respond-Serves imei res s = go (length res.response == 0) (write_with_deadline res.response s)
    where
      go :
          (none_due : Bool) (o : Option S)
          → Serves imei (
              if none_due
              then (on_packet imei res.packet ∷ [], next s)
              else on_success o
                  ([], stopped)
                  (λ s'. (wrote res.response ∷ on_packet imei res.packet ∷ [], next s')))
      go true o = record { services = (refl, tt); no_panic = λ e. cc e }
      go false none = quiet imei stopped (λ e. cc e)
      go false (some s') = record { services = (tt, (refl, tt)); no_panic = λ e. cc e }

  decoded-Serves :
      (imei : Text) (m : Result (ℕ × DecodedTcp F × Option S))
      → Decoded m
      → Serves imei (decoded imei m)
  unfolding decoded
  decoded-Serves imei m (gave read res s) = respond-Serves imei res s
  decoded-Serves imei m (gave_up e) = quiet imei stopped (λ e. cc e)

  pinged-Serves : (imei : Text) (o : Option S) → Serves {F = F} imei (pinged o)
  unfolding pinged
  pinged-Serves imei none = quiet imei stopped (λ e. cc e)
  pinged-Serves imei (some s) = quiet imei (next s) (λ e. cc e)

  go_on-Serves :
      (imei : Text) (r : List (Event F) × Next S) (k : S → List (Event F) × Next S)
      → Serves imei r
      → ((s : S) → Serves imei (k s))
      → Serves imei (go_on r k)
  unfolding go_on
  go_on-Serves imei (es, stopped) k h hk = h
  go_on-Serves imei (es, crashed) k h hk = h
  go_on-Serves imei (es, next s) k h hk = record {
    services = All-append (IsService imei) es _ h.services (hk s).services;
    no_panic = (hk s).no_panic;
  }

  ending-IsSession :
      (imei : Text) (r : List (Event F) × Next S)
      → 0 < length imei
      → Serves imei r
      → IsSession (
          ending
            (on_close imei ∷ deletes imei ∷ closes ∷ [])
            (on_connect imei ∷ registers imei ∷ r.0, r.1))
  unfolding ending
  ending-IsSession imei (es, stopped) h s = over imei es h s.services
  ending-IsSession imei (es, crashed) h s = absurd (s.no_panic refl)
  ending-IsSession imei (es, next t) h s = running imei es t h s.services

  module _ ⦃fl : Float64 F⦄ ⦃rd : Reader S⦄ where
    peeked-Serves : (imei : Text) (o : Option (ℕ × S)) → Serves {F = F} imei (peeked imei o)
    unfolding peeked
    peeked-Serves imei none = quiet imei stopped (λ e. cc e)
    peeked-Serves imei (some (byte, s)) = elim (Bool-cases (byte == 0xff)) [
      | inl ping ↦ rw ping (pinged-Serves imei (cn.discard s))
      | inr frame ↦ rw frame (
          decoded-Serves imei _
            (decode_tcp_from_reader_buf-Decoded F S s read_buffer (some decode_config ∷ [])))
    ]

    round-Serves : (imei : Text) (s : S) → Serves {F = F} imei (round imei s)
    unfolding round
    round-Serves imei s = go (cn.set_read_deadline s)
      where
        go :
            (o : Option S)
            → Serves {F = F} imei (on_success o ([], stopped) (λ s'. peeked imei (cn.peek s')))
        go none = quiet imei stopped (λ e. cc e)
        go (some s') = peeked-Serves imei (cn.peek s')

    serve-Serves : (rounds : ℕ) (imei : Text) (s : S) → Serves {F = F} imei (serve rounds imei s)
    unfolding serve
    serve-Serves zero imei s = quiet imei (next s) (λ e. cc e)
    serve-Serves (suc rounds) imei s =
        go_on-Serves imei (round imei s) _ (round-Serves imei s) (serve-Serves rounds imei)

    greeted-Serves :
        (rounds : ℕ) (imei : Text) (o : Option S) → Serves {F = F} imei (greeted rounds imei o)
    unfolding greeted
    greeted-Serves rounds imei none = quiet imei stopped (λ e. cc e)
    greeted-Serves rounds imei (some s) =
        let h = serve-Serves rounds imei s in
        record { services = (tt, h.services); no_panic = h.no_panic }

    admitted-IsSession :
        (rounds : ℕ) (o : Option (Text × S)) → IsNamed o → IsSession {F = F} (admitted rounds o)
    unfolding admitted session
    admitted-IsSession rounds none h = refused
    admitted-IsSession rounds (some (imei, s)) h =
        ending-IsSession imei _ h (greeted-Serves rounds imei (write_with_deadline (1 ∷ []) s))

    -- If its hooks return, then whatever a connection delivers, and whichever of its calls fail, after
    -- any number of rounds the handler has not panicked; it closed the connection without a word, or it announced and
    -- registered one IMEI, which is not empty, then only answered and handed on packets of this
    -- IMEI, and either goes on or ended by reporting and deleting this IMEI and closing, in this order.
    pub handle_connection-IsSession :
        (rounds : ℕ) (s : S) → IsSession {F = F} (handle_connection rounds s)
    unfolding handle_connection
    handle_connection-IsSession rounds s =
        admitted-IsSession rounds (read_imei s) (read_imei-IsNamed s)
