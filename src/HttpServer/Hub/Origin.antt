-- ===== src/HttpServer/Hub/Origin.antt =====
-- `handleCmd`, `WriteMessage`: whose message a request is answered with.
use teltonika.Prelude.{ℕ, ◌≡◌, refl, ap, inl, inr, Option, none, some}
use teltonika.Packet.{Message}
use teltonika.IoElements.{Text}
use teltonika.HttpServer.{responded, answer_of}
use teltonika.HttpServer.Hub.{Letter, answering, Hub, init, Reach, start, later}
use teltonika.HttpServer.Hub.Exclusion.{Reach-Slotted}
use teltonika.HttpServer.Hub.Letters.{
  IsAnswer, Addressed, HasCalled, Step-Addressed, Addressed-more,
}

module _ (imei_of tracker_of : ℕ → Text) where
  Reach-Addressed :
      {s : Hub} (r : Reach imei_of tracker_of s) → Addressed imei_of tracker_of (HasCalled r) s
  unfolding init
  Reach-Addressed start = record { letters = λ h. tt; answers = λ h. tt; carried = λ c. tt }
  Reach-Addressed (later {s} {t} r st) =
      Step-Addressed imei_of tracker_of (HasCalled (later r st)) st (λ c h m e. inr e)
        (Reach-Slotted imei_of tracker_of r)
        (Addressed-more imei_of tracker_of (HasCalled r) (HasCalled (later r st)) (λ c h m e. inl e)
          s (Reach-Addressed r))

  -- What a response of the device says: the connection that sent it, by a call with a message on the
  -- channel of the request, the letter that this call put there, and its text.
  pub record IsFrom {s : Hub} (r : Reach imei_of tracker_of s) (h : ℕ) (text : Text)
      (l : Option Letter) : Type 0 where
    pub sender : ℕ
    pub message : Message
    pub letter : l ≡ some (record { sender = sender; content = some message })
    pub same_imei : tracker_of sender ≡ imei_of h
    pub same_text : message.text ≡ text
    pub called : HasCalled r sender h (some message)

  responded-message :
      (text : Text) (c : Option Message)
      → responded text ≡ answer_of c
      → (m : Message) × (c ≡ some m) × (m.text ≡ text)
  unfolding answer_of
  responded-message text none e = absurd (cc e)
  responded-message text (some m) e = (m, refl, cc)

  answer-IsFrom :
      {s : Hub} (r : Reach imei_of tracker_of s) (h : ℕ) (text : Text) (l : Option Letter)
      → IsAnswer imei_of tracker_of (HasCalled r) h (responded text) l
      → IsFrom r h text l
  answer-IsFrom r h text none (inl e) = absurd (cc e)
  answer-IsFrom r h text none (inr e) = absurd (cc e)
  answer-IsFrom r h text (some l) (e, (same, called)) =
      let (m, content, said) = responded-message text l.content e in
      record {
        sender = l.sender;
        message = m;
        letter = ap (λ c. some (record { sender = l.sender; content = c })) content;
        same_imei = same;
        same_text = said;
        called = rw content at called;
      }

  -- In every reachable state, a request that is answered with a text is answered with that of a
  -- message which a call of WriteMessage, from a connection with the IMEI of the request, was given
  -- and put unchanged into the channel of this request.
  pub Reach-IsFrom :
      (s : Hub) (h : ℕ) (text : Text) (l : Option Letter) (r : Reach imei_of tracker_of s)
      → s.request h ≡ answering (responded text) l
      → IsFrom r h text l
  Reach-IsFrom s h text l r e = answer-IsFrom r h text l (rw e at ((Reach-Addressed r).answers h))
