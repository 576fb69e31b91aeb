-- ===== src/HttpServer/Hub/Letters.antt =====
-- `handleCmd`, `WriteMessage`: where the letters in the channels come from.
use teltonika.Prelude.{ℕ, ◌≡◌, ◌⊎◌, refl, sym, inl, inr, Option, none, some, update, update-cases}
use teltonika.Packet.{Message}
use teltonika.IoElements.{Text}
use teltonika.HttpServer.{Answer, bad_request, gateway_timeout, answer_of}
use teltonika.HttpServer.Hub.{
  Caller, idle, carrying, panicked, Letter, Channel, Request, asking, sending, awaiting, answering,
  deleted, done, Hub, Step, takes, refuses, sends, receives, times_out, deletes, closes, loads,
  delivers, panics, Reach, start, later,
}
use teltonika.HttpServer.Hub.Exclusion.{Slotted}

-- The step is the start of a call, on the channel of a request, with a message.
abbrev pub Starts :
    (imei_of tracker_of : ℕ → Text) (c h : ℕ) (m : Option Message) {s t : Hub}
    → Step imei_of tracker_of s t
    → Type 0
Starts imei_of tracker_of c h m (loads c' h' m' _ _) = (c ≡ c') × (h ≡ h') × (m ≡ m')
Starts imei_of tracker_of c h m _ = ⊥

-- On the way to the state such a call has started.
abbrev pub HasCalled :
    {imei_of tracker_of : ℕ → Text} {s : Hub}
    → Reach imei_of tracker_of s
    → ℕ
    → ℕ
    → Option Message
    → Type 0
HasCalled start c h m = ⊥
HasCalled {imei_of} {tracker_of} (later r st) c h m =
    HasCalled r c h m ⊎ Starts imei_of tracker_of c h m st

-- `Called` holds of the calls that have started.
module _ (imei_of tracker_of : ℕ → Text) (Called : ℕ → ℕ → Option Message → Type 0) where
  abbrev pub IsCalled : ℕ → ℕ → Option Message → Type 0
  IsCalled c h m = (tracker_of c ≡ imei_of h) × Called c h m

  -- A letter to a request, if there is one, is from a call on its channel, of a connection with its
  -- IMEI.
  abbrev pub IsFor : ℕ → Option Letter → Type 0
  IsFor h none = Unit {0}
  IsFor h (some l) = IsCalled l.sender h l.content

  -- An answer, by the letter that it was made from.
  abbrev pub IsAnswer : ℕ → Answer → Option Letter → Type 0
  IsAnswer h a none = (a ≡ bad_request) ⊎ (a ≡ gateway_timeout)
  IsAnswer h a (some l) = (a ≡ answer_of l.content) × IsCalled l.sender h l.content

  abbrev pub IsAnswered : ℕ → Request → Type 0
  IsAnswered h (answering a l) = IsAnswer h a l
  IsAnswered h (deleted a l) = IsAnswer h a l
  IsAnswered h (done a l) = IsAnswer h a l
  IsAnswered h _ = Unit {0}

  abbrev pub IsCarried : ℕ → Caller → Type 0
  IsCarried c (carrying m h) = IsCalled c h m
  IsCarried c _ = Unit {0}

  pub record Addressed (s : Hub) : Type 0 where
    pub letters : (h : ℕ) → IsFor h (s.channel h).buffer
    pub answers : (h : ℕ) → IsAnswered h (s.request h)
    pub carried : (c : ℕ) → IsCarried c (s.caller c)

  -- A property of each member of a family, after one of them changed.
  update-each :
      {A : Type 0} (P : ℕ → A → Type 0) (n : ℕ) (a : A) (f : ℕ → A)
      → P n a
      → ((k : ℕ) → P k (f k))
      → (k : ℕ) → P k (update n a f k)
  update-each P n a f now h k = elim (update-cases n a f k) [
    | inl (k_n, same) ↦ rw (same, k_n) now
    | inr same ↦ rw same (h k)
  ]

  answered :
      (s : Hub) (h : ℕ) (r : Request)
      → IsAnswered h r
      → Addressed s
      → (k : ℕ) → IsAnswered k (update h r s.request k)
  answered s h r now v = update-each IsAnswered h r s.request now v.answers

  pub Step-Addressed :
      {s t : Hub} (st : Step imei_of tracker_of s t)
      → ((c h : ℕ) (m : Option Message) → Starts imei_of tracker_of c h m st → Called c h m)
      → Slotted imei_of s.slots s.request
      → Addressed s
      → Addressed t
  Step-Addressed {s} (takes h e free) n w v = record {
    letters = v.letters;
    answers = answered s h sending tt v;
    carried = v.carried;
  }
  Step-Addressed {s} (refuses h e) n w v = record {
    letters = v.letters;
    answers = answered s h _ (inl refl) v;
    carried = v.carried;
  }
  Step-Addressed {s} (sends h e) n w v = record {
    letters = v.letters;
    answers = answered s h awaiting tt v;
    carried = v.carried;
  }
  Step-Addressed {s} (receives h l e full) n w v = record {
    letters = update-each (λ k (ch : Channel). IsFor k ch.buffer) h _ s.channel tt v.letters;
    answers = answered s h _ (refl, rw full at (v.letters h)) v;
    carried = v.carried;
  }
  Step-Addressed {s} (times_out h e) n w v = record {
    letters = v.letters;
    answers = answered s h _ (inr refl) v;
    carried = v.carried;
  }
  Step-Addressed {s} (deletes h a l e) n w v = record {
    letters = v.letters;
    answers = answered s h (deleted a l) (rw e at (v.answers h)) v;
    carried = v.carried;
  }
  Step-Addressed {s} (closes h a l e) n w v = record {
    letters =
        update-each (λ k (ch : Channel). IsFor k ch.buffer) h _ s.channel (v.letters h) v.letters;
    answers = answered s h (done a l) (rw e at (v.answers h)) v;
    carried = v.carried;
  }
  Step-Addressed {s} (loads c h m e found) n w v = record {
    letters = v.letters;
    answers = v.answers;
    carried =
        update-each IsCarried c (carrying m h) s.caller
          (sym (w.held (tracker_of c) h found).1, n c h m (refl, refl, refl)) v.carried;
  }
  Step-Addressed {s} (delivers c h m e room) n w v = record {
    letters =
        update-each (λ k (ch : Channel). IsFor k ch.buffer) h _ s.channel (rw e at (v.carried c))
          v.letters;
    answers = v.answers;
    carried = update-each IsCarried c idle s.caller tt v.carried;
  }
  Step-Addressed {s} (panics c h m e shut) n w v = record {
    letters = v.letters;
    answers = v.answers;
    carried = update-each IsCarried c panicked s.caller tt v.carried;
  }

-- What holds of the calls may be less than `Called`.
module _ (imei_of tracker_of : ℕ → Text) (Called More : ℕ → ℕ → Option Message → Type 0)
    (more : (c h : ℕ) (m : Option Message) → Called c h m → More c h m) where
  IsFor-more :
      (h : ℕ) (l : Option Letter)
      → IsFor imei_of tracker_of Called h l
      → IsFor imei_of tracker_of More h l
  IsFor-more h none e = tt
  IsFor-more h (some l) (same, e) = (same, more l.sender h l.content e)

  IsAnswer-more :
      (h : ℕ) (a : Answer) (l : Option Letter)
      → IsAnswer imei_of tracker_of Called h a l
      → IsAnswer imei_of tracker_of More h a l
  IsAnswer-more h a none e = e
  IsAnswer-more h a (some l) (said, (same, e)) = (said, (same, more l.sender h l.content e))

  IsAnswered-more :
      (h : ℕ) (r : Request)
      → IsAnswered imei_of tracker_of Called h r
      → IsAnswered imei_of tracker_of More h r
  IsAnswered-more h asking e = tt
  IsAnswered-more h sending e = tt
  IsAnswered-more h awaiting e = tt
  IsAnswered-more h (answering a l) e = IsAnswer-more h a l e
  IsAnswered-more h (deleted a l) e = IsAnswer-more h a l e
  IsAnswered-more h (done a l) e = IsAnswer-more h a l e

  IsCarried-more :
      (c : ℕ) (k : Caller)
      → IsCarried imei_of tracker_of Called c k
      → IsCarried imei_of tracker_of More c k
  IsCarried-more c idle e = tt
  IsCarried-more c (carrying m h) (same, e) = (same, more c h m e)
  IsCarried-more c panicked e = tt

  pub Addressed-more :
      (s : Hub) → Addressed imei_of tracker_of Called s → Addressed imei_of tracker_of More s
  Addressed-more s v = record {
    letters = λ h. IsFor-more h _ (v.letters h);
    answers = λ h. IsAnswered-more h _ (v.answers h);
    carried = λ c. IsCarried-more c _ (v.carried c);
  }
