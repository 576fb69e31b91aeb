-- ===== src/HttpServer/Hub.antt =====
-- The requests of `handleCmd` and the calls of `WriteMessage` and `ClientDisconnected` that run at
-- the same time, as a step relation on the map `respChan`, the channels in it and the callers.
pub mod Exclusion
pub mod Letters
pub mod Origin
pub mod Panic
use teltonika.Prelude.{ℕ, ◌≡◌, Bool, true, false, Option, none, some, if◌then◌else◌, update}
use teltonika.Packet.{Message}
use teltonika.IoElements.{Text, same_text}
use teltonika.HttpServer.{Answer, bad_request, gateway_timeout, answer_of}

-- `respChan *sync.Map`; the channel of a request has the request's number.
abbrev pub Slots : Type 0
Slots = Text → Option ℕ

unfoldable pub store_channel : Text → ℕ → Slots → Slots
store_channel imei request slots key = if same_text key imei then some request else slots key

unfoldable pub delete_channel : Text → Slots → Slots
delete_channel imei slots key = if same_text key imei then none else slots key

-- A call of `WriteMessage` (`some` message) or `ClientDisconnected` (`none`, the nil message): not
-- running, between Load and the send on the channel of a request, or gone by a panic.
pub data Caller : Type 0 where
  idle : Caller
  carrying : Option Message → ℕ → Caller
  panicked : Caller

-- What stands in a channel of capacity 1. The caller that sent it is for the proofs.
pub record Letter : Type 0 where
  pub sender : ℕ
  pub content : Option Message

pub record Channel : Type 0 where
  pub buffer : Option Letter
  pub closed : Bool

-- Where a request is: in the loop over LoadOrStore; behind it, before SendPacket returned; in the
-- select; behind it, with the answer; behind Delete; and behind close. The letter that an answer was
-- made from is for the proofs.
pub data Request : Type 0 where
  asking : Request
  sending : Request
  awaiting : Request
  answering : Answer → Option Letter → Request
  deleted : Answer → Option Letter → Request
  done : Answer → Option Letter → Request

pub record Hub : Type 0 where
  pub slots : Slots
  pub request : ℕ → Request
  pub channel : ℕ → Channel
  pub caller : ℕ → Caller

unfoldable pub init : Hub
init = record {
  slots = λ imei. none;
  request = λ h. asking;
  channel = λ h. record { buffer = none; closed = false };
  caller = λ c. idle;
}

-- The IMEI of each request, and of the connection that each caller handles.
module _ (imei_of tracker_of : ℕ → Text) where
  pub data Step (s : Hub) : Hub → Type 0 where
    -- LoadOrStore finds no channel; if it finds one, the request sleeps and tries again.
    takes :
        (h : ℕ)
        → s.request h ≡ asking
        → s.slots (imei_of h) ≡ none
        → Step s (record s {
          slots = store_channel (imei_of h) h s.slots;
          request = update h sending s.request;
        })
    -- SendPacket fails.
    refuses :
        (h : ℕ)
        → s.request h ≡ sending
        → Step s (record s { request = update h (answering bad_request none) s.request })
    -- SendPacket succeeds.
    sends :
        (h : ℕ)
        → s.request h ≡ sending
        → Step s (record s { request = update h awaiting s.request })
    -- The select takes what stands in the channel.
    receives :
        (h : ℕ) (l : Letter)
        → s.request h ≡ awaiting
        → (s.channel h).buffer ≡ some l
        → Step s (record s {
          request = update h (answering (answer_of l.content) (some l)) s.request;
          channel = update h (record { buffer = none; closed = (s.channel h).closed }) s.channel;
        })
    -- The timer fires.
    times_out :
        (h : ℕ)
        → s.request h ≡ awaiting
        → Step s (record s { request = update h (answering gateway_timeout none) s.request })
    -- The deferred calls, the last one first.
    deletes :
        (h : ℕ) (a : Answer) (l : Option Letter)
        → s.request h ≡ answering a l
        → Step s (record s {
          slots = delete_channel (imei_of h) s.slots;
          request = update h (deleted a l) s.request;
        })
    closes :
        (h : ℕ) (a : Answer) (l : Option Letter)
        → s.request h ≡ deleted a l
        → Step s (record s {
          request = update h (done a l) s.request;
          channel = update h (record { buffer = (s.channel h).buffer; closed = true }) s.channel;
        })
    -- Load finds a channel; if it finds none, the call returns.
    loads :
        (c h : ℕ) (m : Option Message)
        → s.caller c ≡ idle
        → s.slots (tracker_of c) ≡ some h
        → Step s (record s { caller = update c (carrying m h) s.caller })
    -- The send has room; while it has none, the call waits.
    delivers :
        (c h : ℕ) (m : Option Message)
        → s.caller c ≡ carrying m h
        → s.channel h ≡ record { buffer = none; closed = false }
        → Step s (record s {
          caller = update c idle s.caller;
          channel =
              update h
                (record { buffer = some (record { sender = c; content = m }); closed = false })
                s.channel;
        })
    -- A send on a closed channel panics, also one that waits.
    panics :
        (c h : ℕ) (m : Option Message)
        → s.caller c ≡ carrying m h
        → (s.channel h).closed ≡ true
        → Step s (record s { caller = update c panicked s.caller })

  pub data Reach : Hub → Type 0 where
    start : Reach init
    later : {s t : Hub} → Reach s → Step s t → Reach t
