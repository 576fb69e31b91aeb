-- ===== src/Tests/Sessions.antt =====
-- The theorems on connections and the registry, on a device that sends its IMEI, pings and frames.
use teltonika.Prelude.{
  ◌==◌, if◌then◌else◌, Option, ℕ, ◌≡◌, refl, sym, ap, arith, none, some, List, [], ◌∷◌, ◌++◌, take,
  drop, take-length_append, drop-length_append, ok, update,
}
use mathlib.Core.List.{Perm}
use mathlib.Core.List.Perm
use teltonika.Bytes.{be16}
use teltonika.Prelude.Int.{ℤ}
use teltonika.IoElements.{Text, same_text}
use teltonika.Transport.Format.{tcp_code}
use teltonika.Transport.Tcp.{encode_packet_tcp}
use teltonika.Transport.Encoding.{encode_tcp_internal-tcp_code}
use teltonika.TcpServer.Hooks.{Point, Act, all_hooks}
use teltonika.TcpServer.{store_client, delete_client, send_packet}
use teltonika.TcpServer.Sending
use teltonika.TcpServer.Sending.{Sends, ready, holding}
use teltonika.TcpServer.Session.{
  Conn, on_connect, registers, wrote, on_close, deletes, closes, stopped, handle_connection,
}
use teltonika.TcpServer.Session.Answers.{Item, ping, frame, items_code, all_answers, IsUp}
use teltonika.TcpServer.Session.Runs.{IsWhole, handle_connection-answers}
use teltonika.TcpServer.Session.Hooked.{HookCall, returns, panics}
use teltonika.TcpServer.System.{
  System, init, no_clients, replacing, serving, ended, Reach, start, later, Step, stores, loads,
  replaces, ends,
}
use teltonika.TcpServer.System.Handlers.{Follows, handle_connection-Follows}
use teltonika.TcpServer.Sending.Targets.{WasClient, send_packet-Reach}
use teltonika.Tests.Data.{
  fixed_point, getinfo, tracked, getinfo-IsPacket, tracked-IsPacket, length-getinfo, length-tracked,
  Pieces, piecewise, Holds, piecewise-IsStream,
}

instance abbrev wire : Conn Pieces
wire = record {
  conn_read = λ s n. record {
    chunk = take n s.bytes;
    error = none;
    state = record { bytes = drop n s.bytes };
  };
  set_read_deadline = λ s. some s;
  set_write_deadline = λ s. some s;
  write = λ s out. some s;
  peek = λ s. elim s.bytes [ [] ↦ none | b ∷ bs ↦ some (b, record { bytes = b ∷ bs }) ];
  discard = λ s. some (record { bytes = drop 1 s.bytes });
  trim_space = λ t. t;
}

wire-IsUp : IsUp Pieces Holds
wire-IsUp = record {
  stream = piecewise-IsStream;
  read_deadline = λ s bytes h. (s, refl, h);
  write_deadline = λ s bytes h. (s, refl, h);
  writes = λ s bytes out h. (s, refl, h);
  peeks = λ s b bytes h. (record { bytes = b ∷ bytes }, rw (← h) refl, refl);
  discards =
      λ s b bytes h. (record { bytes = drop 1 s.bytes }, refl, ap (λ (t : List ℕ). drop 1 t) h);
  ends = λ s h. rw (← h) refl;
}

wire-IsWhole : IsWhole Pieces Holds
wire-IsWhole = record {
  error = λ s front rest h. refl;
  chunk = λ s front rest h. rw (← h) (take-length_append front rest);
  state = λ s front rest h. rw (← h) (sym (drop-length_append front rest));
}

abbrev device : Text
device = b'3' ∷ b'5' ∷ b'2' ∷ []

abbrev traffic : List (Item ℤ)
traffic = ping ∷ frame tracked ∷ ping ∷ frame getinfo ∷ []

abbrev arrival : Pieces
arrival = record { bytes = be16 3 ++ (device ++ items_code traffic []) }

handle_connection-answers_example : handle_connection 7 arrival ≡ (
  on_connect device
      ∷ registers device
      ∷ wrote (1 ∷ [])
      ∷ (all_answers device traffic ++ on_close device ∷ deletes device ∷ closes ∷ []),
  stopped,
)
handle_connection-answers_example =
    handle_connection-answers Holds wire-IsUp wire-IsWhole device traffic arrival 2 (omega arith)
      (omega arith)
      (
        tt,
        (
          (tracked-IsPacket, omega (arith, length-tracked)),
          (tt, ((getinfo-IsPacket, omega (arith, length-getinfo)), tt)),
        ),
      )
      refl

-- Each call of a hook but the first panics.
abbrev panicking : ℕ → HookCall
panicking n = if n == 0 then returns else panics

-- A device connects, connects again, and its first connection ends before the second one is stored.
abbrev once : System
once = record {
  clients = store_client device 1 init.clients;
  phase = update 1 (serving device) init.phase;
}

abbrev twice : System
twice = record { clients = once.clients; phase = update 2 (replacing device) once.phase }

abbrev left : System
left = record { clients = delete_client device twice.clients; phase = update 1 ended twice.phase }

abbrev back : System
back = record {
  clients = store_client device 2 left.clients;
  phase = update 2 (serving device) left.phase;
}

once-Step : Step init once
unfolding init no_clients
once-Step = stores 1 device refl (omega arith) refl

twice-Step : Step once twice
unfolding init update store_client same_text
twice-Step = loads 2 1 device refl (omega arith) refl

left-Step : Step twice left
unfolding init update
left-Step = ends 1 device refl

back-Step : Step left back
unfolding init update
back-Step = replaces 2 device refl

back-Reach : Reach back
back-Reach = later (later (later (later start once-Step) twice-Step) left-Step) back-Step

-- A call of SendPacket finds the first connection, which ends before the call writes.
abbrev found : Sends
found = record { system = once; call = update 0 (holding 1) (λ c. ready) }

abbrev gone : System
gone = record { clients = delete_client device once.clients; phase = update 1 ended once.phase }

abbrev written : Sends
written = record {
  system = gone;
  call = update 0 (Sending.wrote 1 (tcp_code getinfo)) (update 0 (holding 1) (λ c. ready));
}

getinfo_sends : send_packet (some 1) getinfo ≡ ok (1, tcp_code getinfo)
unfolding send_packet encode_packet_tcp
getinfo_sends = rw (encode_tcp_internal-tcp_code getinfo getinfo-IsPacket) refl

gone-Step : Step once gone
unfolding init update
gone-Step = ends 1 device refl

written-Reach : Sending.Reach (λ c. device) (λ c. getinfo) written
unfolding Sending.init init update store_client same_text
written-Reach =
    Sending.later
      (Sending.later
        (Sending.later (Sending.later Sending.start (Sending.moves once-Step))
          (Sending.loads 0 1 refl refl))
        (Sending.moves gone-Step))
      (Sending.writes 0 1 (tcp_code getinfo) refl getinfo_sends)

send_packet-Reach_example :
    WasClient device 1 gone × (send_packet (some 1) getinfo ≡ ok (1, tcp_code getinfo))
unfolding update
send_packet-Reach_example =
    send_packet-Reach (λ c. device) (λ c. getinfo) written 0 1 (tcp_code getinfo) written-Reach refl

handle_connection-Follows_example : Follows 2 once (handle_connection {F = ℤ} 7 arrival)
unfolding init update
handle_connection-Follows_example = handle_connection-Follows ℤ 2 once 7 arrival refl

-- A body that holds the IMEI alone, and a hook with an address of one byte.
abbrev imei_body : Text → List (Point ℤ) → Option Text
imei_body imei points = some imei

abbrev acts : List Act
acts = all_hooks imei_body (b'h' ∷ []) (handle_connection 7 arrival).0
