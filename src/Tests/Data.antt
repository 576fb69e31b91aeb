-- ===== src/Tests/Data.antt =====
-- Packets, a reader and a type of coordinates to evaluate the code on.
use teltonika.Prelude.{
  ℕ, ◌≡◌, refl, sym, arith, inl, inr, none, some, List, [], ◌∷◌, length, take, drop, length-take,
  take-append-drop, if◌then◌else◌, ◌==◌, All,
}
use Prim.Native.Nat.{min}
use teltonika.Prelude.Int.{ℤ, pos, negsuc, to_unsigned, to_unsigned_lt_32}
use teltonika.Packet.{
  Float64, AvlData, Message, Packet, codec8e, codec12, codec14, type_command, unknown,
  is_cmd_codec_id,
}
use teltonika.Encode.Frame.{extra_size}
use teltonika.Hex.RoundTrip.{IsHexDigit}
use teltonika.Decode.Frame.{is_type_supported}
use teltonika.Transport.Stream.{Reader, io_eof}
use teltonika.Transport.Stream.Delivery.{IsStream}
use teltonika.Wire.{
  IsMessage, IsFrame, IsPacket, of_messages, of_frames, packet_code, counted_code, codes,
  message_code, data_code, timestamp_code, imei_code, elements_code, elements_code8e, groups_code,
  entries_code, entries_nx_code, of_width, of_other_width,
}

-- Coordinates as whole numbers of 1e-7 degrees.
instance abbrev pub fixed_point : Float64 ℤ
fixed_point = record {
  from_e7 = λ z. z;
  to_e7 = λ z. to_unsigned 2147483648 z;
  to_e7_lt = to_unsigned_lt_32;
}

-- The command "getinfo" with codec 12.
abbrev pub getinfo_message : Message
getinfo_message = record {
  timestamp = 0;
  type = type_command;
  imei = [];
  text = b'g' ∷ b'e' ∷ b't' ∷ b'i' ∷ b'n' ∷ b'f' ∷ b'o' ∷ [];
}

abbrev pub getinfo : Packet ℤ
getinfo = record { codec_id = codec12; frames = none; messages = some (getinfo_message ∷ []) }

-- The command "getver" with codec 14, to the device 352093081452251.
abbrev pub getver_message : Message
getver_message = record {
  timestamp = 0;
  type = type_command;
  imei =
      b'3' ∷ b'5' ∷ b'2' ∷ b'0' ∷ b'9' ∷ b'3' ∷ b'0' ∷ b'8' ∷ b'1' ∷ b'4' ∷ b'5' ∷ b'2' ∷ b'2'
      ∷ b'5' ∷ b'1' ∷ [];
  text = b'g' ∷ b'e' ∷ b't' ∷ b'v' ∷ b'e' ∷ b'r' ∷ [];
}

abbrev pub getver : Packet ℤ
getver = record { codec_id = codec14; frames = none; messages = some (getver_message ∷ []) }

-- A frame of codec 8 extended whose elements are not in the order of their groups: values of
-- two, one and three bytes.
abbrev pub position : AvlData ℤ
position = record {
  timestamp_ms = 1560166592000;
  lng = pos 252843456;
  lat = negsuc 546904;
  altitude = negsuc 11;
  angle = 90;
  event_id = 239;
  speed = 60;
  satellites = 7;
  priority = 1;
  generation_type = unknown;
  elements =
      record { id = 66; value = 0x5e ∷ 0x0f ∷ [] }
      ∷ record { id = 239; value = 0x01 ∷ [] }
      ∷ record { id = 385; value = 0x11 ∷ 0x22 ∷ 0x33 ∷ [] }
      ∷ [];
}

abbrev pub tracked : Packet ℤ
tracked = record { codec_id = codec8e; frames = some (position ∷ []); messages = none }

getinfo_message-IsMessage : IsMessage codec12 getinfo_message
unfolding is_type_supported
getinfo_message-IsMessage = record {
  type_byte = omega arith;
  type_fits = refl;
  timestamp = omega arith;
  size = omega arith;
  imei = λ e. absurd (cc e);
}

getver_digits : All IsHexDigit getver_message.imei
getver_digits = (
  refl,
  (
    refl,
    (
      refl,
      (
        refl,
        (refl, (refl, (refl, (refl, (refl, (refl, (refl, (refl, (refl, (refl, (refl, tt))))))))))),
      ),
    ),
  ),
)

getver_message-IsMessage : IsMessage codec14 getver_message
unfolding is_type_supported
getver_message-IsMessage = record {
  type_byte = omega arith;
  type_fits = refl;
  timestamp = omega arith;
  size = omega arith;
  imei = λ e. (getver_digits, inl refl);
}

position-IsFrame : IsFrame codec8e position
position-IsFrame = record {
  timestamp = omega arith;
  priority = omega arith;
  altitude = omega arith;
  angle = omega arith;
  satellites = omega arith;
  speed = omega arith;
  elements = record {
    event = omega arith;
    count = omega arith;
    ids = (omega arith, (omega arith, (omega arith, tt)));
    lengths = (
      (omega arith, omega arith),
      ((omega arith, omega arith), ((omega arith, omega arith), tt)),
    );
  };
}

pub getinfo-IsPacket : IsPacket getinfo
getinfo-IsPacket =
    of_messages codec12 (getinfo_message ∷ []) (inl refl) (omega arith)
      (getinfo_message-IsMessage, tt)

getver-IsPacket : IsPacket getver
getver-IsPacket =
    of_messages codec14 (getver_message ∷ []) (inr (inr (inl refl))) (omega arith)
      (getver_message-IsMessage, tt)

pub tracked-IsPacket : IsPacket tracked
tracked-IsPacket =
    of_frames codec8e (position ∷ []) (inr (inl refl)) (omega arith) (position-IsFrame, tt)

pub length-getinfo : length (packet_code getinfo) ≡ 15
unfolding is_cmd_codec_id packet_code counted_code codes message_code timestamp_code imei_code
    extra_size
length-getinfo = refl

pub length-tracked : length (packet_code tracked) ≡ 55
unfolding is_cmd_codec_id packet_code counted_code codes data_code elements_code elements_code8e
    groups_code entries_code entries_nx_code of_width of_other_width
length-tracked = refl

-- A reader that delivers at most five bytes at a time.
pub record Pieces : Type 0 where
  pub bytes : List ℕ

instance abbrev pub piecewise : Reader Pieces
piecewise = record {
  read = λ s n. record {
    chunk = take (min 5 n) s.bytes;
    error = if length s.bytes == 0 then some io_eof else none;
    state = record { bytes = drop (min 5 n) s.bytes };
  };
  length-read = λ s n. omega (arith, length-take (min 5 n) s.bytes);
}

abbrev pub Holds : Pieces → List ℕ → Type 0
Holds s bytes = bytes ≡ s.bytes

pub piecewise-IsStream : IsStream Holds
piecewise-IsStream s bytes n e some_byte enough =
    let len : length bytes ≡ length s.bytes = rw e in
    record {
      error = ground arith;
      some_byte = omega (arith, length-take (min 5 n) s.bytes);
      rest = drop (min 5 n) s.bytes;
      parts = rw e (sym (take-append-drop (min 5 n) s.bytes));
      holds = refl;
    }
