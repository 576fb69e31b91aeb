-- ===== src/Packet.antt =====
-- teltonika.go: the packet types, their constants and the tests on codec numbers.
use teltonika.Prelude.{ℕ, ◌<◌, ◌^◌, Bool, Option, List, ◌==◌, ◌||◌}
use teltonika.Prelude.Int.{ℤ}

-- The type float64 with the two conversions that the code makes of a coordinate:
-- `from_e7 n` is `float64(n) / 10000000.0`, and `to_e7 x` is `uint32(x * 10000000.0)`, which is
-- some uint32 also where the platform chooses the result.
pub record Float64 (F : Type 0) : Type 0 where
  pub from_e7 : ℤ → F
  pub to_e7 : F → ℕ
  pub to_e7_lt : (x : F) → to_e7 x < 2 ^ 32

-- `GenerationType` and `CodecId` and `MessageType` are uint8 numbers, as in the source.
abbrev pub unknown : ℕ
unknown = 0xff

abbrev pub codec8 : ℕ
codec8 = 0x08

abbrev pub codec8e : ℕ
codec8e = 0x8e

abbrev pub codec16 : ℕ
codec16 = 0x10

abbrev pub codec12 : ℕ
codec12 = 0x0c

abbrev pub codec13 : ℕ
codec13 = 0x0d

abbrev pub codec14 : ℕ
codec14 = 0x0e

abbrev pub codec15 : ℕ
codec15 = 0x0f

abbrev pub type_command : ℕ
type_command = 0x05

abbrev pub type_response : ℕ
type_response = 0x06

abbrev pub type_not_executed : ℕ
type_not_executed = 0x11

pub data IoElementsAlloc : Type 0 where
  on_heap : IoElementsAlloc
  on_read_buffer : IoElementsAlloc

-- A nil slice and an empty one are both `[]` here; where the code tells them apart the field is
-- an `Option`.
pub record IoElement : Type 0 where
  pub id : ℕ
  pub value : List ℕ

pub record AvlData (F : Type 0) : Type 0 where
  pub timestamp_ms : ℕ
  pub lng : F
  pub lat : F
  pub altitude : ℤ
  pub angle : ℕ
  pub event_id : ℕ
  pub speed : ℕ
  pub satellites : ℕ
  pub priority : ℕ
  pub generation_type : ℕ
  pub elements : List IoElement

-- `imei` and `text` are Go strings: byte sequences.
pub record Message : Type 0 where
  pub timestamp : ℕ
  pub type : ℕ
  pub imei : List ℕ
  pub text : List ℕ

-- `none` is a nil slice.
pub record Packet (F : Type 0) : Type 0 where
  pub codec_id : ℕ
  pub frames : Option (List (AvlData F))
  pub messages : Option (List Message)

pub record DecodedTcp (F : Type 0) : Type 0 where
  pub packet : Packet F
  pub response : List ℕ

pub record DecodedUdp (F : Type 0) : Type 0 where
  pub packet_id : ℕ
  pub avl_packet_id : ℕ
  pub imei : List ℕ
  pub packet : Packet F
  pub response : List ℕ

pub record DecodeConfig : Type 0 where
  pub io_elements_alloc : IoElementsAlloc

unfoldable pub is_codec_supported : ℕ → Bool
is_codec_supported id =
    id == codec8
    || id == codec8e
    || id == codec16
    || id == codec12
    || id == codec13
    || id == codec14
    || id == codec15

unfoldable pub is_cmd_codec_id : ℕ → Bool
is_cmd_codec_id id = id == codec12 || id == codec13 || id == codec14 || id == codec15
