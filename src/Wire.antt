-- ===== src/Wire.antt =====
-- The wire format of packets, as lists of bytes: what the encoders are to write and the decoders
-- to read, stated without buffers, positions and cursors.
pub mod Sorting
use teltonika.Prelude.{
  ℕ, ◌+◌, ◌-◌, ◌*◌, ◌%◌, ◌^◌, ◌<◌, ◌≡◌, ◌⊎◌, All, map, Bool, leb, ◌&&◌, true, false, not, ◌||◌,
  none, some, List, [], ◌∷◌, ◌++◌, length, ◌==◌, if◌then◌else◌, Option,
}
use mathlib.Core.Option
use teltonika.Hex.RoundTrip.{IsHexDigit, pack_digits}
use teltonika.Decode.Elements.{group_widths}
use teltonika.Decode.Frame.{is_type_supported}
use teltonika.Prelude.Int.{to_unsigned, to_signed, IsSigned}
use teltonika.Bytes.{be16, be32, be64}
use teltonika.Hex.{trim_left_zeros}
use teltonika.Packet.{
  IoElement, AvlData, Message, Packet, Float64, unknown, codec8, codec8e, codec16, codec12, codec13,
  codec14, codec15, is_cmd_codec_id,
}
use teltonika.Encode.Elements.{byte_code, is_group_width}
use teltonika.Encode.Frame.{extra_size, or_nil}

-- The codecs of data frames, and those of messages.
abbrev pub IsDataCodec : ℕ → Type 0
IsDataCodec c = (c ≡ codec8) ⊎ ((c ≡ codec8e) ⊎ (c ≡ codec16))

abbrev pub IsCommandCodec : ℕ → Type 0
IsCommandCodec c = (c ≡ codec12) ⊎ ((c ≡ codec13) ⊎ ((c ≡ codec14) ⊎ (c ≡ codec15)))

-- The elements whose value has the width, in their order.
unfoldable pub of_width : ℕ → List IoElement → List IoElement
of_width width [] = []
of_width width (e ∷ es) =
    let rest = of_width width es in if length e.value == width then e ∷ rest else rest

-- The elements of no group.
unfoldable pub of_other_width : List IoElement → List IoElement
of_other_width [] = []
of_other_width (e ∷ es) =
    let rest = of_other_width es in if is_group_width (length e.value) then rest else e ∷ rest

-- Elements one after the other: number and value.
unfoldable pub entries_code : (ℕ → List ℕ) → List IoElement → List ℕ
entries_code id_code [] = []
entries_code id_code (e ∷ es) = id_code e.id ++ (e.value ++ entries_code id_code es)

-- With a length between the two.
unfoldable pub entries_nx_code : List IoElement → List ℕ
entries_nx_code [] = []
entries_nx_code (e ∷ es) = be16 e.id ++ (be16 (length e.value) ++ (e.value ++ entries_nx_code es))

-- The groups of the widths, each behind the number of its elements.
unfoldable pub groups_code : (ℕ → List ℕ) → (ℕ → List ℕ) → List ℕ → List IoElement → List ℕ
groups_code count_code id_code [] es = []
groups_code count_code id_code (width ∷ widths) es =
    count_code (length (of_width width es))
    ++ (entries_code id_code (of_width width es) ++ groups_code count_code id_code widths es)

-- The order in which a decoder finds the elements of the groups.
unfoldable pub grouped : List ℕ → List IoElement → List IoElement
grouped [] es = []
grouped (width ∷ widths) es = of_width width es ++ grouped widths es

module _ {F : Type 0} where
  -- The elements of a frame, with the event that caused it.
  unfoldable pub elements_code8 : AvlData F → List ℕ
  elements_code8 d =
      byte_code d.event_id
      ++ (byte_code (length d.elements) ++ groups_code byte_code byte_code group_widths d.elements)

  unfoldable pub elements_code16 : AvlData F → List ℕ
  elements_code16 d =
      be16 d.event_id
      ++ (byte_code d.generation_type
          ++ (byte_code (length d.elements) ++ groups_code byte_code be16 group_widths d.elements))

  unfoldable pub elements_code8e : AvlData F → List ℕ
  elements_code8e d =
      be16 d.event_id
      ++ (be16 (length d.elements)
          ++ (groups_code be16 be16 group_widths d.elements
              ++ (be16 (length (of_other_width d.elements))
                  ++ entries_nx_code (of_other_width d.elements))))

  unfoldable pub elements_code : ℕ → AvlData F → List ℕ
  elements_code codec_id d =
      if codec_id == codec8
      then elements_code8 d
      else if codec_id == codec8e
      then elements_code8e d
      else elements_code16 d

  -- What fits the fields of the format.
  pub record IsElements8 (d : AvlData F) : Type 0 where
    pub event : d.event_id < 256
    pub count : length d.elements < 256
    pub ids : All (λ e. e.id < 256) d.elements
    pub widths : All (λ e. is_group_width (length e.value) ≡ true) d.elements

  pub record IsElements16 (d : AvlData F) : Type 0 where
    pub event : d.event_id < 65536
    pub generation : d.generation_type < 8
    pub count : length d.elements < 256
    pub ids : All (λ e. e.id < 65536) d.elements
    pub widths : All (λ e. is_group_width (length e.value) ≡ true) d.elements

  pub record IsElements8e (d : AvlData F) : Type 0 where
    pub event : d.event_id < 65536
    pub count : length d.elements < 65536
    pub ids : All (λ e. e.id < 65536) d.elements
    pub lengths : All (λ e. (length e.value < 65536) × (0 < length e.value)) d.elements

  abbrev pub IsElements : ℕ → AvlData F → Type 0
  IsElements codec_id d = elim (codec_id == codec8) [
    | true ↦ IsElements8 d
    | false ↦ elim (codec_id == codec8e) [ true ↦ IsElements8e d | false ↦ IsElements16 d ]
  ]

  -- What a frame is read back as: its elements in the order of the groups, and the generation type
  -- where the codec carries it.
  unfoldable pub normal_elements : ℕ → AvlData F → AvlData F
  normal_elements codec_id d =
      if codec_id == codec16
      then record d { elements = grouped group_widths d.elements }
      else if codec_id == codec8e
      then record d {
        elements = grouped group_widths d.elements ++ of_other_width d.elements;
        generation_type = unknown;
      }
      else record d { elements = grouped group_widths d.elements; generation_type = unknown }

  module _ ⦃fl : Float64 F⦄ where
    -- A frame: the 24 bytes of its position and time, and its elements.
    unfoldable pub data_code : ℕ → AvlData F → List ℕ
    data_code codec_id d =
        be64 d.timestamp_ms
        ++ (byte_code d.priority
            ++ (be32 (fl.to_e7 d.lng)
                ++ (be32 (fl.to_e7 d.lat)
                    ++ (be16 (to_unsigned 32768 d.altitude)
                        ++ (be16 d.angle
                            ++ (byte_code d.satellites
                                ++ (be16 d.speed ++ elements_code codec_id d)))))))

    -- What a coordinate becomes on the wire and back.
    unfoldable pub on_grid : F → F
    on_grid x = fl.from_e7 (to_signed 2147483648 (fl.to_e7 x))

    unfoldable pub normal_data : ℕ → AvlData F → AvlData F
    normal_data codec_id d =
        normal_elements codec_id (record d { lng = on_grid d.lng; lat = on_grid d.lat })

  pub record IsFrame (codec_id : ℕ) (d : AvlData F) : Type 0 where
    pub timestamp : d.timestamp_ms < 2 ^ 64
    pub priority : d.priority < 256
    pub altitude : IsSigned 32768 d.altitude
    pub angle : d.angle < 65536
    pub satellites : d.satellites < 256
    pub speed : d.speed < 65536
    pub elements : IsElements codec_id d

-- An IMEI number in hexadecimal digits, with a zero in front if their number is odd.
unfoldable pub padded_imei : List ℕ → List ℕ
padded_imei imei = if length imei % 2 == 0 then imei else b'0' ∷ imei

unfoldable pub timestamp_code : ℕ → ℕ → List ℕ
timestamp_code codec_id timestamp =
    if codec_id == codec13 || codec_id == codec15 then be32 timestamp else []

unfoldable pub imei_code : ℕ → List ℕ → List ℕ
imei_code codec_id imei =
    if codec_id == codec14 || codec_id == codec15 then pack_digits (padded_imei imei) else []

-- A message: its type, the size of what follows, and its parts.
unfoldable pub message_code : ℕ → Message → List ℕ
message_code codec_id m =
    byte_code m.type
    ++ (be32 (length m.text + extra_size codec_id)
        ++ (timestamp_code codec_id m.timestamp ++ (imei_code codec_id m.imei ++ m.text)))

-- What a message is read back as: the fields that its codec does not carry are zero, and the IMEI
-- has no zeros in front.
unfoldable pub normal_message : ℕ → Message → Message
normal_message codec_id m = record m {
  timestamp = if codec_id == codec13 || codec_id == codec15 then m.timestamp else 0;
  imei = if codec_id == codec14 || codec_id == codec15 then trim_left_zeros m.imei else [];
}

pub record IsMessage (codec_id : ℕ) (m : Message) : Type 0 where
  pub type_byte : m.type < 256
  pub type_fits : is_type_supported codec_id m.type ≡ true
  pub timestamp : m.timestamp < 2 ^ 32
  pub size : length m.text + 12 < 2 ^ 32
  pub imei :
      (codec_id == codec14 || codec_id == codec15) ≡ true
      → All IsHexDigit m.imei × ((length m.imei ≡ 15) ⊎ (length m.imei ≡ 16))

-- The contents of a packet one after the other.
unfoldable pub codes {ℓ} : {A : Type ℓ} → (A → List ℕ) → List A → List ℕ
codes code [] = []
codes code (x ∷ xs) = code x ++ codes code xs

-- A packet: codec, number of its items, the items, and their number again.
unfoldable pub counted_code {ℓ} : {A : Type ℓ} → (A → List ℕ) → List A → List ℕ
counted_code code xs = byte_code (length xs) ++ (codes code xs ++ byte_code (length xs))

module _ {F : Type 0} ⦃fl : Float64 F⦄ where
  unfoldable pub packet_code : Packet F → List ℕ
  packet_code p =
      byte_code p.codec_id
      ++ (if is_cmd_codec_id p.codec_id
          then counted_code (message_code p.codec_id) (or_nil p.messages)
          else counted_code (data_code p.codec_id) (or_nil p.frames))

  -- What a packet is read back as.
  unfoldable pub normal_packet : Packet F → Packet F
  normal_packet p = record p {
    frames = Option.map (map (normal_data p.codec_id)) p.frames;
    messages = Option.map (map (normal_message p.codec_id)) p.messages;
  }

  -- A packet with the contents that its codec asks for and no other, which fit the format.
  pub data IsPacket : Packet F → Type 0 where
    of_messages :
        (c : ℕ) (ms : List Message)
        → IsCommandCodec c
        → length ms < 256
        → All (IsMessage c) ms
        → IsPacket (record { codec_id = c; frames = none; messages = some ms })
    of_frames :
        (c : ℕ) (ds : List (AvlData F))
        → IsDataCodec c
        → length ds < 256
        → All (IsFrame c) ds
        → IsPacket (record { codec_id = c; frames = some ds; messages = none })
