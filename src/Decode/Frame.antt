-- ===== src/Decode/Frame.antt =====
-- teltonika.go: `decodeData`, `decodeCommand` and `decodePacket`.
use teltonika.Prelude.{
  ℕ, zero, suc, ◌+◌, ◌-◌, ◌^◌, Bool, List, [], ◌∷◌, none, some, not, ◌&&◌, ◌||◌, ◌==◌,
  if◌then◌else◌, unsupported_codec, unsupported_type, count_mismatch,
}
use teltonika.Bytes.{u32}
use teltonika.Hex.{encode_to_string, trim_left_zeros}
use teltonika.Packet.{
  AvlData, Message, Packet, Float64, codec8, codec8e, codec16, codec12, codec13, codec14, codec15,
  type_command, type_response, type_not_executed, is_codec_supported, is_cmd_codec_id,
}
use teltonika.Util.ByteReader.{
  Decoder, pure, fail, ◌>>=◌, ◌>>◌, ensure, read_bytes, read_uint8_be, read_uint16_be,
  read_uint32_be, read_uint64_be, read_int16_be, read_int32_be,
}
use teltonika.Decode.Elements.{
  decode_elements_codec8, decode_elements_codec16, decode_elements_codec8e,
}

-- `type` is allowed in a message of the codec; codec 15 allows every type.
unfoldable pub is_type_supported : ℕ → ℕ → Bool
is_type_supported codec_id type = not (
    codec_id == codec12 && not (type == type_response) && not (type == type_command)
    || codec_id == codec13 && not (type == type_response)
    || codec_id == codec14
      && not (type == type_response)
      && not (type == type_command)
      && not (type == type_not_executed))

-- Codecs 13 and 15: `commandSize -= 4` wraps as uint32.
unfoldable pub decode_timestamp : ℕ → ℕ → Decoder (ℕ × ℕ)
decode_timestamp codec_id command_size =
    if codec_id == codec13 || codec_id == codec15
    then (read_uint32_be >>= λ timestamp. pure (timestamp, u32 (command_size + 2 ^ 32 - 4)))
    else pure (0, command_size)

-- Codecs 14 and 15: `commandSize -= 8` wraps as uint32.
unfoldable pub decode_imei : ℕ → ℕ → Decoder (List ℕ × ℕ)
decode_imei codec_id command_size =
    if codec_id == codec14 || codec_id == codec15
    then (read_bytes 8 >>= λ imei.
        pure (trim_left_zeros (encode_to_string imei), u32 (command_size + 2 ^ 32 - 8)))
    else pure ([], command_size)

unfoldable pub decode_command : ℕ → Decoder Message
decode_command codec_id = do
  command_type ← read_uint8_be
  ensure (is_type_supported codec_id command_type) (unsupported_type command_type codec_id)
  command_size ← read_uint32_be
  (timestamp, size₁) ← decode_timestamp codec_id command_size
  (imei, size₂) ← decode_imei codec_id size₁
  command ← read_bytes size₂
  pure (record { timestamp = timestamp; type = command_type; imei = imei; text = command })

-- The loops of `decodePacket`: `n` results of one decoder.
unfoldable pub decode_many {ℓ} : {A : Type ℓ} → Decoder A → ℕ → Decoder (List A)
decode_many one zero = pure []
decode_many one (suc n) = do a ← one; rest ← decode_many one n; pure (a ∷ rest)

module _ {F : Type 0} where
  -- The last chain of tests in `decodeData`.
  unfoldable pub decode_elements : ℕ → AvlData F → Decoder (AvlData F)
  decode_elements codec_id d =
      if codec_id == codec8
      then decode_elements_codec8 d
      else if codec_id == codec8e
      then decode_elements_codec8e d
      else if codec_id == codec16
      then decode_elements_codec16 d
      else fail (unsupported_codec codec_id)

  module _ ⦃fl : Float64 F⦄ where
    unfoldable pub decode_data : ℕ → Decoder (AvlData F)
    decode_data codec_id = do
      timestamp_ms ← read_uint64_be
      priority ← read_uint8_be
      lng ← read_int32_be
      lat ← read_int32_be
      altitude ← read_int16_be
      angle ← read_uint16_be
      satellites ← read_uint8_be
      speed ← read_uint16_be
      decode_elements codec_id (record {
        timestamp_ms = timestamp_ms;
        lng = fl.from_e7 lng;
        lat = fl.from_e7 lat;
        altitude = altitude;
        angle = angle;
        event_id = 0;
        speed = speed;
        satellites = satellites;
        priority = priority;
        generation_type = 0;
        elements = [];
      })

    -- The messages or the data frames, by the codec.
    unfoldable pub decode_contents : ℕ → ℕ → Decoder (Packet F)
    decode_contents codec_id data_count =
        if is_cmd_codec_id codec_id
        then (decode_many (decode_command codec_id) data_count >>= λ messages.
            pure (record { codec_id = codec_id; frames = none; messages = some messages }))
        else (decode_many (decode_data codec_id) data_count >>= λ frames.
            pure (record { codec_id = codec_id; frames = some frames; messages = none }))

    unfoldable pub decode_packet : Decoder (Packet F)
    decode_packet = do
      codec_id ← read_uint8_be
      data_count ← read_uint8_be
      ensure (is_codec_supported codec_id) (unsupported_codec codec_id)
      packet ← decode_contents codec_id data_count
      data_count_check ← read_uint8_be
      ensure (data_count_check == data_count) (count_mismatch data_count data_count_check)
      pure packet
