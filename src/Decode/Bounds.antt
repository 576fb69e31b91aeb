-- ===== src/Decode/Bounds.antt =====
-- Decoding never panics: whatever the input, each decoder returns a value or an error, and leaves
-- the cursor inside the input.
use teltonika.Prelude.{ℕ, zero, suc, ◌==◌, ◌||◌, List, [], ◌∷◌}
use teltonika.Packet.{
  AvlData, Float64, codec8, codec8e, codec16, codec13, codec14, codec15, is_cmd_codec_id,
}
use teltonika.Util.ByteReader.{Decoder}
use teltonika.Util.ByteReader.Bounds.{
  IsSafe, safe_reads, bind-IsSafe, if-IsSafe, read_bytes-IsSafe, pure-IsSafe, fail-IsSafe,
  ensure-IsSafe, read_uint8_be-IsSafe, read_uint16_be-IsSafe, read_uint32_be-IsSafe,
  read_uint64_be-IsSafe, read_int16_be-IsSafe, read_int32_be-IsSafe,
}
use teltonika.Decode.Elements.{
  Filling, put_element, decode_group, decode_groups, decode_group_nx, decode_elements_codec8,
  decode_elements_codec16, decode_elements_codec8e, group_widths,
}
use teltonika.Decode.Frame.{
  decode_timestamp, decode_imei, decode_command, decode_many, decode_elements, decode_data,
  decode_contents, decode_packet,
}

put_element-IsSafe :
    (io_count id : ℕ) (value : List ℕ) (f : Filling) → IsSafe (put_element io_count id value f)
unfolding put_element
put_element-IsSafe io_count id value f = search safe_reads

decode_group-IsSafe :
    (read_id : Decoder ℕ)
    → IsSafe read_id
    → (io_count width n : ℕ) (f : Filling) → IsSafe (decode_group read_id io_count width n f)
unfolding decode_group
decode_group-IsSafe read_id h io_count width zero f = pure-IsSafe f
decode_group-IsSafe read_id h io_count width (suc n) f = bind-IsSafe h λ id.
    bind-IsSafe (read_bytes-IsSafe width) λ value.
      bind-IsSafe (put_element-IsSafe io_count id value f)
        λ f'. decode_group-IsSafe read_id h io_count width n f'

decode_groups-IsSafe :
    (read_count read_id : Decoder ℕ)
    → IsSafe read_count
    → IsSafe read_id
    → (io_count : ℕ) (widths : List ℕ) (f : Filling)
    → IsSafe (decode_groups read_count read_id io_count widths f)
unfolding decode_groups
decode_groups-IsSafe read_count read_id hc hi io_count [] f = pure-IsSafe f
decode_groups-IsSafe read_count read_id hc hi io_count (width ∷ widths) f = bind-IsSafe hc λ n.
    bind-IsSafe (decode_group-IsSafe read_id hi io_count width n f)
      λ f'. decode_groups-IsSafe read_count read_id hc hi io_count widths f'

decode_group_nx-IsSafe : (io_count n : ℕ) (f : Filling) → IsSafe (decode_group_nx io_count n f)
unfolding decode_group_nx
decode_group_nx-IsSafe io_count zero f = pure-IsSafe f
decode_group_nx-IsSafe io_count (suc n) f = bind-IsSafe read_uint16_be-IsSafe λ id.
    bind-IsSafe read_uint16_be-IsSafe λ length. bind-IsSafe (read_bytes-IsSafe length) λ value.
      bind-IsSafe (put_element-IsSafe io_count id value f)
        λ f'. decode_group_nx-IsSafe io_count n f'

decode_many-IsSafe {ℓ} :
    {A : Type ℓ} (one : Decoder A) → IsSafe one → (n : ℕ) → IsSafe (decode_many one n)
unfolding decode_many
decode_many-IsSafe one h zero = pure-IsSafe []
decode_many-IsSafe one h (suc n) =
    bind-IsSafe h λ a. bind-IsSafe (decode_many-IsSafe one h n) λ rest. pure-IsSafe (a ∷ rest)

decode_timestamp-IsSafe : (codec_id size : ℕ) → IsSafe (decode_timestamp codec_id size)
unfolding decode_timestamp
decode_timestamp-IsSafe codec_id size =
    if-IsSafe (codec_id == codec13 || codec_id == codec15)
      (bind-IsSafe read_uint32_be-IsSafe (λ t. pure-IsSafe _)) (pure-IsSafe _)

decode_imei-IsSafe : (codec_id size : ℕ) → IsSafe (decode_imei codec_id size)
unfolding decode_imei
decode_imei-IsSafe codec_id size =
    if-IsSafe (codec_id == codec14 || codec_id == codec15)
      (bind-IsSafe (read_bytes-IsSafe 8) (λ t. pure-IsSafe _)) (pure-IsSafe _)

decode_command-IsSafe : (codec_id : ℕ) → IsSafe (decode_command codec_id)
unfolding decode_command
decode_command-IsSafe codec_id = bind-IsSafe read_uint8_be-IsSafe λ command_type.
    bind-IsSafe (ensure-IsSafe _ _) λ _. bind-IsSafe read_uint32_be-IsSafe λ size.
      bind-IsSafe (decode_timestamp-IsSafe codec_id size) λ (timestamp, size₁).
        bind-IsSafe (decode_imei-IsSafe codec_id size₁)
          λ (imei, size₂). bind-IsSafe (read_bytes-IsSafe size₂) λ command. pure-IsSafe _

module _ {F : Type 0} where
  decode_elements_codec8-IsSafe : (d : AvlData F) → IsSafe (decode_elements_codec8 d)
  unfolding decode_elements_codec8
  decode_elements_codec8-IsSafe d = bind-IsSafe read_uint8_be-IsSafe λ event_id.
      bind-IsSafe read_uint8_be-IsSafe λ io_count.
        bind-IsSafe
          (decode_groups-IsSafe _ _ read_uint8_be-IsSafe read_uint8_be-IsSafe io_count group_widths
            _)
          λ f. pure-IsSafe _

  decode_elements_codec16-IsSafe : (d : AvlData F) → IsSafe (decode_elements_codec16 d)
  unfolding decode_elements_codec16
  decode_elements_codec16-IsSafe d = bind-IsSafe read_uint16_be-IsSafe λ event_id.
      bind-IsSafe read_uint8_be-IsSafe λ generation_type.
        bind-IsSafe read_uint8_be-IsSafe λ io_count. bind-IsSafe (ensure-IsSafe _ _) λ _.
          bind-IsSafe
            (decode_groups-IsSafe _ _ read_uint8_be-IsSafe read_uint16_be-IsSafe io_count
              group_widths _)
            λ f. pure-IsSafe _

  decode_elements_codec8e-IsSafe : (d : AvlData F) → IsSafe (decode_elements_codec8e d)
  unfolding decode_elements_codec8e
  decode_elements_codec8e-IsSafe d = bind-IsSafe read_uint16_be-IsSafe λ event_id.
      bind-IsSafe read_uint16_be-IsSafe λ io_count.
        bind-IsSafe
          (decode_groups-IsSafe _ _ read_uint16_be-IsSafe read_uint16_be-IsSafe io_count
            group_widths _)
          λ f.
            bind-IsSafe read_uint16_be-IsSafe
              λ n. bind-IsSafe (decode_group_nx-IsSafe io_count n f) λ f'. pure-IsSafe _

  decode_elements-IsSafe : (codec_id : ℕ) (d : AvlData F) → IsSafe (decode_elements codec_id d)
  unfolding decode_elements
  decode_elements-IsSafe codec_id d =
      if-IsSafe (codec_id == codec8) (decode_elements_codec8-IsSafe d) (
        if-IsSafe (codec_id == codec8e) (decode_elements_codec8e-IsSafe d)
          (if-IsSafe (codec_id == codec16) (decode_elements_codec16-IsSafe d) (fail-IsSafe _)))

  module _ ⦃fl : Float64 F⦄ where
    decode_data-IsSafe : (codec_id : ℕ) → IsSafe (decode_data {F = F} codec_id)
    unfolding decode_data
    decode_data-IsSafe codec_id = bind-IsSafe read_uint64_be-IsSafe λ timestamp_ms.
        bind-IsSafe read_uint8_be-IsSafe λ priority. bind-IsSafe read_int32_be-IsSafe λ lng.
          bind-IsSafe read_int32_be-IsSafe λ lat. bind-IsSafe read_int16_be-IsSafe λ altitude.
            bind-IsSafe read_uint16_be-IsSafe λ angle.
              bind-IsSafe read_uint8_be-IsSafe λ satellites.
                bind-IsSafe read_uint16_be-IsSafe λ speed. decode_elements-IsSafe codec_id _

    decode_contents-IsSafe : (codec_id n : ℕ) → IsSafe (decode_contents {F = F} codec_id n)
    unfolding decode_contents
    decode_contents-IsSafe codec_id n =
        if-IsSafe (is_cmd_codec_id codec_id)
          (bind-IsSafe (decode_many-IsSafe _ (decode_command-IsSafe codec_id) n)
            λ ms. pure-IsSafe _)
          (bind-IsSafe (decode_many-IsSafe _ (decode_data-IsSafe codec_id) n) λ ds. pure-IsSafe _)

    pub decode_packet-IsSafe : IsSafe (decode_packet {F = F})
    unfolding decode_packet
    decode_packet-IsSafe = bind-IsSafe read_uint8_be-IsSafe λ codec_id.
        bind-IsSafe read_uint8_be-IsSafe λ data_count. bind-IsSafe (ensure-IsSafe _ _) λ _.
          bind-IsSafe (decode_contents-IsSafe codec_id data_count) λ packet.
            bind-IsSafe read_uint8_be-IsSafe
              λ check. bind-IsSafe (ensure-IsSafe _ _) λ _. pure-IsSafe packet
