-- ===== src/Transport/Size.antt =====
-- teltonika.go: what `encodeTCPInternal` and `encodeUDPInternal` begin with, the checks of the
-- packet and the size of its contents.
use teltonika.Prelude.{
  ℕ, ◌+◌, Bool, true, false, ◌&&◌, not, Option, none, some, List, [], ◌∷◌, length, ◌==◌,
  if◌then◌else◌, Result, ok, and_then, require, unsupported_codec, both_contents, nothing_to_encode,
}
use teltonika.Packet.{
  AvlData, Message, Packet, IoElement, codec8, codec8e, codec16, is_codec_supported,
  is_cmd_codec_id,
}
use teltonika.Encode.Elements.{
  calculate_elements_size_codec8, calculate_elements_size_codec16, calculate_elements_size_codec8e,
}
use teltonika.Encode.Frame.{extra_size, or_nil}

abbrev pub is_nil {ℓ} : {A : Type ℓ} → Option A → Bool
is_nil none = true
is_nil (some a) = false

unfoldable pub messages_size : ℕ → List Message → ℕ → ℕ
messages_size codec_id [] data_size = data_size
messages_size codec_id (m ∷ ms) data_size =
    messages_size codec_id ms (data_size + (length m.text + 5) + extra_size codec_id)

-- The chain of tests in the loop; the codecs are the three that pass the checks before it.
unfoldable pub calculate_elements_size : ℕ → List IoElement → Result ℕ
calculate_elements_size codec_id elements =
    if codec_id == codec8
    then calculate_elements_size_codec8 elements
    else if codec_id == codec8e
    then calculate_elements_size_codec8e elements
    else if codec_id == codec16
    then calculate_elements_size_codec16 elements
    else ok 0

module _ {F : Type 0} where
  unfoldable pub check_packet {ℓ} : {A : Type ℓ} → Packet F → Result A → Result A
  check_packet p k = require (is_codec_supported p.codec_id) (unsupported_codec p.codec_id) (
      require (not (not (is_nil p.messages) && not (is_nil p.frames))) both_contents (
        require (not (is_cmd_codec_id p.codec_id && is_nil p.messages)) nothing_to_encode (
          require (not (not (is_cmd_codec_id p.codec_id) && is_nil p.frames)) nothing_to_encode k)))

  unfoldable pub frames_size : ℕ → List (AvlData F) → ℕ → Result ℕ
  unfolding calculate_elements_size
  frames_size codec_id [] data_size = ok data_size
  frames_size codec_id (d ∷ ds) data_size =
      and_then (calculate_elements_size codec_id d.elements)
        λ n. frames_size codec_id ds (data_size + 24 + n)

  unfoldable pub contents_size : Packet F → ℕ → Result ℕ
  contents_size p data_size =
      if is_cmd_codec_id p.codec_id
      then ok (messages_size p.codec_id (or_nil p.messages) data_size)
      else frames_size p.codec_id (or_nil p.frames) data_size
