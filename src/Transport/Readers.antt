-- ===== src/Transport/Readers.antt =====
-- teltonika.go: `DecodeTCPFromReaderBuf` on any reader.
use teltonika.Prelude.{
  ℕ, ◌+◌, ◌≤◌, ◌≡◌, arith, Option, none, some, List, length, drop, Result, ok, err, panic, and_then,
  Returns, Error,
}
use teltonika.Packet.{DecodeConfig, DecodedTcp, Float64}
use teltonika.Util.ByteReader.Bounds.{slice_from_le}
use teltonika.Transport.Config.{choose_config, is_on_heap}
use teltonika.Transport.Stream.{Reader}
use teltonika.Transport.Stream.Bounds.{
  Took, took, failed, IsReader, take_header-Took, take_packet-Took,
}
use teltonika.Transport.Bounds.{
  Parsed, parsed, refused, parse_tcp_header-Parsed, decode_tcp_body-Returns,
}
use teltonika.Transport.Tcp.{decode_tcp_body, decode_tcp_internal, decode_tcp_from_reader_buf}
use teltonika.Transport.Safety.{choose_config-Returns}

-- A call failed, or it gave back a reader that is not nil.
pub data Decoded {A : Type 0} {B : Type 0} {S : Type 0} : Result (A × B × Option S) → Type 0 where
  gave : (a : A) (b : B) (s : S) → Decoded (ok (a, b, some s))
  gave_up : (e : Error) → Decoded (err e)

module _ {A B S : Type 0} where
  Returns-Decoded :
      {R : Type 0} (m : Result R) (f : R → Result (A × B × Option S))
      → Returns m
      → ((r : R) → Decoded (f r))
      → Decoded (and_then m f)
  Returns-Decoded (ok r) f h k = k r
  Returns-Decoded (err e) f h k = gave_up e
  Returns-Decoded panic f h k = elim h [ ]

  Took-Decoded :
      {n : ℕ} {m : Result (List ℕ × Option S)} (f : List ℕ × Option S → Result (A × B × Option S))
      → Took (Option S) IsReader n m
      → ((got : List ℕ) (s : S) → length got ≡ n → Decoded (f (got, some s)))
      → Decoded (and_then m f)
  Took-Decoded f (took got (some s) e h) k = k got s e
  Took-Decoded f (took got none e h) k = elim h [ ]
  Took-Decoded f (failed e) k = gave_up e

  Parsed-Decoded :
      {m : Result ℕ} (f : ℕ → Result (A × B × Option S))
      → Parsed m
      → ((n : ℕ) → n ≤ 1280 → Decoded (f (n + 4 + 8)))
      → Decoded (and_then m f)
  Parsed-Decoded f (parsed n small) k = k n small
  Parsed-Decoded f (refused e) k = gave_up e

module _ (F : Type 0) ⦃fl : Float64 F⦄ (S : Type 0) ⦃rd : Reader S⦄ where
  decode_tcp_internal-Decoded :
      (s : S) (output : Option (List ℕ)) (config : DecodeConfig)
      → Decoded (
          decode_tcp_internal {F = F}
            (record { reader = some s; input_buffer = none; output_buffer = output })
            config)
  unfolding decode_tcp_internal
  decode_tcp_internal-Decoded s output config =
      Took-Decoded _ (take_header-Took 8 (some s) none output tt) λ header s₁ e₁.
        Parsed-Decoded _ (parse_tcp_header-Parsed header e₁) λ n small.
          Took-Decoded _
            (take_packet-Took 8 _ header (some s₁) (some s) none output e₁ (omega arith) tt)
            λ buffer s₂ e₂. rw (slice_from_le 8 buffer (omega arith)) (
              Returns-Decoded (decode_tcp_body {F = F} (is_on_heap config) (drop 8 buffer)) _
                (decode_tcp_body-Returns F _ _) λ packet. gave buffer packet s₂)

  -- On any reader, with any buffer and configuration, `DecodeTCPFromReaderBuf` returns: with a packet
  -- and the reader behind it, or with an error.
  pub decode_tcp_from_reader_buf-Decoded :
      (s : S) (output : List ℕ) (config : List (Option DecodeConfig))
      → Decoded (decode_tcp_from_reader_buf {F = F} s (some output) config)
  unfolding decode_tcp_from_reader_buf
  decode_tcp_from_reader_buf-Decoded s output config =
      Returns-Decoded (choose_config config) _ (choose_config-Returns config)
        λ cfg. go _ (decode_tcp_internal-Decoded s (some output) cfg)
    where
      go :
          (m : Result (List ℕ × DecodedTcp F × Option S))
          → Decoded m
          → Decoded (and_then m λ (buf, packet, reader). ok (length buf, packet, reader))
      go m (gave buf packet s') = gave (length buf) packet s'
      go m (gave_up e) = gave_up e
