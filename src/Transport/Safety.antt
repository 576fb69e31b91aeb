-- ===== src/Transport/Safety.antt =====
-- teltonika.go: the exported decoders return, whatever the input, the reader and the
-- configuration; `decodeUDPInternal` panics on the sizes below 3.
use teltonika.Prelude.{
  ℕ, ◌+◌, ◌*◌, ◌≤◌, ◌<◌, ◌≡◌, arith, Option, none, some, List, [], ◌∷◌, length, take, drop, leb,
  le→leb, Bool-cases, inl, inr, length-take, true, false, Result, panic, and_then, Returns,
  Returns-and_then,
}
use teltonika.Bytes.{slice_from}
use teltonika.Packet.{DecodeConfig, Float64}
use teltonika.Util.ByteReader.{slice}
use teltonika.Util.ByteReader.Bounds.{slice_from_le}
use teltonika.Transport.Config.{choose_config, is_on_heap}
use teltonika.Transport.Stream.{Reader, no_reader, take_header, take_packet}
use teltonika.Transport.Stream.Bounds.{
  Took, took, failed, IsUsable, take_header-Took, take_packet-Took,
}
use teltonika.Transport.Bounds.{
  Parsed, parsed, ParsedUdp, parsed_udp, refused_udp, parse_udp_header-ParsedUdp, refused,
  parse_tcp_header-Parsed, decode_tcp_body-Returns, decode_udp_body-Returns,
}
use teltonika.Transport.Tcp.{decode_tcp_body, decode_tcp_internal, decode_tcp_from_reader}
use teltonika.Transport.RoundTrip.{one_config}
use teltonika.Transport.Udp.{
  parse_udp_header, decode_udp_body, decode_udp_internal, decode_udp_from_slice,
}

pub choose_config-Returns : (config : List (Option DecodeConfig)) → Returns (choose_config config)
unfolding choose_config
choose_config-Returns [] = tt
choose_config-Returns (none ∷ []) = tt
choose_config-Returns (some cfg ∷ []) = tt
choose_config-Returns (_ ∷ _ ∷ _) = tt

-- What runs on bytes that were taken.
Took-Returns {κ} :
    {T : Type 0} {P : T → Type 0} {n : ℕ} {B : Type κ} {m : Result (List ℕ × T)}
    (f : List ℕ × T → Result B)
    → Took T P n m
    → ((got : List ℕ) (t : T) → length got ≡ n → P t → Returns (f (got, t)))
    → Returns (and_then m f)
Took-Returns f (took got t e p) k = k got t e p
Took-Returns f (failed e) k = tt

Parsed-Returns {κ} :
    {B : Type κ} {m : Result ℕ} (f : ℕ → Result B)
    → Parsed m
    → ((n : ℕ) → n ≤ 1280 → Returns (f (n + 4 + 8)))
    → Returns (and_then m f)
Parsed-Returns f (parsed n h) k = k n h
Parsed-Returns f (refused e) k = tt

ParsedUdp-Returns {κ} :
    {B : Type κ} (size : ℕ) {m : Result (ℕ × ℕ)} (f : ℕ × ℕ → Result B)
    → ParsedUdp size m
    → ((packet_id : ℕ) → size ≤ 1280 → Returns (f (size + 2, packet_id)))
    → Returns (and_then m f)
ParsedUdp-Returns size f (parsed_udp packet_id h) k = k packet_id h
ParsedUdp-Returns size f (refused_udp e) k = tt

module _ (F : Type 0) ⦃fl : Float64 F⦄ where
  decode_tcp_internal-Returns :
      (S : Type 0) ⦃rd : Reader S⦄ (reader : Option S) (input output : Option (List ℕ))
      (config : DecodeConfig)
      → IsUsable input reader
      → Returns (
          decode_tcp_internal {F = F} {S = S}
            (record { reader = reader; input_buffer = input; output_buffer = output })
            config)
  unfolding decode_tcp_internal
  decode_tcp_internal-Returns S reader input output config h =
      Took-Returns _ (take_header-Took 8 reader input output h) λ header r₁ e₁ h₁.
        Parsed-Returns _ (parse_tcp_header-Parsed header e₁) λ n small.
          Took-Returns _
            (take_packet-Took 8 (n + 4 + 8) header r₁ reader input output e₁ (omega arith) h₁)
            λ buffer r₂ e₂ h₂. rw (slice_from_le 8 buffer (omega arith)) (
              Returns-and_then (decode_tcp_body {F = F} (is_on_heap config) (drop 8 buffer)) _
                (decode_tcp_body-Returns F _ _) λ packet e. tt)

  -- On any reader, `DecodeTCPFromReader` returns: it ends, whatever the reader delivers.
  pub decode_tcp_from_reader-Returns :
      (S : Type 0) ⦃rd : Reader S⦄ (input : S) (config : List (Option DecodeConfig))
      → Returns (decode_tcp_from_reader {F = F} input config)
  unfolding decode_tcp_from_reader
  decode_tcp_from_reader-Returns S input config =
      Returns-and_then (choose_config config) _ (choose_config-Returns config)
        λ cfg e. decode_tcp_internal-Returns S (some input) none none cfg tt

  -- `DecodeUDPFromSlice` returns on a slice whose size field, its first two bytes, is at least 3.
  pub decode_udp_from_slice-Returns :
      (a b : ℕ) (rest : List ℕ) (config : List (Option DecodeConfig))
      → 3 ≤ a * 256 + b
      → Returns (decode_udp_from_slice {F = F} (some (a ∷ b ∷ rest)) config)
  unfolding decode_udp_from_slice decode_udp_internal take_header
  decode_udp_from_slice-Returns a b rest config h =
      let input = a ∷ b ∷ rest in
      Returns-and_then (choose_config config) _ (choose_config-Returns config) λ cfg e.
        elim (Bool-cases (leb 5 (length input))) [
          | inr short ↦ rw short tt
          | inl enough ↦
              let three : length (take 3 rest) ≡ 3 = ground (arith, length-take 3 rest) in
              rw enough (
                Returns-and_then _ _
                  (ParsedUdp-Returns (a * 256 + b) _
                    (parse_udp_header-ParsedUdp a b (take 3 rest) three)
                    λ packet_id small.
                      Took-Returns _
                        (take_packet-Took 5 (a * 256 + b + 2) (a ∷ b ∷ take 3 rest) none none
                          (some input) none (omega arith) (omega arith) tt)
                        λ buffer r₂ e₂ h₂. rw (slice_from_le 5 buffer (omega arith)) (
                          Returns-and_then
                            (decode_udp_body {F = F} (is_on_heap cfg) packet_id (drop 5 buffer)) _
                            (decode_udp_body-Returns F _ _ _) λ packet e. tt))
                  λ r e'. tt)
        ]

  -- On a slice of at least the 5 bytes of the header whose size field is 0, 1 or 2,
  -- `DecodeUDPFromSlice` panics, with any configuration.
  pub decode_udp_from_slice-panic :
      (a b c d e : ℕ) (rest : List ℕ) (config : List (Option DecodeConfig))
      → a * 256 + b < 3
      → length config < 2
      → decode_udp_from_slice {F = F} (some (a ∷ b ∷ c ∷ d ∷ e ∷ rest)) config ≡ panic
  unfolding decode_udp_from_slice decode_udp_internal take_header take_packet parse_udp_header slice
      slice_from
  decode_udp_from_slice-panic a b c d e rest config h one =
      let (cfg, chosen) = one_config config one in
      let input = a ∷ b ∷ c ∷ d ∷ e ∷ rest in
      let size = a * 256 + b in
      let enough : leb 5 (length input) ≡ true = le→leb 5 (length input) (omega arith) in
      let small : leb size 1280 ≡ true = le→leb size 1280 (omega arith) in
      let inside : leb (size + 2) (length input) ≡ true =
        le→leb (size + 2) (length input) (omega arith) in
      let short : leb 5 (length (take (size + 2) input)) ≡ false =
        ground (arith, length-take (size + 2) input) in
      rw (chosen, enough, small, inside, short)
