-- ===== src/Transport/Streaming.antt =====
-- teltonika.go: frames decoded from a byte stream that comes in pieces of any size.
use mathlib.Core.Path.{subst}
use mathlib.Core.Option.{some-injective}
use teltonika.Prelude.{
  ℕ, ◌+◌, ◌-◌, ◌≤◌, ◌<◌, ◌≡◌, refl, sym, ap, ◌∙◌, arith, Option, none, some, List, [], ◌∷◌, ◌++◌,
  append_assoc, length, take, drop, length-append, take-length_append, drop-length_append, le→leb,
  le→ltb, ok,
}
use teltonika.Bytes.{be16, be32}
use teltonika.Packet.{Packet, DecodeConfig, Float64}
use teltonika.Util.Crc.{crc16_ibm}
use teltonika.Transport.Stream.{
  Reader, Source, read_from_reader, take_header, read_rest, take_packet,
}
use teltonika.Transport.Stream.Delivery.{IsStream, read_from_reader-IsStream}
use teltonika.Transport.Tcp.{
  decode_tcp_internal, decode_tcp_from_reader, decode_tcp_from_reader_buf,
}
use teltonika.Transport.Udp.{decode_udp_internal, decode_udp_from_reader}
use teltonika.Transport.Decoding.{
  tcp_decoded, udp_decoded, decode_tcp_internal_lem, decode_udp_internal_lem,
}
use teltonika.Transport.Format.{tcp_code, udp_header, udp_code}
use teltonika.Transport.RoundTrip.{one_config, length-tcp_code, length-udp_code}
use teltonika.Wire.{packet_code, IsPacket}

module _ {S : Type 0} ⦃rd : Reader S⦄ (Holds : S → List ℕ → Type 0) (stream : IsStream Holds) where
  -- A list that stands in front of what the reader holds is read off it.
  read_front :
      (n : ℕ) (code rest : List ℕ) (s : S)
      → length code ≡ n
      → Holds s (code ++ rest)
      → (s' : S) × (read_from_reader n (some s) ≡ ok (code, some s')) × Holds s' rest
  read_front n code rest s e p =
      let fits = length-append code rest in
      let (s', r, q) = read_from_reader-IsStream Holds stream n (code ++ rest) s p (omega arith) in
      let front : take n (code ++ rest) ≡ code = rw (← e) (take-length_append code rest) in
      let back : drop n (code ++ rest) ≡ rest = rw (← e) (drop-length_append code rest) in
      (s', rw front at r, rw back at q)

  -- The two calls of `readFromReader`, for the header and for the rest of a frame.
  read_frame :
      (n size : ℕ) (code header behind rest : List ℕ) (s : S)
      → code ≡ header ++ behind
      → length header ≡ n
      → length code ≡ size
      → Holds s (code ++ rest)
      → (s₁ s₂ : S) × (read_from_reader n (some s) ≡ ok (header, some s₁))
        × (read_rest n size header (some s₁) ≡ ok (code, some s₂))
        × Holds s₂ rest
  unfolding read_rest
  read_frame n size code header behind rest s parts e f p =
      let (s₁, r₁, q₁) =
        read_front n header (behind ++ rest) s e
          (rw (parts, append_assoc header behind rest) at p) in
      let sum = ap (λ (t : List ℕ). length t) parts ∙ length-append header behind in
      let (s₂, r₂, q₂) = read_front (size - n) behind rest s₁ (omega arith) q₁ in
      (
        s₁,
        s₂,
        r₁,
        rw (le→ltb size n (omega arith), r₂) (ap (λ (t : List ℕ). ok (t, some s₂)) (sym parts)),
        q₂,
      )

  -- Both ways of buffering them: in a fresh buffer, or in one of the caller that is long enough.
  take_frame :
      (n size : ℕ) (output : Option (List ℕ)) (code header behind rest : List ℕ) (s : S)
      → code ≡ header ++ behind
      → length header ≡ n
      → length code ≡ size
      → ((o : List ℕ) → output ≡ some o → size ≤ length o)
      → Holds s (code ++ rest)
      → let src : Source S = record {
        reader = some s;
        input_buffer = none;
        output_buffer = output;
      } in
        (s₁ s₂ : S) × (take_header n src ≡ ok (header, some s₁))
        × (take_packet n size header (some s₁) src ≡ ok (code, some s₂))
        × Holds s₂ rest
  unfolding take_header take_packet
  take_frame n size none code header behind rest s parts e f room p =
      read_frame n size code header behind rest s parts e f p
  take_frame n size (some o) code header behind rest s parts e f room p =
      let sum = ap (λ (t : List ℕ). length t) parts ∙ length-append header behind in
      let fits : size ≤ length o = room o refl in
      let (s₁, s₂, r₁, r₂, q) = read_frame n size code header behind rest s parts e f p in
      (s₁, s₂, rw (le→leb n (length o) (omega arith)) r₁, rw (le→leb size (length o) fits) r₂, q)

  module _ {F : Type 0} ⦃fl : Float64 F⦄ where
    decode_tcp_internal-IsStream :
        (p : Packet F) (rest : List ℕ) (s : S) (output : Option (List ℕ)) (cfg : DecodeConfig)
        → IsPacket p
        → length (packet_code p) ≤ 1280
        → ((o : List ℕ) → output ≡ some o → length (packet_code p) + 4 + 8 ≤ length o)
        → Holds s (tcp_code p ++ rest)
        → (s' : S) × (decode_tcp_internal
              (record { reader = some s; input_buffer = none; output_buffer = output })
              cfg
            ≡ ok (tcp_code p, tcp_decoded p, some s'))
          × Holds s' rest
    decode_tcp_internal-IsStream p rest s output cfg h small room holds =
        let body = packet_code p in
        let n = length body in
        let header = be32 0 ++ be32 n in
        let parts : tcp_code p ≡ header ++ (body ++ be32 (crc16_ibm body)) =
          unfold tcp_code in refl in
        let (s₁, s₂, e₁, e₂, q) =
          take_frame 8 (n + 4 + 8) output (tcp_code p) header (body ++ be32 (crc16_ibm body)) rest s
            parts refl (length-tcp_code p) room holds in
        (s₂, decode_tcp_internal_lem _ cfg p h small (some s₁) (some s₂) e₁ e₂, q)

    -- From a reader that delivers the frame of a packet and then `rest`, in pieces of any size,
    -- `DecodeTCPFromReader` returns the frame and the packet, and leaves a reader that delivers
    -- `rest`: frames that follow each other on a connection are decoded one by one.
    pub decode_tcp_from_reader-IsStream :
        (p : Packet F) (rest : List ℕ) (s : S) (config : List (Option DecodeConfig))
        → IsPacket p
        → length (packet_code p) ≤ 1280
        → length config < 2
        → Holds s (tcp_code p ++ rest)
        → (s' : S) × (decode_tcp_from_reader s config ≡ ok (tcp_code p, tcp_decoded p, some s'))
          × Holds s' rest
    unfolding decode_tcp_from_reader
    decode_tcp_from_reader-IsStream p rest s config h small one holds =
        let (cfg, chosen) = one_config config one in
        let (s', e, q) = decode_tcp_internal-IsStream p rest s none cfg h small (λ o e. cc) holds in
        (s', rw chosen e, q)

    -- From a reader that delivers the frame of a packet and then `rest`, in pieces of any size, and
    -- with a buffer that has room for the frame, `DecodeTCPFromReaderBuf` returns the frame's length
    -- and the packet, and leaves a reader that delivers `rest`.
    pub decode_tcp_from_reader_buf-IsStream :
        (p : Packet F) (rest output : List ℕ) (s : S) (config : List (Option DecodeConfig))
        → IsPacket p
        → length (packet_code p) ≤ 1280
        → length (packet_code p) + 12 ≤ length output
        → length config < 2
        → Holds s (tcp_code p ++ rest)
        → (s' : S) × (decode_tcp_from_reader_buf s (some output) config
            ≡ ok (length (tcp_code p), tcp_decoded p, some s'))
          × Holds s' rest
    unfolding decode_tcp_from_reader_buf
    decode_tcp_from_reader_buf-IsStream p rest output s config h small fits one holds =
        let (cfg, chosen) = one_config config one in
        let room : (o : List ℕ) → some output ≡ some o → length (packet_code p) + 4 + 8 ≤ length o =
          λ o e.
            subst (λ t. length (packet_code p) + 4 + 8 ≤ length t) (some-injective output o e)
              (omega arith) in
        let (s', e, q) =
          decode_tcp_internal-IsStream p rest s (some output) cfg h small room holds in
        (s', rw (chosen, e), q)

    -- From a reader that delivers the UDP frame of a packet, `DecodeUDPFromReader` returns the
    -- frame, its numbers, the IMEI and the packet.
    decode_udp_from_reader-IsStream :
        (imei : List ℕ) (packet_id avl_packet_id : ℕ) (p : Packet F) (rest : List ℕ) (s : S)
        (config : List (Option DecodeConfig))
        → IsPacket p
        → packet_id < 65536
        → length (packet_code p) + length imei + 8 ≤ 1280
        → length config < 2
        → Holds s (udp_code imei packet_id avl_packet_id p ++ rest)
        → (s' : S) × (decode_udp_from_reader s config
            ≡ ok (
              udp_code imei packet_id avl_packet_id p,
              udp_decoded imei packet_id avl_packet_id p,
              some s',
            ))
          × Holds s' rest
    unfolding decode_udp_from_reader
    decode_udp_from_reader-IsStream imei packet_id avl_packet_id p rest s config h id small one
          holds =
        let (cfg, chosen) = one_config config one in
        let code = udp_code imei packet_id avl_packet_id p in
        let n = length (packet_code p) + length imei + 6 in
        let header = be16 n ++ (be16 packet_id ++ (0x01 ∷ [])) in
        let behind = avl_packet_id ∷ (be16 (length imei) ++ (imei ++ packet_code p)) in
        let parts : code ≡ header ++ behind = unfold udp_code udp_header in refl in
        let (s₁, s₂, e₁, e₂, q) =
          take_frame 5 (n + 2) none code header behind rest s parts refl
            (length-udp_code imei packet_id avl_packet_id p) (λ o e. cc) holds in
        let src : Source S = record {
          reader = some s;
          input_buffer = none;
          output_buffer = none;
        } in
        let whole : decode_udp_internal src cfg
            ≡ ok (code, udp_decoded imei packet_id avl_packet_id p, some s₂) =
          unfold udp_header in
          decode_udp_internal_lem src cfg imei packet_id avl_packet_id p h id small (some s₁)
            (some s₂) e₁ e₂ in
        (s₂, rw chosen whole, q)
