-- ===== src/Tests/Transports.antt =====
-- The theorems on the transports, at concrete packets, inputs and readers.
use teltonika.Prelude.{
  ℕ, ◌+◌, ◌≡◌, refl, arith, none, some, List, [], ◌∷◌, ◌++◌, length, replicate, ok, panic, and_then,
  Returns,
}
use teltonika.Transport.Format.{tcp_code}
use teltonika.Transport.Size.{contents_size}
use teltonika.Transport.Tcp.{decode_tcp_from_slice, decode_tcp_from_reader, encode_packet_tcp}
use teltonika.Transport.Udp.{decode_udp_from_slice, encode_packet_udp}
use teltonika.Transport.Decoding.{tcp_decoded, udp_decoded}
use teltonika.Transport.RoundTrip.{
  decode_tcp_from_slice-encode_packet_tcp, decode_udp_from_slice-encode_packet_udp,
}
use teltonika.Transport.Streaming.{decode_tcp_from_reader-IsStream}
use teltonika.Transport.Safety.{decode_tcp_from_reader-Returns, decode_udp_from_slice-panic}
use teltonika.Transport.Sizes.{contents_size-packet_code}
use teltonika.Prelude.Int.{ℤ}
use teltonika.Wire.{packet_code}
use teltonika.Tests.Data.{
  fixed_point, getinfo, tracked, tracked-IsPacket, length-tracked, Pieces, piecewise, Holds,
  piecewise-IsStream,
}

abbrev device : List ℕ
device = 0x33 ∷ 0x35 ∷ 0x32 ∷ []

abbrev junk : List ℕ
junk = 0xca ∷ 0xfe ∷ []

abbrev buffer : List ℕ
buffer = replicate 80 0

abbrev on_the_wire : Pieces
on_the_wire = record { bytes = tcp_code tracked ++ (tcp_code getinfo ++ []) }

decode_tcp_from_slice-encode_packet_tcp_example :
    and_then
      (encode_packet_tcp tracked)
      (λ bytes. decode_tcp_from_slice (some (bytes ++ junk)) (none ∷ []))
    ≡ ok (length (packet_code tracked) + 12, tcp_decoded tracked)
decode_tcp_from_slice-encode_packet_tcp_example =
    decode_tcp_from_slice-encode_packet_tcp tracked junk (none ∷ []) tracked-IsPacket
      (omega (arith, length-tracked)) (omega arith)

decode_udp_from_slice-encode_packet_udp_example :
    and_then
      (encode_packet_udp device 0xcafe 5 tracked)
      (λ bytes. decode_udp_from_slice (some (bytes ++ [])) [])
    ≡ ok (length (packet_code tracked) + 3 + 8, udp_decoded device 0xcafe 5 tracked)
decode_udp_from_slice-encode_packet_udp_example =
    decode_udp_from_slice-encode_packet_udp device 0xcafe 5 tracked [] [] tracked-IsPacket
      (omega arith) (omega (arith, length-tracked)) (omega arith)

decode_tcp_from_reader-IsStream_example :
    (s' : Pieces) × (decode_tcp_from_reader on_the_wire []
      ≡ ok (tcp_code tracked, tcp_decoded tracked, some s'))
    × Holds s' (tcp_code getinfo ++ [])
decode_tcp_from_reader-IsStream_example =
    decode_tcp_from_reader-IsStream Holds piecewise-IsStream tracked (tcp_code getinfo ++ [])
      on_the_wire [] tracked-IsPacket (omega (arith, length-tracked)) (omega arith) refl

decode_tcp_from_reader-Returns_example :
    Returns (decode_tcp_from_reader {F = ℤ} {S = Pieces} (record { bytes = junk }) [])
decode_tcp_from_reader-Returns_example =
    decode_tcp_from_reader-Returns ℤ Pieces (record { bytes = junk }) []

decode_udp_from_slice-panic_example :
    decode_udp_from_slice {F = ℤ} (some (0 ∷ 2 ∷ 0xca ∷ 0xfe ∷ 1 ∷ junk)) [] ≡ panic
decode_udp_from_slice-panic_example =
    decode_udp_from_slice-panic ℤ 0 2 0xca 0xfe 1 junk [] (omega arith) (omega arith)

contents_size-packet_code_example : contents_size tracked 3 ≡ ok 55
contents_size-packet_code_example =
    contents_size-packet_code tracked tracked-IsPacket 3 55 (omega (arith, length-tracked))
