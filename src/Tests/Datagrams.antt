-- ===== src/Tests/Datagrams.antt =====
-- The theorems on the log of the UDP server, at a concrete datagram.
use teltonika.Prelude.{ℕ, ◌≡◌, refl, arith, true, Option, some, List, [], ◌∷◌, ◌++◌, take, ok}
use teltonika.Prelude.Int.{ℤ}
use teltonika.Hex.{encode_to_string}
use teltonika.Packet.{Packet}
use teltonika.Encode.Frame.{or_nil}
use teltonika.Wire.{normal_packet}
use teltonika.IoElements.{Text, Decoder, new_decoder}
use teltonika.IoElements.Printed.{Formats}
use teltonika.Transport.Format.{udp_code}
use teltonika.UdpServer.{received}
use teltonika.UdpServer.Log.{Line, message, decoded_as, handler_lines}
use teltonika.UdpServer.Log.Complete.{AreShown, handler_lines-udp_code}
use teltonika.Tests.Data.{fixed_point, tracked, tracked-IsPacket, length-tracked}
use teltonika.Tests.Elements.{whole, all_definitions}

instance abbrev formats : Formats ℤ
formats = record { fixed = λ v. b'f' ∷ []; plain = λ v. b'v' ∷ [] }

abbrev decoder : Decoder ℤ
decoder = new_decoder all_definitions

abbrev marshal : Packet ℤ → Option Text
marshal p = some (b'{' ∷ b'}' ∷ [])

abbrev code : List ℕ
code = udp_code (b'3' ∷ b'5' ∷ []) 7 5 tracked ++ 0xca ∷ []

handler_lines-udp_code_example :
    (lines : List Line) × AreShown decoder 0 (or_nil (normal_packet tracked).frames) lines
    × (handler_lines decoder marshal true (received (record { addr = 1; bytes = code }))
        ≡ ok (message (encode_to_string (take 1300 code)) ∷ decoded_as (b'{' ∷ b'}' ∷ []) ∷ lines))
handler_lines-udp_code_example =
    handler_lines-udp_code decoder marshal 1 (b'3' ∷ b'5' ∷ []) 7 5 tracked (0xca ∷ [])
      (b'{' ∷ b'}' ∷ []) tracked-IsPacket (omega arith) (omega (arith, length-tracked)) refl
