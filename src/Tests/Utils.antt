-- ===== src/Tests/Utils.antt =====
-- The theorems on checksums, at concrete bytes.
use teltonika.Prelude.{ℕ, ◌≡◌, arith, List, [], ◌∷◌}
use teltonika.Util.Crc.{crc16_ibm}
use teltonika.Util.Crc.Bitwise.{remainder_loop, crc16_ibm-remainder}

abbrev sample : List ℕ
sample = 0x0c ∷ 0x01 ∷ 0xff ∷ []

crc16_ibm-remainder_example : crc16_ibm sample ≡ remainder_loop 0 sample
crc16_ibm-remainder_example =
    crc16_ibm-remainder sample (omega arith, (omega arith, (omega arith, tt)))
