-- ===== src/Util/Crc/Bounds.antt =====
-- util.go: the checksum stays a uint16, whatever the elements of its input.
use Prim.Native.Nat.{bit_xor}
use teltonika.Prelude.{ℕ, ◌%◌, ◌^◌, ◌<◌, arith, List, [], ◌∷◌}
use teltonika.Util.Crc.{update_crc, crc_loop, crc16_ibm, crc16_ibm_lookup_table}
use teltonika.Util.Crc.Bits.{bit_and_byte, bit_xor-lt}
use teltonika.Util.Crc.Bitwise.{divide_bits-lt, table_lem}

update_crc-lt : (crc b : ℕ) → crc < 2 ^ 16 → update_crc crc16_ibm_lookup_table crc b < 2 ^ 16
unfolding update_crc
update_crc-lt crc b h =
    let x = bit_xor crc b in
    rw (bit_and_byte x, table_lem (x % 256) (omega arith))
      (bit_xor-lt 16 _ _ (omega arith) (divide_bits-lt 8 (x % 256) (omega arith)))

crc_loop-lt :
    (crc : ℕ) (bytes : List ℕ) → crc < 2 ^ 16 → crc_loop crc16_ibm_lookup_table crc bytes < 2 ^ 16
unfolding crc_loop
crc_loop-lt crc [] h = h
crc_loop-lt crc (b ∷ bs) h =
    crc_loop-lt (update_crc crc16_ibm_lookup_table crc b) bs (update_crc-lt crc b h)

-- The checksum of any input fits the 16 bits of its type.
pub crc16_ibm-lt : (bytes : List ℕ) → crc16_ibm bytes < 2 ^ 16
unfolding crc16_ibm
crc16_ibm-lt bytes = crc_loop-lt 0 bytes (omega arith)
