-- ===== src/Util/Crc.antt =====
-- util.go: the lookup table of CRC-16/IBM and the checksum. `&`, `^` and `>>` are on uint16.
pub mod Bits
pub mod Bitwise
pub mod Bounds
mod Tests
use mathlib.Core.Option
use Prim.Native.Nat.{bit_and, bit_xor}
use mathlib.Core.Option.{get_or as option_get_or}
use teltonika.Prelude.{
  ℕ, zero, suc, ◌+◌, ◌*◌, ◌/◌, Bool, true, false, Option, none, some, List, [], ◌∷◌, get_or, set,
  replicate, ltb, ◌==◌, if◌then◌else◌,
}

-- The step of the outer loop on `crc`: shift right, and add the polynomial if a one fell out.
unfoldable pub shift_crc : ℕ → ℕ
shift_crc crc = if bit_and crc 0x0001 == 1 then bit_xor (crc / 2) 0xa001 else crc / 2

-- `for j := 0; j < 255; j += i * 2`. `none` in these loops means that the fuel ran out.
unfoldable pub fill_row : ℕ → ℕ → ℕ → ℕ → List ℕ → Option (List ℕ)
fill_row zero i j crc table = none
fill_row (suc fuel) i j crc table =
    let rest =
      fill_row fuel i (j + i * 2) crc (set table (i + j) (bit_xor crc (get_or table j 0))) in
    if ltb j 255 then rest else some table

-- `for i > 0 { ...; i = i >> 1 }`
unfoldable pub fill_table : ℕ → ℕ → ℕ → List ℕ → Option (List ℕ)
unfolding shift_crc fill_row
fill_table zero i crc table = none
fill_table (suc fuel) i crc table =
    let crc' = shift_crc crc in
    let row = fill_row 256 i 0 crc' table in
    let rest = Option.bind row (fill_table fuel (i / 2) crc') in
    if ltb 0 i then rest else some table

-- `i` takes the values 128, 64, ..., 1, 0.
unfoldable pub gen_crc16_ibm_lookup_table : Option (List ℕ)
unfolding fill_table
gen_crc16_ibm_lookup_table = fill_table 9 128 1 (replicate 256 0)

unfoldable pub crc16_ibm_lookup_table : List ℕ
unfolding gen_crc16_ibm_lookup_table
crc16_ibm_lookup_table = option_get_or gen_crc16_ibm_lookup_table []

-- One round of the loop of `Crc16IBM`; the index is below 256, so it is in range.
unfoldable pub update_crc : List ℕ → ℕ → ℕ → ℕ
update_crc table crc b =
    let lookup_index = bit_and (bit_xor crc b) 0xff in
    bit_xor (crc / 256) (get_or table lookup_index 0)

unfoldable pub crc_loop : List ℕ → ℕ → List ℕ → ℕ
crc_loop table crc [] = crc
crc_loop table crc (b ∷ bs) = crc_loop table (update_crc table crc b) bs

unfoldable pub crc16_ibm : List ℕ → ℕ
crc16_ibm bytes = crc_loop crc16_ibm_lookup_table 0 bytes
