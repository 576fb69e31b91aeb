-- ===== src/Util/Crc/Tests.antt =====
-- The checksum on the usual check input.
use teltonika.Prelude.{◌≡◌, refl, [], ◌∷◌}
use teltonika.Util.Crc.{crc16_ibm, crc_loop, update_crc, crc16_ibm_lookup_table}
use mathlib.Core.Option.{bind}

-- "123456789"
crc_check : crc16_ibm (0x31 ∷ 0x32 ∷ 0x33 ∷ 0x34 ∷ 0x35 ∷ 0x36 ∷ 0x37 ∷ 0x38 ∷ 0x39 ∷ []) ≡ 0xbb3d
unfolding crc16_ibm crc_loop update_crc crc16_ibm_lookup_table bind
crc_check = refl
