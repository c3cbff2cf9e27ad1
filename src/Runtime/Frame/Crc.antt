-- ===== src/Runtime/Frame/Crc.antt =====
-- The table-driven checksum of src/runtime/frame.cpp.
pub mod Laws
use hasten.Common.{
  ℕ, zero, suc, ◌+◌, ◌/◌, ◌^◌, bit_and, bit_xor, List, [], ◌∷◌, ◌==◌, if◌then◌else◌, get_or,
}

-- One of the eight rounds for a byte.
crc_round : ℕ → ℕ
crc_round r = if bit_and r 1 == 1 then bit_xor 0xEDB88320 (r / 2) else r / 2

crc_rounds : ℕ → ℕ → ℕ
unfolding crc_round
crc_rounds zero r = r
crc_rounds (suc k) r = crc_rounds k (crc_round r)

unfoldable pub crc32_for_byte : ℕ → ℕ
unfolding crc_rounds
crc32_for_byte r = bit_xor (crc_rounds 8 r) 0xFF000000

crc_table_from : ℕ → ℕ → List ℕ
crc_table_from zero i = []
crc_table_from (suc k) i = crc32_for_byte i ∷ crc_table_from k (i + 1)

unfoldable pub make_crc_table : List ℕ
unfolding crc_table_from
make_crc_table = crc_table_from 256 0

unfoldable pub crc_step : ℕ → ℕ → ℕ
crc_step crc byte =
    bit_xor (get_or make_crc_table (bit_and (bit_xor crc byte) 0xFF) 0) (crc / 2 ^ 8)

unfoldable pub crc32_from : ℕ → List ℕ → ℕ
crc32_from crc [] = crc
crc32_from crc (byte ∷ rest) = crc32_from (crc_step crc byte) rest

unfoldable pub crc32 : List ℕ → ℕ
unfolding crc32_from
crc32 bytes = crc32_from 0 bytes
