-- ===== src/Runtime/Hb1/Zigzag.antt =====
-- The zigzag form of signed numbers in hb1.cpp. A pattern from 2 ^ 63 on stands for a negative
-- number: 2 ^ 64 - 1 - n for -(n + 1).
use hasten.Common.{
  ℕ, ◌+◌, ◌-◌, ◌*◌, ◌/◌, ◌%◌, ◌^◌, ◌≤◌, ◌<◌, ◌≡◌, refl, arith, IsU64, ltb, ◌==◌, if◌then◌else◌,
}
use hasten.Common.Bits.{bit_and_mask}
use hasten.Common.Xor.{xor-zero, xor_ones}
use hasten.Runtime.Result.{ok}
use hasten.Runtime.Hb1.Writer.{zigzag}
use hasten.Runtime.Hb1.Reader.{unzigzag, decode_zigzag}
use hasten.Runtime.Hb1.Reader.Varints.{decode_varint-encode_varint}
use hasten.Runtime.Varint.{encode_varint}

zigzag_nonneg : (n : ℕ) → n < 2 ^ 63 → zigzag n ≡ 2 * n
unfolding zigzag
zigzag_nonneg n h = ground (arith, xor-zero (n * 2 % 2 ^ 64))

zigzag_negative : (p : ℕ) → 2 ^ 63 ≤ p → IsU64 p → zigzag p ≡ 2 * (2 ^ 64 - 1 - p) + 1
unfolding zigzag
zigzag_negative p h b = ground (arith, xor_ones 64 (p * 2 % 2 ^ 64))

zigzag_lem :
    (p : ℕ) → IsU64 p → zigzag p ≡ (if ltb p (2 ^ 63) then 2 * p else 2 * (2 ^ 64 - 1 - p) + 1)
zigzag_lem p h = ground (arith, zigzag_nonneg p, zigzag_negative p)

pub zigzag-IsU64 : (p : ℕ) → IsU64 p → IsU64 (zigzag p)
zigzag-IsU64 p h = ground (arith, zigzag_lem p h)

unzigzag_lem : (v : ℕ) → IsU64 v → unzigzag v ≡ (if v % 2 == 0 then v / 2 else 2 ^ 64 - 1 - v / 2)
unfolding unzigzag
unzigzag_lem v h = ground (arith, bit_and_mask 1 v, xor-zero (v / 2), xor_ones 64 (v / 2))

-- A number n from 0 on is written as 2n, and -(n + 1) as 2n + 1, so a small magnitude has a small
-- code.
pub zigzag_magnitude :
    (n : ℕ) → n < 2 ^ 63 → (zigzag n ≡ 2 * n) × (zigzag (2 ^ 64 - 1 - n) ≡ 2 * n + 1)
zigzag_magnitude n h =
    (zigzag_nonneg n h, omega (arith, zigzag_negative (2 ^ 64 - 1 - n) (omega arith) (omega arith)))

-- Every signed 64-bit number is read back from its zigzag code, and every code is the code of the
-- number that it is read as.
pub unzigzag-zigzag : (p : ℕ) → IsU64 p → (unzigzag (zigzag p) ≡ p) × (zigzag (unzigzag p) ≡ p)
unzigzag-zigzag p h = (
  ground (arith, zigzag_lem p h, unzigzag_lem (zigzag p)),
  ground (arith, unzigzag_lem p h, zigzag_lem (unzigzag p)),
)

-- The bytes written for a signed number decode to it.
pub decode_zigzag-zigzag : (p : ℕ) → IsU64 p → decode_zigzag (encode_varint (zigzag p)) ≡ ok p
unfolding decode_zigzag
decode_zigzag-zigzag p h =
    rw (decode_varint-encode_varint (zigzag p) (zigzag-IsU64 p h), (unzigzag-zigzag p h).0) refl
