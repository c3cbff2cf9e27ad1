-- ===== src/Runtime/Varint.antt =====
-- The bytes of a variable-length integer: seven bits a byte, lowest first, the top bit set on every
-- byte but the last. src/runtime/serialization/hb1.cpp and src/runtime/context.cpp both have the
-- loops below.
pub mod Groups
pub mod Encoding
use mathlib.Core.Logic.{dite}
use mathlib.Core.WellFounded.{Acc}
use native.Mathlib.Decide.{dec_le}
use hasten.Common.{ℕ, ◌*◌, ◌/◌, ◌%◌, ◌^◌, ◌≤◌, ◌<◌, bit_and, bit_or, List, [], ◌∷◌, arith}
use hasten.Common.Order.{lt_wf}

pub shift_shrinks : (value : ℕ) → 0x80 ≤ value → value / 128 < value
shift_shrinks value more = omega arith

-- `while (value >= 0x80) { out = (uint8_t)(value | 0x80); value >>= 7; } out = (uint8_t)value;`
varint_loop : (value : ℕ) → Acc ◌<◌ value → List ℕ
varint_loop value (Acc.intro _ smaller) =
    dite (dec_le 0x80 value)
      (λ more.
        (bit_or value 0x80 % 256)
        ∷ varint_loop (value / 128) (smaller _ (shift_shrinks value more)))
      (λ _. (value % 256) ∷ [])

-- `encode_varint_u64`
unfoldable pub encode_varint : ℕ → List ℕ
unfolding varint_loop lt_wf dec_le
encode_varint value = varint_loop value (lt_wf.apply value)

-- `result |= (uint64_t)(byte & 0x7F) << shift`, for a shift below 64.
abbrev pub or_group : ℕ → ℕ → ℕ → ℕ
or_group result byte shift = bit_or result (bit_and byte 0x7F * 2 ^ shift % 2 ^ 64)
