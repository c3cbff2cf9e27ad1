-- ===== src/Runtime/Varint/Encoding.antt =====
-- The shape of what `encode_varint` writes.
use mathlib.Core.WellFounded.{Acc}
use mathlib.Core.Logic.{dif_pos, dif_neg}
use native.Mathlib.Bridge.{le_prop}
use native.Mathlib.Decide.{dec_le}
use hasten.Common.{ℕ, zero, suc, ◌+◌, ◌/◌, ◌%◌, ◌≤◌, ◌<◌, ◌≡◌, List, [], ◌∷◌, All, arith, IsByte}
use hasten.Common.Bits.{set_top_bit}
use hasten.Common.Order.{lt_wf}
use hasten.Runtime.Varint.{shift_shrinks, varint_loop, encode_varint}

pub data Encodes : ℕ → List ℕ → Type 0 where
  last : {v : ℕ} → v < 128 → Encodes v (v ∷ [])
  more :
      {v : ℕ} {bytes : List ℕ}
      → 128 ≤ v
      → Encodes (v / 128) bytes
      → Encodes v ((v % 128 + 128) ∷ bytes)

low-Encodes : (v : ℕ) → v < 128 → Encodes v ((v % 256) ∷ [])
low-Encodes v h = let same : v % 256 ≡ v = omega arith in rw same (last h)

varint_loop-Encodes : (n v : ℕ) (w : Acc ◌<◌ v) → v ≤ n → Encodes v (varint_loop v w)
unfolding varint_loop
varint_loop-Encodes zero v (Acc.intro _ smaller) h =
    rw (dif_neg (dec_le 128 v) (λ (big : 128 ≤ v). omega arith) _ _) (low-Encodes v (omega arith))
varint_loop-Encodes (suc n) v (Acc.intro _ smaller) h = elim (dec_le 128 v) [
  | yes big ↦
      rw (dif_pos (dec_le 128 v) le_prop big _ _, set_top_bit v)
        (more big (varint_loop-Encodes n (v / 128) (smaller _ (shift_shrinks v big)) (omega arith)))
  | no small ↦ rw (dif_neg (dec_le 128 v) small _ _) (low-Encodes v (omega arith))
]

-- The encoder writes the groups of its argument, lowest first.
pub encode_varint-Encodes : (v : ℕ) → Encodes v (encode_varint v)
unfolding encode_varint
encode_varint-Encodes v = varint_loop-Encodes v v (lt_wf.apply v) (omega arith)

pub Encodes-bytes : {v : ℕ} {bytes : List ℕ} → Encodes v bytes → All IsByte bytes
Encodes-bytes (last h) = (omega arith, tt)
Encodes-bytes (more h e) = (omega arith, Encodes-bytes e)
