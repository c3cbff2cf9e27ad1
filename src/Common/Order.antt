-- ===== src/Common/Order.antt =====
-- `<` on the native numbers is well founded.
use Prim.Native.Nat.{ℕ, zero, suc, ◌<◌}
use mathlib.Core.WellFounded.{Acc, WellFounded}
use native.Mathlib.Omega.{arith}

below_accessible : (bound n : ℕ) → n < bound → Acc ◌<◌ n
below_accessible zero n h = absurd (omega arith)
below_accessible (suc bound) n h = Acc.intro n (λ m lt. below_accessible bound m (omega arith))

unfoldable pub lt_wf : WellFounded ◌<◌
unfolding below_accessible
lt_wf = record { apply = λ n. below_accessible (suc n) n (omega arith) }
