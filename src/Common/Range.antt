-- ===== src/Common/Range.antt =====
-- A Boolean test on every number below a bound, decided by evaluation.
use Prim.Native.Nat.{ℕ, zero, suc, ◌<◌}
use mathlib.Core.Path.{◌≡◌}
use mathlib.Core.Bool.{Bool, true, ◌&&◌}
use native.Mathlib.Omega.{arith}
use hasten.Common.Tests.{◌==◌, ==_iff}

unfoldable pub holds_below : (ℕ → Bool) → ℕ → Bool
holds_below p zero = true
holds_below p (suc n) = p n && holds_below p n

pub holds_below-test : (p : ℕ → Bool) (n i : ℕ) → holds_below p n ≡ true → i < n → p i ≡ true
unfolding holds_below
holds_below-test p zero i h lt = absurd (omega arith)
holds_below-test p (suc n) i h lt = ground (arith, holds_below-test p n i)

pub holds_below-eq :
    (f g : ℕ → ℕ) (n i : ℕ) → holds_below (λ k. f k == g k) n ≡ true → i < n → f i ≡ g i
holds_below-eq f g n i h lt = (==_iff (f i) (g i)).0 (holds_below-test (λ k. f k == g k) n i h lt)
