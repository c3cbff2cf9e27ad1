-- ===== src/Common/Texts.antt =====
-- The test whether two texts are equal, and conditionals on such tests.
use Prim.Native.String.{String}
use text.Mathlib.Text.{◌==◌ as ◌is◌}
use text.Mathlib.TextEquality.{eq_iff}
use mathlib.Core.Path.{◌≡◌, refl, sym}
use mathlib.Core.Bool.{Bool, true, false, ◌&&◌, false≢true}
use native.Mathlib.Omega.{arith}
use hasten.Common.Tests.{if◌then◌else◌}

pub is_comm : (a b : String) → (a is b) ≡ (b is a)
is_comm a b = ground (arith, eq_iff a b, eq_iff b a)

-- No text is equal to two that differ.
pub never_both : (a b k : String) → (a is b) ≡ false → ((a is k) && (b is k)) ≡ false
never_both a b k differ = ground (arith, eq_iff a b, eq_iff a k, eq_iff b k)

module _ {ℓ} {A : Type ℓ} where
  pub if_swap :
      (a b : Bool) (x y z : A)
      → (a && b) ≡ false
      → (if a then x else (if b then y else z)) ≡ (if b then y else (if a then x else z))
  if_swap true true x y z h = absurd (false≢true (sym h))
  if_swap true false x y z h = refl
  if_swap false true x y z h = refl
  if_swap false false x y z h = refl

  pub if_twice :
      (b : Bool) (x y z : A) → (if b then x else z) ≡ (if b then x else (if b then y else z))
  if_twice true x y z = refl
  if_twice false x y z = refl
