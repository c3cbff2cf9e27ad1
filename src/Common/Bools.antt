-- ===== src/Common/Bools.antt =====
-- What a conjunction or a negation says of its parts.
use mathlib.Core.Path.{◌≡◌, refl, sym}
use mathlib.Core.Bool.{Bool, true, false, not, ◌&&◌, false≢true}
use mathlib.Core.List.{List, [], ◌∷◌}

pub left_of_both : (a b : Bool) → (a && b) ≡ true → a ≡ true
left_of_both true b h = refl
left_of_both false b h = h

pub right_of_both : (a b : Bool) → (a && b) ≡ true → b ≡ true
right_of_both true b h = h
right_of_both false b h = absurd (false≢true h)

pub false_of_not : (b : Bool) → not b ≡ true → b ≡ false
false_of_not true h = sym h
false_of_not false h = refl

pub true_of_not : (b : Bool) → not b ≡ false → b ≡ true
true_of_not true h = refl
true_of_not false h = sym h

module _ {ℓ} {A : Type ℓ} where
  -- The test holds of every entry.
  unfoldable pub all : (A → Bool) → List A → Bool
  all good [] = true
  all good (x ∷ xs) = good x && all good xs
