-- ===== src/Common/Digits.antt =====
-- One equation for the lowest binary digit of each bit operation.
use Prim.Native.Nat.{ℕ, zero, suc, ◌+◌, ◌*◌, ◌/◌, ◌%◌, ◌≤◌, ◌<◌, min, max, differ}
use Prim.Native.Nat.{bit_and, bit_or, bit_xor, digits, bitwise}
use Prim.Native.Nat.{bit_and-bitwise, bit_or-bitwise, bit_xor-bitwise}
use mathlib.Core.Path.{◌≡◌, refl, ap}
use native.Mathlib.Omega.{arith}

module _ (rest : ℕ → ℕ) (op : ℕ → ℕ → ℕ) where
  -- Any two counts that cover the first number give the same result.
  count_irrelevant : (a m n b : ℕ) → a ≤ m → a ≤ n → digits rest op m a b ≡ digits rest op n a b
  count_irrelevant a zero n b p q = covers_none a n p
    where
      covers_none : (c k : ℕ) → c ≤ 0 → digits rest op 0 c b ≡ digits rest op k c b
      covers_none zero zero h = refl
      covers_none zero (suc k) h = refl
      covers_none (suc c) k h = absurd (omega arith)
  count_irrelevant zero (suc m) zero b p q = refl
  count_irrelevant zero (suc m) (suc n) b p q = refl
  count_irrelevant (suc a) (suc m) zero b p q = absurd (omega arith)
  count_irrelevant (suc a) (suc m) (suc n) b p q =
      ap (λ (t : ℕ). t * 2 + op (suc a % 2) (b % 2))
        (count_irrelevant (suc a / 2) m n (b / 2) (omega arith) (omega arith))

  lowest_digit :
      (a b : ℕ)
      → bitwise rest op (suc a) b ≡ bitwise rest op (suc a / 2) (b / 2) * 2 + op (suc a % 2) (b % 2)
  lowest_digit a b =
      ap (λ (t : ℕ). t * 2 + op (suc a % 2) (b % 2))
        (count_irrelevant (suc a / 2) a (suc a / 2) (b / 2) (omega arith) (omega arith))

pub bit_or_step : (x y : ℕ) → bit_or x y ≡ bit_or (x / 2) (y / 2) * 2 + max (x % 2) (y % 2)
bit_or_step zero y = simp bit_or-bitwise (omega arith)
bit_or_step (suc x) y = simp bit_or-bitwise (lowest_digit (λ c. c) max x y)

differ-mod : (x y : ℕ) → x < 2 → y < 2 → differ x y ≡ (x + y) % 2
differ-mod zero y p q = omega arith
differ-mod (suc zero) zero p q = refl
differ-mod (suc zero) (suc zero) p q = refl
differ-mod (suc zero) (suc (suc y)) p q = absurd (omega arith)
differ-mod (suc (suc x)) y p q = absurd (omega arith)

raw_xor_step : (a b : ℕ) → bit_xor a b ≡ bit_xor (a / 2) (b / 2) * 2 + differ (a % 2) (b % 2)
raw_xor_step zero b = simp bit_xor-bitwise (omega arith)
raw_xor_step (suc a) b = simp bit_xor-bitwise (lowest_digit (λ c. c) differ a b)

pub bit_xor_step : (a b : ℕ) → bit_xor a b ≡ bit_xor (a / 2) (b / 2) * 2 + (a + b) % 2
bit_xor_step a b =
    omega (arith, raw_xor_step a b, differ-mod (a % 2) (b % 2) (omega arith) (omega arith))

pub bit_and_step : (m n : ℕ) → bit_and m n ≡ bit_and (m / 2) (n / 2) * 2 + min (m % 2) (n % 2)
bit_and_step zero n = simp bit_and-bitwise (omega arith)
bit_and_step (suc m) n = simp bit_and-bitwise (lowest_digit (λ _. 0) min m n)
