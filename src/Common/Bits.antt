-- ===== src/Common/Bits.antt =====
-- `&` with a mask or a single bit, and `|` of disjoint fields, as arithmetic at every width.
use Prim.Native.Nat.{ℕ, zero, suc, ◌+◌, ◌-◌, ◌*◌, ◌/◌, ◌%◌, ◌^◌, ◌≤◌, ◌<◌}
use Prim.Native.Nat.{bit_and, bit_or}
use mathlib.Core.Path.{◌≡◌, refl, ap, ◌∙◌}
use native.Mathlib.Nat.{pow-suc, one-le-pow}
use native.Mathlib.Omega.{arith}
use hasten.Common.Digits.{bit_and_step, bit_or_step}

-- `n` bounds the number whose digits are halved away.
bit_and-zero_below : (n a : ℕ) → a ≤ n → bit_and a 0 ≡ 0
bit_and-zero_below n zero h = refl
bit_and-zero_below zero (suc a) h = absurd (omega arith)
bit_and-zero_below (suc n) (suc a) h =
    omega (arith, bit_and_step (suc a) 0, bit_and-zero_below n (suc a / 2) (omega arith))

bit_and-zero : (a : ℕ) → bit_and a 0 ≡ 0
bit_and-zero a = bit_and-zero_below a a (omega arith)

bit_or-zero_below : (n a : ℕ) → a ≤ n → bit_or a 0 ≡ a
bit_or-zero_below n zero h = refl
bit_or-zero_below zero (suc a) h = absurd (omega arith)
bit_or-zero_below (suc n) (suc a) h =
    omega (arith, bit_or_step (suc a) 0, bit_or-zero_below n (suc a / 2) (omega arith))

pub bit_or-zero : (a : ℕ) → bit_or a 0 ≡ a
bit_or-zero a = bit_or-zero_below a a (omega arith)

zero-bit_or : (a : ℕ) → bit_or 0 a ≡ a
zero-bit_or zero = refl
zero-bit_or (suc a) = zero_below (suc a) (suc a) (omega arith)
  where
    zero_below : (n c : ℕ) → c ≤ n → bit_or 0 c ≡ c
    zero_below n zero h = refl
    zero_below zero (suc c) h = absurd (omega arith)
    zero_below (suc n) (suc c) h =
        omega (arith, bit_or_step 0 (suc c), zero_below n (suc c / 2) (omega arith))

pub twice_field : (q k : ℕ) → q * 2 ^ suc k ≡ 2 * (q * 2 ^ k)
twice_field q k = omega (arith, ap (λ (t : ℕ). q * t) (pow-suc 2 k))

mod-double : (a m : ℕ) → 0 < m → a % (m * 2) ≡ a / 2 % m * 2 + a % 2
mod-double a m h = grind arith

half_mask : (m : ℕ) → 0 < m → (m * 2 - 1) / 2 ≡ m - 1
half_mask m h = omega arith

-- A mask of `k` low bits takes the remainder.
pub bit_and_mask : (k a : ℕ) → bit_and a (2 ^ k - 1) ≡ a % 2 ^ k
bit_and_mask zero a = omega (arith, bit_and-zero a)
bit_and_mask (suc k) a =
    let pos = one-le-pow k 2 (omega arith) in
    rw (pow-suc 2 k) (
      bit_and_step a (2 ^ k * 2 - 1)
      ∙ rw (half_mask (2 ^ k) pos, bit_and_mask k (a / 2), mod-double a (2 ^ k) pos)
          (omega (arith, pos)))

-- A high field over a low field of `k` bits, in either order, is a sum.
pub bit_or_fields : (k q r : ℕ) → r < 2 ^ k → bit_or (q * 2 ^ k) r ≡ q * 2 ^ k + r
bit_or_fields zero q r h = ground (arith, bit_or-zero q)
bit_or_fields (suc k) q r h = ground (
  arith,
  bit_or_step (q * 2 ^ suc k) r,
  twice_field q k,
  bit_or_fields k q (r / 2) (omega (arith, pow-suc 2 k)),
)

pub bit_or_low_first : (k q r : ℕ) → r < 2 ^ k → bit_or r (q * 2 ^ k) ≡ r + q * 2 ^ k
bit_or_low_first zero q r h = ground (arith, zero-bit_or q)
bit_or_low_first (suc k) q r h = ground (
  arith,
  bit_or_step r (q * 2 ^ suc k),
  twice_field q k,
  bit_or_low_first k q (r / 2) (omega (arith, pow-suc 2 k)),
)

half_double : (d : ℕ) → 2 * d / 2 ≡ d
half_double d = omega arith

bit_or-even : (a c : ℕ) → bit_or a (2 * c) ≡ bit_or (a / 2) c * 2 + a % 2
bit_or-even a c = bit_or_step a (2 * c) ∙ rw (half_double c) (omega arith)

bit_and-even : (a c : ℕ) → bit_and a (2 * c) ≡ bit_and (a / 2) c * 2
bit_and-even a c = bit_and_step a (2 * c) ∙ rw (half_double c) (omega arith)

-- `(uint8_t)(v | 0x80)`: the low seven bits with the top bit set.
pub set_top_bit : (v : ℕ) → bit_or v 0x80 % 256 ≡ v % 128 + 128
set_top_bit v = omega (
  arith,
  bit_or-even v 64,
  bit_or-even (v / 2) 32,
  bit_or-even (v / 2 / 2) 16,
  bit_or-even (v / 2 / 2 / 2) 8,
  bit_or-even (v / 2 / 2 / 2 / 2) 4,
  bit_or-even (v / 2 / 2 / 2 / 2 / 2) 2,
  bit_or-even (v / 2 / 2 / 2 / 2 / 2 / 2) 1,
  bit_or_step (v / 2 / 2 / 2 / 2 / 2 / 2 / 2) 1,
  bit_or-zero (v / 2 / 2 / 2 / 2 / 2 / 2 / 2 / 2),
)

-- `b & 0x80` on a byte.
pub top_bit : (b : ℕ) → b < 256 → bit_and b 0x80 ≡ b / 128 * 128
top_bit b h = omega (
  arith,
  bit_and-even b 64,
  bit_and-even (b / 2) 32,
  bit_and-even (b / 2 / 2) 16,
  bit_and-even (b / 2 / 2 / 2) 8,
  bit_and-even (b / 2 / 2 / 2 / 2) 4,
  bit_and-even (b / 2 / 2 / 2 / 2 / 2) 2,
  bit_and-even (b / 2 / 2 / 2 / 2 / 2 / 2) 1,
  bit_and_step (b / 2 / 2 / 2 / 2 / 2 / 2 / 2) 1,
  bit_and-zero (b / 2 / 2 / 2 / 2 / 2 / 2 / 2 / 2),
)
