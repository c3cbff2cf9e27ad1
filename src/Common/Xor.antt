-- ===== src/Common/Xor.antt =====
-- Laws of `^` on natural numbers, from its lowest digit.
use Prim.Native.Nat.{ℕ, zero, suc, ◌+◌, ◌-◌, ◌*◌, ◌/◌, ◌%◌, ◌^◌, ◌≤◌, ◌<◌, bit_xor}
use mathlib.Core.Path.{◌≡◌, refl, sym, ap, ap₂, ◌∙◌}
use native.Mathlib.Nat.{pow-suc, one-le-pow, mod-lt}
use native.Mathlib.Omega.{arith}
use hasten.Common.Digits.{bit_xor_step}
use hasten.Common.Bits.{twice_field}

bit_xor-half : (a b : ℕ) → bit_xor a b / 2 ≡ bit_xor (a / 2) (b / 2)
bit_xor-half a b = omega (arith, bit_xor_step a b)

cancel_below : (n a b : ℕ) → a ≤ n → b ≤ n → bit_xor (bit_xor a b) b ≡ a
cancel_below zero zero zero p q = refl
cancel_below zero zero (suc b) p q = absurd (omega arith)
cancel_below zero (suc a) b p q = absurd (omega arith)
cancel_below (suc n) a b p q =
    let ih = cancel_below n (a / 2) (b / 2) (omega arith) (omega arith) in
    bit_xor_step (bit_xor a b) b ∙ rw (bit_xor-half a b, ih) (omega (arith, bit_xor_step a b))

-- What `^` mixes in, a second `^` takes out.
pub xor_cancel : (a b : ℕ) → bit_xor (bit_xor a b) b ≡ a
xor_cancel a b = cancel_below (a + b) a b (omega arith) (omega arith)

pub xor-injective_left : (a c b : ℕ) → bit_xor a b ≡ bit_xor c b → a ≡ c
xor-injective_left a c b e = sym (xor_cancel a b) ∙ ap (λ (t : ℕ). bit_xor t b) e ∙ xor_cancel c b

comm_below : (n a b : ℕ) → a ≤ n → b ≤ n → bit_xor a b ≡ bit_xor b a
comm_below zero zero zero p q = refl
comm_below zero zero (suc b) p q = absurd (omega arith)
comm_below zero (suc a) b p q = absurd (omega arith)
comm_below (suc n) a b p q = omega (
  arith,
  bit_xor_step a b,
  bit_xor_step b a,
  comm_below n (a / 2) (b / 2) (omega arith) (omega arith),
)

pub xor_comm : (a b : ℕ) → bit_xor a b ≡ bit_xor b a
xor_comm a b = comm_below (a + b) a b (omega arith) (omega arith)

pub xor-injective_right : (a b c : ℕ) → bit_xor a b ≡ bit_xor a c → b ≡ c
xor-injective_right a b c e = xor-injective_left b c a (xor_comm b a ∙ e ∙ xor_comm a c)

pub xor-lt : (k a b : ℕ) → a < 2 ^ k → b < 2 ^ k → bit_xor a b < 2 ^ k
xor-lt zero zero zero p q = omega arith
xor-lt zero zero (suc b) p q = absurd (omega arith)
xor-lt zero (suc a) b p q = absurd (omega arith)
xor-lt (suc k) a b p q =
    let double = pow-suc 2 k in
    omega (arith, bit_xor_step a b, xor-lt k (a / 2) (b / 2) (omega arith) (omega arith))

-- `^` acts on a high field and on a low field of `k` bits apart.
pub xor_fields :
    (k q r s t : ℕ)
    → r < 2 ^ k
    → t < 2 ^ k
    → bit_xor (q * 2 ^ k + r) (s * 2 ^ k + t) ≡ bit_xor q s * 2 ^ k + bit_xor r t
xor_fields zero q zero s zero p q' = ground arith
xor_fields zero q zero s (suc t) p q' = absurd (omega arith)
xor_fields zero q (suc r) s t p q' = absurd (omega arith)
xor_fields (suc k) q r s t p q' =
    let double = pow-suc 2 k in
    ground (
      arith,
      twice_field q k,
      twice_field s k,
      twice_field (bit_xor q s) k,
      bit_xor_step (q * 2 ^ suc k + r) (s * 2 ^ suc k + t),
      bit_xor_step r t,
      xor_fields k q (r / 2) s (t / 2) (omega arith) (omega arith),
    )

zero_below : (n a : ℕ) → a ≤ n → bit_xor a 0 ≡ a
zero_below n zero h = refl
zero_below zero (suc a) h = absurd (omega arith)
zero_below (suc n) (suc a) h =
    omega (arith, bit_xor_step (suc a) 0, zero_below n (suc a / 2) (omega arith))

pub xor-zero : (a : ℕ) → bit_xor a 0 ≡ a
xor-zero a = zero_below a a (omega arith)

-- `^` with all ones is the complement.
pub xor_ones : (k a : ℕ) → a < 2 ^ k → bit_xor a (2 ^ k - 1) ≡ 2 ^ k - 1 - a
xor_ones zero zero h = refl
xor_ones zero (suc a) h = absurd (omega arith)
xor_ones (suc k) a h =
    let double = pow-suc 2 k in
    let pos = one-le-pow k 2 (omega arith) in
    ground (arith, bit_xor_step a (2 ^ suc k - 1), xor_ones k (a / 2) (omega arith))

mod-two-pow-lt : (k a : ℕ) → a % 2 ^ k < 2 ^ k
mod-two-pow-lt k a = mod-lt a (one-le-pow k 2 (omega arith))

pub div-mod_fields : (m n : ℕ) → m / n * n + m % n ≡ m
div-mod_fields m n = grind arith

zero_field : (k t : ℕ) → 0 * 2 ^ k + t ≡ t
zero_field k t = omega arith

-- A number of `k` bits changes the low field alone.
pub xor_low_field :
    (k a t : ℕ) → t < 2 ^ k → bit_xor a t ≡ a / 2 ^ k * 2 ^ k + bit_xor (a % 2 ^ k) t
xor_low_field k a t h =
    ap₂ bit_xor (sym (div-mod_fields a (2 ^ k))) (sym (zero_field k t))
    ∙ xor_fields k (a / 2 ^ k) (a % 2 ^ k) 0 t (mod-two-pow-lt k a) h
    ∙ ap (λ (q : ℕ). q * 2 ^ k + bit_xor (a % 2 ^ k) t) (xor-zero (a / 2 ^ k))
