-- ===== src/Runtime/Varint/Groups.antt =====
-- One round of a reader, in arithmetic.
use native.Mathlib.Nat.{pow-le-pow_right}
use native.Mathlib.Numerals.{towards_suc}
use hasten.Common.{
  ℕ, ◌+◌, ◌*◌, ◌/◌, ◌%◌, ◌^◌, ◌≤◌, ◌<◌, ◌≡◌, refl, ap, ◌∙◌, arith, IsU64, leb, Bool-cases, inl, inr,
}
use hasten.Common.Xor.{div-mod_fields}
use hasten.Common.Bits.{bit_and_mask, bit_or_low_first}
use hasten.Runtime.Varint.{or_group}

pub seven_more : (s : ℕ) → 2 ^ (s + 7) ≡ 128 * 2 ^ s
seven_more s = simp towards_suc (omega arith)

-- What is read so far fits below the shift, and with what is left it makes a 64-bit number.
pub record Fits (acc left shift : ℕ) : Type 0 where
  pub below : acc < 2 ^ shift
  pub total : IsU64 (acc + left * 2 ^ shift)

group_product : (g s : ℕ) → g * 2 ^ s < 2 ^ 64 → g * 2 ^ s % 2 ^ 64 ≡ g * 2 ^ s
group_product g s h = omega arith

pub or_group_value :
    (acc byte s : ℕ)
    → acc < 2 ^ s
    → byte % 128 * 2 ^ s < 2 ^ 64
    → or_group acc byte s ≡ acc + byte % 128 * 2 ^ s
or_group_value acc byte s below fits =
    rw (bit_and_mask 7 byte)
      (rw (group_product (byte % 128) s fits) (bit_or_low_first s (byte % 128) acc below))

-- The last byte is what is left.
pub or_group_last :
    (acc left s : ℕ) → left < 128 → Fits acc left s → or_group acc left s ≡ acc + left * 2 ^ s
or_group_last acc left s h f =
    let same : left % 128 ≡ left = omega arith in
    or_group_value acc left s f.below (rw same (omega arith)) ∙ rw same refl

split_left : (w s : ℕ) → w * 2 ^ s ≡ w % 128 * 2 ^ s + w / 128 * 2 ^ (s + 7)
split_left w s = rw (seven_more s) (parts w (2 ^ s))
  where
    parts : (v p : ℕ) → v * p ≡ v % 128 * p + v / 128 * (128 * p)
    parts v p = omega (arith, ap (λ (t : ℕ). t * p) (div-mod_fields v 128))

-- An inner byte takes seven bits of it, with the top bit set.
pub or_group_inner :
    (acc left s : ℕ)
    → Fits acc left s
    → or_group acc (left % 128 + 128) s ≡ acc + left % 128 * 2 ^ s
or_group_inner acc left s f =
    let same : (left % 128 + 128) % 128 ≡ left % 128 = omega arith in
    or_group_value acc (left % 128 + 128) s f.below (rw same (omega (arith, split_left left s)))
    ∙ rw same refl

pub Fits-next :
    (acc left s : ℕ) → Fits acc left s → Fits (acc + left % 128 * 2 ^ s) (left / 128) (s + 7)
Fits-next acc left s f = record {
  below = rw (seven_more s) (omega (arith, seven_bits (left % 128) (2 ^ s) (omega arith)));
  total = omega (arith, split_left left s);
}
  where
    seven_bits : (g p : ℕ) → g ≤ 127 → g * p ≤ 127 * p
    seven_bits g p h = grind arith

pub total_next :
    (acc left s : ℕ) → acc + left % 128 * 2 ^ s + left / 128 * 2 ^ (s + 7) ≡ acc + left * 2 ^ s
total_next acc left s = omega (arith, split_left left s)

-- A continued number leaves room for another group.
pub room_left : (acc left s : ℕ) → 128 ≤ left → Fits acc left s → s ≤ 56
room_left acc left s h f = elim (Bool-cases (leb s 56)) [
  | inl small ↦ ground arith
  | inr large ↦ absurd (no_room (2 ^ s) (pow-le-pow_right (omega arith) {i = 57} (ground arith)))
]
  where
    no_room : (p : ℕ) → 2 ^ 57 ≤ 2 ^ s → ⊥
    no_room p q = omega (arith, at_least left (2 ^ s) h)
      where
        at_least : (w r : ℕ) → 128 ≤ w → 128 * r ≤ w * r
        at_least w r k = grind arith
