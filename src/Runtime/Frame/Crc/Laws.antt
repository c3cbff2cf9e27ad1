-- ===== src/Runtime/Frame/Crc/Laws.antt =====
-- The checksum of frame.cpp tells apart two inputs that differ in one byte.
use native.Mathlib.Nat.{mod-lt}
use hasten.Common.{
  ℕ, zero, suc, ◌+◌, ◌*◌, ◌/◌, ◌%◌, ◌^◌, ◌<◌, bit_and, bit_xor, ◌≡◌, refl, sym, ap, ◌∙◌, List, [],
  ◌∷◌, ◌++◌, arith, ◌==◌, if◌then◌else◌, get_or, All, IsByte, IsU32, true, ltb,
}
use hasten.Common.Bits.{bit_and_mask}
use hasten.Common.Range.{holds_below, holds_below-test, holds_below-eq}
use hasten.Common.Xor.{xor-injective_left, xor-injective_right, xor-lt, xor_low_field}
use hasten.Runtime.Frame.Crc.{
  crc32_for_byte, crc_table_from, make_crc_table, crc_step, crc32_from, crc32,
}

crc_table_from-entry :
    (k n i : ℕ) → i < k → get_or (crc_table_from k n) i 0 ≡ crc32_for_byte (n + i)
unfolding crc_table_from
crc_table_from-entry zero n i h = absurd (omega arith)
crc_table_from-entry (suc k) n zero h = ap crc32_for_byte (omega arith)
crc_table_from-entry (suc k) n (suc i) h =
    crc_table_from-entry k (n + 1) i (omega arith) ∙ ap crc32_for_byte (omega arith)

table_entry : (i : ℕ) → i < 256 → get_or make_crc_table i 0 ≡ crc32_for_byte i
unfolding make_crc_table
table_entry i h = crc_table_from-entry 256 0 i h ∙ ap crc32_for_byte (omega arith)

-- One round backwards: its result has the top bit set exactly where the register was odd.
unround : ℕ → ℕ
unround r = if ltb r (2 ^ 31) then r * 2 else bit_xor r 0xEDB88320 * 2 + 1

unrounds : ℕ → ℕ → ℕ
unfolding unround
unrounds zero r = r
unrounds (suc k) r = unrounds k (unround r)

-- The index of an entry is computed from the entry's top byte.
index_of_top : ℕ → ℕ
unfolding unrounds
index_of_top t = unrounds 8 (bit_xor t 0xFF * 2 ^ 24) % 256

entry_table : holds_below (λ i. index_of_top (crc32_for_byte i / 2 ^ 24) == i) 256 ≡ true
unfolding holds_below index_of_top crc32_for_byte
entry_table = refl

entry_widths : holds_below (λ i. ltb (crc32_for_byte i) (2 ^ 32)) 256 ≡ true
unfolding holds_below crc32_for_byte
entry_widths = refl

entry-lt : (i : ℕ) → i < 256 → crc32_for_byte i < 2 ^ 32
entry-lt i h = ground (arith, holds_below-test _ 256 i entry_widths h)

-- Two entries with the same top byte are one entry.
entry_top-injective :
    (i j : ℕ) → i < 256 → j < 256 → crc32_for_byte i / 2 ^ 24 ≡ crc32_for_byte j / 2 ^ 24 → i ≡ j
entry_top-injective i j p q e =
    sym (holds_below-eq _ (λ k. k) 256 i entry_table p)
    ∙ ap index_of_top e
    ∙ holds_below-eq _ (λ k. k) 256 j entry_table q

-- The table index of a step.
abbrev index : ℕ → ℕ → ℕ
index crc byte = bit_and (bit_xor crc byte) 0xFF

index-lt : (crc byte : ℕ) → index crc byte < 256
index-lt crc byte = rw (bit_and_mask 8 (bit_xor crc byte)) (mod-lt _ (omega arith))

index_lem : (crc byte : ℕ) → IsByte byte → index crc byte ≡ bit_xor (crc % 256) byte
index_lem crc byte h =
    bit_and_mask 8 (bit_xor crc byte)
    ∙ omega (arith, xor_low_field 8 crc byte h, xor-lt 8 (crc % 256) byte (omega arith) h)

step_entry :
    (crc byte : ℕ) → crc_step crc byte ≡ bit_xor (crc32_for_byte (index crc byte)) (crc / 2 ^ 8)
unfolding crc_step
step_entry crc byte =
    ap (λ (t : ℕ). bit_xor t (crc / 2 ^ 8)) (table_entry (index crc byte) (index-lt crc byte))

pub crc_step-IsU32 : (crc byte : ℕ) → IsU32 crc → IsU32 (crc_step crc byte)
crc_step-IsU32 crc byte h = rw (step_entry crc byte) (
    xor-lt 32 (crc32_for_byte (index crc byte)) (crc / 2 ^ 8) (entry-lt _ (index-lt crc byte))
      (omega arith))

-- Equal registers after a step come from equal table indices.
step_index :
    (c c' b b' : ℕ) → IsU32 c → IsU32 c' → crc_step c b ≡ crc_step c' b' → index c b ≡ index c' b'
step_index c c' b b' h h' e =
    entry_top-injective (index c b) (index c' b') (index-lt c b) (index-lt c' b') (
      omega (
        arith,
        step_entry c b,
        step_entry c' b',
        e,
        xor_low_field 24 (crc32_for_byte (index c b)) (c / 2 ^ 8) (omega arith),
        xor_low_field 24 (crc32_for_byte (index c' b')) (c' / 2 ^ 8) (omega arith),
        xor-lt 24 (crc32_for_byte (index c b) % 2 ^ 24) (c / 2 ^ 8) (omega arith) (omega arith),
        xor-lt 24 (crc32_for_byte (index c' b') % 2 ^ 24) (c' / 2 ^ 8) (omega arith) (omega arith),
      ))

-- On one register two bytes with the same result are one byte.
pub step-injective_byte :
    (c b b' : ℕ) → IsU32 c → IsByte b → IsByte b' → crc_step c b ≡ crc_step c b' → b ≡ b'
step-injective_byte c b b' h p p' e =
    xor-injective_right (c % 256) b b'
      (sym (index_lem c b p) ∙ step_index c c b b' h h e ∙ index_lem c b' p')

-- On one byte two registers with the same result are one register.
pub step-injective_register :
    (c c' b : ℕ) → IsU32 c → IsU32 c' → IsByte b → crc_step c b ≡ crc_step c' b → c ≡ c'
step-injective_register c c' b h h' p e =
    let same = step_index c c' b b h h' e in
    let low =
      xor-injective_left (c % 256) (c' % 256) b (sym (index_lem c b p) ∙ same ∙ index_lem c' b p) in
    let high =
      xor-injective_right (crc32_for_byte (index c b)) (c / 2 ^ 8) (c' / 2 ^ 8)
        (sym (step_entry c b) ∙ e ∙ step_entry c' b ∙ rw same refl) in
    omega (arith, low, high)

crc32_from-injective :
    (c c' : ℕ) (rest : List ℕ)
    → IsU32 c
    → IsU32 c'
    → All IsByte rest
    → crc32_from c rest ≡ crc32_from c' rest
    → c ≡ c'
unfolding crc32_from
crc32_from-injective c c' [] h h' p e = e
crc32_from-injective c c' (b ∷ rest) h h' p e = step-injective_register c c' b h h' p.0 (
    crc32_from-injective (crc_step c b) (crc_step c' b) rest (crc_step-IsU32 c b h)
      (crc_step-IsU32 c' b h') p.1 e)

crc32_from-byte :
    (c b b' : ℕ) (front back : List ℕ)
    → IsU32 c
    → IsByte b
    → IsByte b'
    → All IsByte back
    → crc32_from c (front ++ (b ∷ back)) ≡ crc32_from c (front ++ (b' ∷ back))
    → b ≡ b'
unfolding crc32_from
crc32_from-byte c b b' [] back h p p' q e = step-injective_byte c b b' h p p' (
    crc32_from-injective (crc_step c b) (crc_step c b') back (crc_step-IsU32 c b h)
      (crc_step-IsU32 c b' h) q e)
crc32_from-byte c b b' (a ∷ front) back h p p' q e =
    crc32_from-byte (crc_step c a) b b' front back (crc_step-IsU32 c a h) p p' q e

crc32_from-IsU32 : (c : ℕ) (bytes : List ℕ) → IsU32 c → IsU32 (crc32_from c bytes)
unfolding crc32_from
crc32_from-IsU32 c [] h = h
crc32_from-IsU32 c (b ∷ bytes) h = crc32_from-IsU32 (crc_step c b) bytes (crc_step-IsU32 c b h)

pub crc32-IsU32 : (bytes : List ℕ) → IsU32 (crc32 bytes)
unfolding crc32
crc32-IsU32 bytes = crc32_from-IsU32 0 bytes (omega arith)

-- Two inputs of bytes that differ at most in one place, and have the same checksum, are the same.
pub crc32-injective_byte :
    (front back : List ℕ) (b b' : ℕ)
    → IsByte b
    → IsByte b'
    → All IsByte back
    → crc32 (front ++ (b ∷ back)) ≡ crc32 (front ++ (b' ∷ back))
    → b ≡ b'
unfolding crc32
crc32-injective_byte front back b b' p p' q e =
    crc32_from-byte 0 b b' front back (omega arith) p p' q e
