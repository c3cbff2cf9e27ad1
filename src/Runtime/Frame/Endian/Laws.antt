-- ===== src/Runtime/Frame/Endian/Laws.antt =====
-- Reading inverts writing, and writing inverts reading.
use hasten.Common.{
  ℕ, ◌+◌, ◌*◌, ◌/◌, ◌%◌, ◌^◌, ◌<◌, bit_and, bit_or, List, [], ◌∷◌, ◌++◌, All, ◌≡◌, refl, arith,
  IsByte, IsU16, IsU32, IsU64,
}
use hasten.Common.Bits.{bit_and_mask, bit_or_fields}
use hasten.Runtime.Frame.Endian.{
  byte_at, write_be16, write_be32, write_be64, read_be16, read_be32, read_be64,
}

-- The number that big-endian bytes stand for, below `acc`.
abbrev pub number : ℕ → List ℕ → ℕ
number acc [] = acc
number acc (b ∷ bs) = number (acc * 256 + b) bs

byte_at_lem : (v s : ℕ) → byte_at v s ≡ v / 2 ^ s % 256
byte_at_lem v s = bit_and_mask 8 (v / 2 ^ s)

low_byte : (v : ℕ) → bit_and v 0xFF ≡ v % 256
low_byte v = bit_and_mask 8 v

join : (acc b : ℕ) → IsByte b → bit_or (acc * 2 ^ 8) b ≡ acc * 256 + b
join acc b h = bit_or_fields 8 acc b h

shift_in : (v b : ℕ) → v < 2 ^ 56 → IsByte b → bit_or (v * 2 ^ 8 % 2 ^ 64) b ≡ v * 256 + b
shift_in v b p q = rw (in_range v p) (join v b q)
  where
    in_range : (w : ℕ) → w < 2 ^ 56 → w * 2 ^ 8 % 2 ^ 64 ≡ w * 2 ^ 8
    in_range w h = omega arith

read_be16-number :
    (a b : ℕ) (rest : List ℕ)
    → IsByte a × IsByte b
    → read_be16 (a ∷ b ∷ rest) ≡ number 0 (a ∷ b ∷ [])
unfolding read_be16
read_be16-number a b rest h = omega (arith, join a b h.1)

read_be32-number :
    (a b c d : ℕ) (rest : List ℕ)
    → IsByte a × IsByte b × IsByte c × IsByte d
    → read_be32 (a ∷ b ∷ c ∷ d ∷ rest) ≡ number 0 (a ∷ b ∷ c ∷ d ∷ [])
unfolding read_be32
read_be32-number a b c d rest h = ground (
  arith,
  bit_or_fields 24 a (b * 2 ^ 16),
  bit_or_fields 16 (a * 256 + b) (c * 2 ^ 8),
  bit_or_fields 8 ((a * 256 + b) * 256 + c) d,
)

read_be64-number :
    (a b c d e f g h : ℕ) (rest : List ℕ)
    → All IsByte (a ∷ b ∷ c ∷ d ∷ e ∷ f ∷ g ∷ h ∷ [])
    → read_be64 (a ∷ b ∷ c ∷ d ∷ e ∷ f ∷ g ∷ h ∷ rest)
      ≡ number 0 (a ∷ b ∷ c ∷ d ∷ e ∷ f ∷ g ∷ h ∷ [])
unfolding read_be64
read_be64-number a b c d e f g h rest p =
    rw
      (
        shift_in 0 a (omega arith) p.0,
        shift_in (0 * 256 + a) b (omega arith) p.1.0,
        shift_in ((0 * 256 + a) * 256 + b) c (omega arith) p.1.1.0,
        shift_in (((0 * 256 + a) * 256 + b) * 256 + c) d (omega arith) p.1.1.1.0,
        shift_in ((((0 * 256 + a) * 256 + b) * 256 + c) * 256 + d) e (omega arith) p.1.1.1.1.0,
        shift_in (((((0 * 256 + a) * 256 + b) * 256 + c) * 256 + d) * 256 + e) f (omega arith)
            p.1.1.1.1.1.0,
        shift_in ((((((0 * 256 + a) * 256 + b) * 256 + c) * 256 + d) * 256 + e) * 256 + f) g
            (omega arith) p.1.1.1.1.1.1.0,
        shift_in
            (((((((0 * 256 + a) * 256 + b) * 256 + c) * 256 + d) * 256 + e) * 256 + f) * 256 + g) h
            (omega arith) p.1.1.1.1.1.1.1.0,
      )
      refl

pub be16_round_trip : (v : ℕ) (rest : List ℕ) → IsU16 v → read_be16 (write_be16 v ++ rest) ≡ v
unfolding write_be16
be16_round_trip v rest h =
    omega (arith, read_be16-number (byte_at v 8) (bit_and v 0xFF) rest, byte_at_lem v 8, low_byte v)

pub be32_round_trip : (v : ℕ) (rest : List ℕ) → IsU32 v → read_be32 (write_be32 v ++ rest) ≡ v
unfolding write_be32
be32_round_trip v rest h = omega (
  arith,
  read_be32-number (byte_at v 24) (byte_at v 16) (byte_at v 8) (bit_and v 0xFF) rest,
  byte_at_lem v 24,
  byte_at_lem v 16,
  byte_at_lem v 8,
  low_byte v,
)

pub write_be16-read :
    (a b : ℕ) (rest : List ℕ)
    → IsByte a × IsByte b
    → write_be16 (read_be16 (a ∷ b ∷ rest)) ≡ a ∷ b ∷ []
unfolding write_be16
write_be16-read a b rest h =
    let v = read_be16 (a ∷ b ∷ rest) in
    ground (arith, read_be16-number a b rest h, byte_at_lem v 8, low_byte v)

pub write_be32-read :
    (a b c d : ℕ) (rest : List ℕ)
    → IsByte a × IsByte b × IsByte c × IsByte d
    → write_be32 (read_be32 (a ∷ b ∷ c ∷ d ∷ rest)) ≡ a ∷ b ∷ c ∷ d ∷ []
unfolding write_be32
write_be32-read a b c d rest h =
    let v = read_be32 (a ∷ b ∷ c ∷ d ∷ rest) in
    ground (
      arith,
      read_be32-number a b c d rest h,
      byte_at_lem v 24,
      byte_at_lem v 16,
      byte_at_lem v 8,
      low_byte v,
    )

pub be64_round_trip : (v : ℕ) (rest : List ℕ) → IsU64 v → read_be64 (write_be64 v ++ rest) ≡ v
unfolding write_be64
be64_round_trip v rest h = omega (
  arith,
  read_be64-number (byte_at v 56) (byte_at v 48) (byte_at v 40) (byte_at v 32) (byte_at v 24)
      (byte_at v 16) (byte_at v 8) (byte_at v 0) rest,
  byte_at_lem v 56,
  byte_at_lem v 48,
  byte_at_lem v 40,
  byte_at_lem v 32,
  byte_at_lem v 24,
  byte_at_lem v 16,
  byte_at_lem v 8,
  byte_at_lem v 0,
)

pub write_be64-read :
    (a b c d e f g h : ℕ) (rest : List ℕ)
    → All IsByte (a ∷ b ∷ c ∷ d ∷ e ∷ f ∷ g ∷ h ∷ [])
    → write_be64 (read_be64 (a ∷ b ∷ c ∷ d ∷ e ∷ f ∷ g ∷ h ∷ rest))
      ≡ a ∷ b ∷ c ∷ d ∷ e ∷ f ∷ g ∷ h ∷ []
unfolding write_be64
write_be64-read a b c d e f g h rest p =
    let v = read_be64 (a ∷ b ∷ c ∷ d ∷ e ∷ f ∷ g ∷ h ∷ rest) in
    ground (
      arith,
      read_be64-number a b c d e f g h rest p,
      byte_at_lem v 56,
      byte_at_lem v 48,
      byte_at_lem v 40,
      byte_at_lem v 32,
      byte_at_lem v 24,
      byte_at_lem v 16,
      byte_at_lem v 8,
      byte_at_lem v 0,
    )
