-- ===== src/Runtime/Frame/Endian.antt =====
-- Big-endian integers, as src/runtime/frame.cpp writes and reads them. `read_*` takes the bytes
-- from the address on; an address past the buffer's end never occurs, and reads as 0.
pub mod Laws
use hasten.Common.{
  ℕ, zero, suc, ◌+◌, ◌-◌, ◌*◌, ◌/◌, ◌%◌, ◌^◌, bit_and, bit_or, List, [], ◌∷◌, get_or,
}

-- `(value >> shift) & 0xFF`
abbrev pub byte_at : ℕ → ℕ → ℕ
byte_at value shift = bit_and (value / 2 ^ shift) 0xFF

unfoldable pub write_be16 : ℕ → List ℕ
write_be16 value = byte_at value 8 ∷ bit_and value 0xFF ∷ []

unfoldable pub write_be32 : ℕ → List ℕ
write_be32 value = byte_at value 24 ∷ byte_at value 16 ∷ byte_at value 8 ∷ bit_and value 0xFF ∷ []

write_be64_from : ℕ → ℕ → ℕ → List ℕ
write_be64_from zero i value = []
write_be64_from (suc k) i value = byte_at value (56 - i * 8) ∷ write_be64_from k (i + 1) value

unfoldable pub write_be64 : ℕ → List ℕ
unfolding write_be64_from
write_be64 value = write_be64_from 8 0 value

-- `src[i]`
abbrev at : List ℕ → ℕ → ℕ
at src i = get_or src i 0

unfoldable pub read_be16 : List ℕ → ℕ
read_be16 src = bit_or (at src 0 * 2 ^ 8) (at src 1) % 2 ^ 16

unfoldable pub read_be32 : List ℕ → ℕ
read_be32 src =
    bit_or
      (bit_or (bit_or (at src 0 * 2 ^ 24 % 2 ^ 32) (at src 1 * 2 ^ 16 % 2 ^ 32))
        (at src 2 * 2 ^ 8 % 2 ^ 32))
      (at src 3)

read_be64_from : ℕ → ℕ → ℕ → List ℕ → ℕ
read_be64_from zero i value src = value
read_be64_from (suc k) i value src =
    read_be64_from k (i + 1) (bit_or (value * 2 ^ 8 % 2 ^ 64) (at src i)) src

unfoldable pub read_be64 : List ℕ → ℕ
unfolding read_be64_from
read_be64 src = read_be64_from 8 0 0 src
