-- ===== src/Runtime/Hb1/Reader/Varints.antt =====
-- The three readers of hb1.cpp on what its writer writes for a 64-bit number.
use hasten.Common.{
  ℕ, zero, suc, ◌+◌, ◌*◌, ◌%◌, ◌^◌, ◌≤◌, ◌<◌, bit_and, ◌≡◌, refl, ◌∙◌, List, [], ◌∷◌, ◌++◌,
  append_assoc, true, false, ◌==◌, if◌then◌else◌, length, arith, IsU64,
}
use hasten.Common.Bits.{top_bit}
use hasten.Runtime.Result.{ok, ◌>>=◌}
use hasten.Runtime.Varint.{or_group, encode_varint}
use hasten.Runtime.Varint.Groups.{
  Fits, or_group_last, or_group_inner, Fits-next, total_next, room_left,
}
use hasten.Runtime.Varint.Encoding.{Encodes, last, more, encode_varint-Encodes}
use hasten.Runtime.Payload.Laws.{source_at, read_there, empty-source_at}
use hasten.Runtime.Hb1.Reader.{
  read_varint_from, read_varint, raw_varint_from, decode_varint_from, decode_varint,
  max_varint_bytes,
}

-- A byte ends a number exactly if it is below 128.
pub ends : (b : ℕ) → b < 128 → (bit_and b 0x80 == 0) ≡ true
ends b h = ground (arith, top_bit b)

pub goes_on : (b : ℕ) → b < 128 → (bit_and (b + 128) 0x80 == 0) ≡ false
goes_on b h = ground (arith, top_bit (b + 128))

read_round :
    (k acc s : ℕ) (front : List ℕ) (b : ℕ) (rest : List ℕ)
    → length (front ++ (b ∷ rest)) < 2 ^ 64
    → read_varint_from (suc k) acc s (source_at front (b ∷ rest)) ≡ (
        if bit_and b 0x80 == 0
        then ok (or_group acc b s, source_at (front ++ (b ∷ [])) rest)
        else read_varint_from k (or_group acc b s) (s + 7) (source_at (front ++ (b ∷ [])) rest))
unfolding read_varint_from
read_round k acc s front b rest h =
    rw (empty-source_at front b rest, read_there front (b ∷ []) rest h) refl

read_varint_from-Encodes :
    {w : ℕ} {bytes : List ℕ} (e : Encodes w bytes) (k acc s : ℕ) (front rest : List ℕ)
    → 7 * k + s ≡ 70
    → s ≤ 63
    → Fits acc w s
    → length (front ++ (bytes ++ rest)) < 2 ^ 64
    → read_varint_from k acc s (source_at front (bytes ++ rest))
      ≡ ok (acc + w * 2 ^ s, source_at (front ++ bytes) rest)
read_varint_from-Encodes (last {v = w} h) zero acc s front rest hk hs f fits = absurd (omega arith)
read_varint_from-Encodes (last {v = w} h) (suc k) acc s front rest hk hs f fits =
    read_round k acc s front w rest fits ∙ rw (ends w h, or_group_last acc w s h f) refl
read_varint_from-Encodes (more {v = w} {bytes = bytes} h e) zero acc s front rest hk hs f fits =
    absurd (omega arith)
read_varint_from-Encodes (more {v = w} {bytes = bytes} h e) (suc k) acc s front rest hk hs f fits =
    let b = w % 128 + 128 in
    let ih =
      read_varint_from-Encodes e k (acc + w % 128 * 2 ^ s) (s + 7) (front ++ (b ∷ [])) rest
        (omega arith) (omega (arith, room_left acc w s h f)) (Fits-next acc w s f)
        (rw (append_assoc front (b ∷ []) (bytes ++ rest)) fits) in
    read_round k acc s front b (bytes ++ rest) fits
    ∙ rw (goes_on (w % 128) (omega arith), or_group_inner acc w s f)
        (cc (ih, total_next acc w s, append_assoc front (b ∷ []) bytes))

abbrev start_Fits : (v : ℕ) → IsU64 v → Fits 0 v 0
start_Fits v h = record { below = omega arith; total = omega arith }

from_start : (v : ℕ) → 0 + v * 2 ^ 0 ≡ v
from_start v = omega arith

-- Reading from where a 64-bit number was written gives the number, and leaves what follows it.
pub read_varint-encode_varint :
    (v : ℕ) (front rest : List ℕ)
    → IsU64 v
    → length (front ++ (encode_varint v ++ rest)) < 2 ^ 64
    → read_varint (source_at front (encode_varint v ++ rest))
      ≡ ok (v, source_at (front ++ encode_varint v) rest)
unfolding read_varint
read_varint-encode_varint v front rest h fits =
    read_varint_from-Encodes (encode_varint-Encodes v) 10 0 0 front rest (omega arith) (omega arith)
      (start_Fits v h) fits
    ∙ rw (from_start v) refl

raw_round :
    (k : ℕ) (front : List ℕ) (b : ℕ) (rest : List ℕ)
    → length (front ++ (b ∷ rest)) < 2 ^ 64
    → raw_varint_from (suc k) (source_at front (b ∷ rest)) ≡ (
        if bit_and b 0x80 == 0
        then ok (b ∷ [], source_at (front ++ (b ∷ [])) rest)
        else (raw_varint_from k (source_at (front ++ (b ∷ [])) rest) >>= λ p. ok (b ∷ p.0, p.1)))
unfolding raw_varint_from
raw_round k front b rest h = rw (read_there front (b ∷ []) rest h) refl

raw_varint_from-Encodes :
    {w : ℕ} {bytes : List ℕ} (e : Encodes w bytes) (k : ℕ) (front rest : List ℕ)
    → length bytes ≤ k
    → length (front ++ (bytes ++ rest)) < 2 ^ 64
    → raw_varint_from k (source_at front (bytes ++ rest))
      ≡ ok (bytes, source_at (front ++ bytes) rest)
raw_varint_from-Encodes (last h) zero front rest n fits = absurd (omega arith)
raw_varint_from-Encodes (last {v = w} h) (suc k) front rest n fits =
    raw_round k front w rest fits ∙ rw (ends w h) refl
raw_varint_from-Encodes (more h e) zero front rest n fits = absurd (omega arith)
raw_varint_from-Encodes (more {v = w} {bytes = bytes} h e) (suc k) front rest n fits =
    let b = w % 128 + 128 in
    let ih =
      raw_varint_from-Encodes e k (front ++ (b ∷ [])) rest (omega arith)
        (rw (append_assoc front (b ∷ []) (bytes ++ rest)) fits) in
    raw_round k front b (bytes ++ rest) fits
    ∙ rw (goes_on (w % 128) (omega arith), ih, append_assoc front (b ∷ []) bytes) refl

-- A 64-bit number takes ten bytes at most.
Encodes-length :
    {w : ℕ} {bytes : List ℕ} (e : Encodes w bytes) (k acc s : ℕ)
    → 7 * k + s ≡ 70
    → s ≤ 63
    → Fits acc w s
    → length bytes ≤ k
Encodes-length (last h) k acc s hk hs f = omega arith
Encodes-length (more {v = w} h e) zero acc s hk hs f = absurd (omega arith)
Encodes-length (more {v = w} h e) (suc k) acc s hk hs f = omega (
  arith,
  Encodes-length e k (acc + w % 128 * 2 ^ s) (s + 7) (omega arith)
      (omega (arith, room_left acc w s h f)) (Fits-next acc w s f),
)

pub length-encode_varint : (v : ℕ) → IsU64 v → length (encode_varint v) ≤ 10
length-encode_varint v h =
    Encodes-length (encode_varint-Encodes v) 10 0 0 (omega arith) (omega arith) (start_Fits v h)

pub raw_varint-encode_varint :
    (v : ℕ) (front rest : List ℕ)
    → IsU64 v
    → length (front ++ (encode_varint v ++ rest)) < 2 ^ 64
    → raw_varint_from max_varint_bytes (source_at front (encode_varint v ++ rest))
      ≡ ok (encode_varint v, source_at (front ++ encode_varint v) rest)
raw_varint-encode_varint v front rest h fits =
    raw_varint_from-Encodes (encode_varint-Encodes v) 10 front rest (length-encode_varint v h) fits

decode_varint_from-Encodes :
    {w : ℕ} {bytes : List ℕ} (e : Encodes w bytes) (acc s : ℕ)
    → s ≤ 63
    → Fits acc w s
    → decode_varint_from acc s bytes ≡ ok (acc + w * 2 ^ s)
unfolding decode_varint_from
decode_varint_from-Encodes (last {v = w} h) acc s hs f =
    rw (ends w h, or_group_last acc w s h f) (ground arith)
decode_varint_from-Encodes (more {v = w} h e) acc s hs f =
    let ih =
      decode_varint_from-Encodes e (acc + w % 128 * 2 ^ s) (s + 7)
        (omega (arith, room_left acc w s h f)) (Fits-next acc w s f) in
    rw (goes_on (w % 128) (omega arith), or_group_inner acc w s f)
      (ground (arith, ih, total_next acc w s))

-- The bytes written for a 64-bit number decode to it.
pub decode_varint-encode_varint : (v : ℕ) → IsU64 v → decode_varint (encode_varint v) ≡ ok v
unfolding decode_varint
decode_varint-encode_varint v h =
    decode_varint_from-Encodes (encode_varint-Encodes v) 0 0 (omega arith) (start_Fits v h)
    ∙ rw (from_start v) refl
