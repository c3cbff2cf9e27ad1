-- ===== src/Runtime/Wire/Agreement.antt =====
-- The two readers of variable-length numbers, that of context.cpp and that of hb1.cpp.
use hasten.Common.{
  ℕ, zero, suc, ◌+◌, ◌*◌, ◌^◌, ◌<◌, bit_and, ◌≡◌, refl, List, [], ◌∷◌, ◌++◌, append_assoc, leb-true,
  leb-false, ◌==◌, length, length-append, drop-append, Bool-cases, inl, inr, arith,
}
use hasten.Runtime.Result.{Result, ok, err}
use hasten.Runtime.Varint.{or_group}
use hasten.Runtime.Payload.{SpanSource}
use hasten.Runtime.Payload.Laws.{source_at, read_there, empty-source_at, empty-source_at_end}
use hasten.Runtime.Hb1.Reader.{read_varint_from}
use hasten.Runtime.Hb1.Reader
use hasten.Runtime.Wire.{read_varint_rest, read_varint}

-- The same number and the same place behind it in the same bytes, or an error of both.
abbrev pub Agree : List ℕ → Result (ℕ × ℕ) → Result (ℕ × SpanSource) → Type 0
Agree buffer (ok (v, offset)) (ok (w, s)) =
    (v ≡ w) × (s ≡ record { bytes = buffer; offset = offset })
Agree buffer (err e) (err f) = Unit {0}
Agree buffer _ _ = ⊥

behind : (front : List ℕ) (b : ℕ) → length (front ++ (b ∷ [])) ≡ length front + 1
behind front b = length-append front (b ∷ [])

moved :
    (front : List ℕ) (b : ℕ) (rest : List ℕ)
    → source_at (front ++ (b ∷ [])) rest
      ≡ record { bytes = front ++ (b ∷ rest); offset = length front + 1 }
moved front b rest = rw (behind front b, append_assoc front (b ∷ []) rest) refl

loops_Agree :
    (k acc shift : ℕ) (front rest : List ℕ)
    → 7 * suc k + shift ≡ 70
    → length (front ++ rest) < 2 ^ 64
    → Agree
        (front ++ rest)
        (read_varint_rest acc shift (length front) rest)
        (read_varint_from (suc k) acc shift (source_at front rest))
unfolding read_varint_rest read_varint_from
loops_Agree k acc shift front [] hk fits = rw (empty-source_at_end front) tt
loops_Agree zero acc shift front (b ∷ rest) hk fits =
    rw (empty-source_at front b rest, read_there front (b ∷ []) rest fits)
      (elim (Bool-cases (bit_and b 0x80 == 0)) [
        | inl last ↦ rw last (refl, moved front b rest)
        | inr inner ↦ rw (inner, leb-true 64 (shift + 7) (omega arith)) tt
      ])
loops_Agree (suc n) acc shift front (b ∷ rest) hk fits =
    let ih =
      loops_Agree n (or_group acc b shift) (shift + 7) (front ++ (b ∷ [])) rest (omega arith)
        (rw (append_assoc front (b ∷ []) rest) fits) in
    rw (empty-source_at front b rest, read_there front (b ∷ []) rest fits)
      (elim (Bool-cases (bit_and b 0x80 == 0)) [
        | inl last ↦ rw last (refl, moved front b rest)
        | inr inner ↦
            rw
              (
                inner,
                leb-false 64 (shift + 7) (omega arith),
                behind front b,
                append_assoc front (b ∷ []) rest,
              )
              (rw (behind front b, append_assoc front (b ∷ []) rest) at ih)
      ])

-- On every payload and at every offset in it, the two readers give the same number and go on from
-- the same place, or both give an error.
pub readers_Agree :
    (front rest : List ℕ)
    → length (front ++ rest) < 2 ^ 64
    → Agree
        (front ++ rest)
        (read_varint (front ++ rest) (length front))
        (Reader.read_varint (source_at front rest))
unfolding read_varint Reader.read_varint
readers_Agree front rest fits =
    rw (drop-append front rest) (loops_Agree 9 0 0 front rest (omega arith) fits)
