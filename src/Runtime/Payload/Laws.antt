-- ===== src/Runtime/Payload/Laws.antt =====
-- Reading from a span by what is left of it.
use hasten.Common.{
  ℕ, ◌^◌, ◌<◌, ◌≡◌, List, [], ◌∷◌, ◌++◌, append_assoc, true, false, length, length-append,
  drop-append, take-append, arith,
}
use hasten.Runtime.Result.{ok}
use hasten.Runtime.Payload.{SpanSource, read, empty}

-- The source has read `front` and has `rest` before it.
abbrev pub source_at : List ℕ → List ℕ → SpanSource
source_at front rest = record { bytes = front ++ rest; offset = length front }

-- A read of what is there returns it and moves on behind it.
pub read_there :
    (front now rest : List ℕ)
    → length (front ++ (now ++ rest)) < 2 ^ 64
    → read (source_at front (now ++ rest)) (length now) ≡ ok (now, source_at (front ++ now) rest)
unfolding read
read_there front now rest h = ground (
  arith,
  length-append front (now ++ rest),
  length-append now rest,
  length-append front now,
  append_assoc front now rest,
  drop-append front (now ++ rest),
  take-append now rest,
)

pub empty-source_at :
    (front : List ℕ) (b : ℕ) (rest : List ℕ) → empty (source_at front (b ∷ rest)) ≡ false
unfolding empty
empty-source_at front b rest = ground (arith, length-append front (b ∷ rest))

pub empty-source_at_end : (front : List ℕ) → empty (source_at front []) ≡ true
unfolding empty
empty-source_at_end front = ground (arith, length-append front [])
