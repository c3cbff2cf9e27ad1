-- ===== src/Runtime/Hb1/Reader/Progress.antt =====
-- The reader on any input: how far it gets, and what it never does.
use hasten.Common.{
  ℕ, zero, suc, ◌+◌, ◌*◌, ◌≤◌, bit_and, ◌≡◌, refl, ap, ◌∙◌, List, [], ◌∷◌, true, ◌==◌, ltb,
  Bool-cases, inl, inr, length, length-take, length-drop, drop, get_or, arith,
}
use hasten.Runtime.Result.{Ensures, >>=-Ensures, Ensures-mono}
use hasten.Runtime.Payload.{SpanSource, read, empty}
use hasten.Runtime.Varint.{or_group}
use hasten.Runtime.Hb1.{
  WireType, varint, zigzag_varint, fixed32, fixed64, length_delimited, capability, other_type, Span,
  in_payload, in_scratch, FieldView, wire_type_of,
}
use hasten.Runtime.Hb1.Reader.{
  Next, read_varint_from, read_varint, raw_varint_from, read_counted, read_value, next_field, next,
  max_varint_bytes, decode_varint_from, decode_varint,
}

-- `s'` is `s` after at least `k` bytes more.
pub record Beyond (k : ℕ) (s s' : SpanSource) : Type 0 where
  pub same_bytes : s'.bytes ≡ s.bytes
  pub ahead : s.offset + k ≤ s'.offset
  pub inside : s'.offset ≤ length s.bytes

-- Moving on twice is moving on.
Beyond-weaken : (s t u : SpanSource) → Beyond 1 s t → Beyond 1 t u → Beyond 1 s u
Beyond-weaken s t u p q = record {
  same_bytes = q.same_bytes ∙ p.same_bytes;
  ahead = omega (arith, p.ahead, q.ahead);
  inside = omega (arith, q.inside, ap length p.same_bytes);
}

read-Ensures :
    (s : SpanSource) (k : ℕ) → Ensures (λ p. Beyond k s p.1 × (length p.0 ≡ k)) (read s k)
unfolding read
read-Ensures s k =
    ground (arith, length-take k (drop s.offset s.bytes), length-drop s.offset s.bytes)

read_varint_from-Ensures :
    (k acc shift : ℕ) (s : SpanSource)
    → Ensures (λ p. Beyond 1 s p.1) (read_varint_from k acc shift s)
unfolding read_varint_from
read_varint_from-Ensures zero acc shift s = tt
read_varint_from-Ensures (suc k) acc shift s = elim (Bool-cases (empty s)) [
  | inl done ↦ rw done tt
  | inr more ↦ rw more (
      >>=-Ensures _ _ (read s 1) _ (read-Ensures s 1) λ p b.
        let byte = get_or p.0 0 0 in
        let ih = read_varint_from-Ensures k (or_group acc byte shift) (shift + 7) p.1 in
        elim (Bool-cases (bit_and byte 0x80 == 0)) [
          | inl last ↦ rw last b.0
          | inr inner ↦
              rw inner
                (Ensures-mono {A = ℕ × SpanSource} _ _ _ (λ q c. Beyond-weaken s p.1 q.1 b.0 c) ih)
        ])
]

raw_varint_from-Ensures :
    (k : ℕ) (s : SpanSource)
    → Ensures (λ p. Beyond 1 s p.1 × (length p.0 ≤ k)) (raw_varint_from k s)
unfolding raw_varint_from
raw_varint_from-Ensures zero s = tt
raw_varint_from-Ensures (suc k) s = >>=-Ensures _ _ (read s 1) _ (read-Ensures s 1) λ p b.
    let byte = get_or p.0 0 0 in
    elim (Bool-cases (bit_and byte 0x80 == 0)) [
      | inl last ↦ rw last (b.0, omega arith)
      | inr inner ↦ rw inner (
          >>=-Ensures _ _ (raw_varint_from k p.1) _ (raw_varint_from-Ensures k p.1)
            λ q c. (Beyond-weaken s p.1 q.1 b.0 c.0, omega (arith, c.1)))
    ]

read_varint-Ensures : (s : SpanSource) → Ensures (λ p. Beyond 1 s p.1) (read_varint s)
unfolding read_varint
read_varint-Ensures s = read_varint_from-Ensures max_varint_bytes 0 0 s

-- Moving on by anything after a byte is moving on by a byte.
Beyond-later : (k : ℕ) (s t u : SpanSource) → Beyond 1 s t → Beyond k t u → Beyond 1 s u
Beyond-later k s t u p q = record {
  same_bytes = q.same_bytes ∙ p.same_bytes;
  ahead = omega (arith, p.ahead, q.ahead);
  inside = omega (arith, q.inside, ap length p.same_bytes);
}

Beyond-refl : (s : SpanSource) → s.offset ≤ length s.bytes → Beyond 0 s s
Beyond-refl s h = record { same_bytes = refl; ahead = omega arith; inside = h }

-- A span in the scratch buffer has ten bytes at most.
abbrev pub ShortScratch : Span → Type 0
ShortScratch (in_payload bytes) = Unit {0}
ShortScratch (in_scratch n bytes) = length bytes ≤ max_varint_bytes

-- A view of a varint lies in the scratch buffer.
abbrev pub WellPlaced : WireType → Span → Type 0
WellPlaced varint (in_payload bytes) = ⊥
WellPlaced zigzag_varint (in_payload bytes) = ⊥
WellPlaced _ s = ShortScratch s

read_counted-Ensures : (s : SpanSource) → Ensures (λ p. Beyond 0 s p.1) (read_counted s)
unfolding read_counted
read_counted-Ensures s = >>=-Ensures _ _ (read_varint s) _ (read_varint-Ensures s) λ p b.
    Ensures-mono {A = List ℕ × SpanSource} _ _ _ (λ q c. Beyond-zero s p.1 q.1 p.0 b c.0)
      (read-Ensures p.1 p.0)
  where
    Beyond-zero : (a c d : SpanSource) (k : ℕ) → Beyond 1 a c → Beyond k c d → Beyond 0 a d
    Beyond-zero a c d k p q = record {
      same_bytes = q.same_bytes ∙ p.same_bytes;
      ahead = omega (arith, p.ahead, q.ahead);
      inside = omega (arith, q.inside, ap length p.same_bytes);
    }

Forward-zero : (k : ℕ) (s t : SpanSource) → Beyond k s t → Beyond 0 s t
Forward-zero k s t p = record {
  same_bytes = p.same_bytes;
  ahead = omega (arith, p.ahead);
  inside = p.inside;
}

-- What `read_value` gives lies where it should, and the source has not gone back.
abbrev Placed : WireType → SpanSource → Span × SpanSource → Type 0
Placed t s p = WellPlaced t p.0 × Beyond 0 s p.1

read_value-Ensures :
    (t : WireType) (n : ℕ) (s : SpanSource)
    → s.offset ≤ length s.bytes
    → Ensures (Placed t s) (read_value t n s)
unfolding read_value
read_value-Ensures varint n s h =
    >>=-Ensures _ _ (raw_varint_from 10 s) _ (raw_varint_from-Ensures 10 s)
      λ p b. (b.1, Forward-zero 1 s p.1 b.0)
read_value-Ensures zigzag_varint n s h =
    >>=-Ensures _ _ (raw_varint_from 10 s) _ (raw_varint_from-Ensures 10 s)
      λ p b. (b.1, Forward-zero 1 s p.1 b.0)
read_value-Ensures fixed32 n s h =
    >>=-Ensures _ _ (read s 4) _ (read-Ensures s 4) λ p b. (tt, Forward-zero 4 s p.1 b.0)
read_value-Ensures fixed64 n s h =
    >>=-Ensures _ _ (read s 8) _ (read-Ensures s 8) λ p b. (tt, Forward-zero 8 s p.1 b.0)
read_value-Ensures length_delimited n s h =
    >>=-Ensures _ _ (read_counted s) _ (read_counted-Ensures s) λ p b. (tt, b)
read_value-Ensures capability n s h =
    >>=-Ensures _ _ (read_counted s) _ (read_counted-Ensures s) λ p b. (tt, b)
read_value-Ensures (other_type b) n s h = (tt, Beyond-refl s h)

-- A call of `next` that finds a field takes at least a byte, and the view is well placed; one that
-- finds none is at the end.
pub record Progress (s : SpanSource) (n : Next) : Type 0 where
  pub placed : n.found ≡ true → WellPlaced n.view.wire_type n.view.bytes
  pub taken : n.found ≡ true → Beyond 1 s n.source

pub next-Ensures : (out : FieldView) (s : SpanSource) → Ensures (Progress s) (next out s)
unfolding next next_field
next-Ensures out s = elim (Bool-cases (empty s)) [
  | inl done ↦ rw done (record { placed = λ e. cc; taken = λ e. cc })
  | inr more ↦ rw more (
      >>=-Ensures _ _ (read_varint s) _ (read_varint-Ensures s) λ p b.
        >>=-Ensures _ _ (read p.1 1) _ (read-Ensures p.1 1) λ q c.
          >>=-Ensures _ _ (read_value (wire_type_of (get_or q.0 0 0)) (out.scratch_use + 1) q.1) _
            (read_value-Ensures (wire_type_of (get_or q.0 0 0)) (out.scratch_use + 1) q.1
              (omega (arith, c.0.inside, ap length c.0.same_bytes)))
            λ r d. record {
              placed = λ _. d.0;
              taken = λ _. Beyond-later 0 s q.1 r.1 (Beyond-weaken s p.1 q.1 b c.0) d.1;
            })
]

decode_varint_from-Ensures :
    (acc shift : ℕ) (bytes : List ℕ)
    → 7 * length bytes + shift ≤ 70
    → Ensures (λ v. Unit {0}) (decode_varint_from acc shift bytes)
unfolding decode_varint_from
decode_varint_from-Ensures acc shift [] h = tt
decode_varint_from-Ensures acc shift (b ∷ bytes) h =
    let small : ltb shift 64 ≡ true = ground arith in
    rw small (elim (Bool-cases (bit_and b 0x80 == 0)) [
      | inl last ↦ rw last tt
      | inr inner ↦
          rw inner
            (decode_varint_from-Ensures (or_group acc b shift) (shift + 7) bytes (omega arith))
    ])

-- Ten bytes are decoded without an oversized shift.
pub decode_varint-Ensures :
    (bytes : List ℕ)
    → length bytes ≤ max_varint_bytes
    → Ensures (λ v. Unit {0}) (decode_varint bytes)
unfolding decode_varint
decode_varint-Ensures bytes h = decode_varint_from-Ensures 0 0 bytes (omega arith)
