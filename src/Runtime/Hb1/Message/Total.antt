-- ===== src/Runtime/Hb1/Message/Total.antt =====
-- `decode_message` on any bytes at all: its loops end, and its shifts are in range.
use hasten.Common.{
  ℕ, zero, suc, ◌+◌, ◌≤◌, ap, List, [], ◌∷◌, Bool-cases, inl, inr, ◌==◌, Option-cases, length, All,
  arith,
}
use hasten.Runtime.Result.{ok, ◌>>=◌, Ensures, >>=-Ensures}
use hasten.Runtime.Payload.{SpanSource, source_of}
use hasten.Runtime.Hb1.{
  WireType, varint, zigzag_varint, fixed32, fixed64, length_delimited, capability, other_type, Span,
  in_payload, in_scratch, FieldView, FieldDescriptor,
}
use hasten.Runtime.Hb1.Reader.{next, decode_varint, decode_zigzag, unzigzag}
use hasten.Runtime.Hb1.Reader.Progress.{next-Ensures, decode_varint-Ensures, WellPlaced}
use hasten.Runtime.Hb1.Message.{
  find_field, read_views, decode_views, all_present, decode_message, decode_value, span_bytes,
  fixed32_value, fixed64_value, new_view,
}

abbrev ViewPlaced : FieldView → Type 0
ViewPlaced view = WellPlaced view.wire_type view.bytes

read_views-Ensures :
    (fuel : ℕ) (view : FieldView) (s : SpanSource)
    → length s.bytes + 1 ≤ fuel + s.offset
    → s.offset ≤ length s.bytes
    → Ensures (λ p. All ViewPlaced p.0) (read_views fuel view s)
unfolding read_views
read_views-Ensures zero view s enough inside = absurd (omega (arith, enough, inside))
read_views-Ensures (suc fuel) view s enough inside =
    >>=-Ensures _ _ (next view s) _ (next-Ensures view s) λ n p. elim (Bool-cases n.found) [
      | inl found ↦
          let b = p.taken found in
          rw found (
            >>=-Ensures _ _ (read_views fuel n.view n.source) _
              (read_views-Ensures fuel n.view n.source
                (omega (arith, enough, b.ahead, ap length b.same_bytes))
                (omega (arith, b.inside, ap length b.same_bytes)))
              λ q c. (p.placed found, c))
      | inr done ↦ rw done tt
    ]

span_bytes-Ensures : (live : ℕ) (s : Span) → Ensures (λ bytes. Unit {0}) (span_bytes live s)
unfolding span_bytes
span_bytes-Ensures live (in_payload bytes) = tt
span_bytes-Ensures live (in_scratch n bytes) = ground arith

fixed32_value-Ensures : (bytes : List ℕ) → Ensures (λ v. Unit {0}) (fixed32_value bytes)
unfolding fixed32_value
fixed32_value-Ensures bytes = ground arith

fixed64_value-Ensures : (bytes : List ℕ) → Ensures (λ v. Unit {0}) (fixed64_value bytes)
unfolding fixed64_value
fixed64_value-Ensures bytes = ground arith

-- A number is decoded from a view of `next` without an oversized shift, for the view is short.
decode_value-Ensures :
    (live : ℕ) (d : FieldDescriptor) (t : WireType) (s : Span)
    → WellPlaced t s
    → Ensures (λ v. Unit {0}) (decode_value live d t s)
unfolding decode_value span_bytes decode_zigzag
decode_value-Ensures live d varint (in_payload bytes) h = absurd h
decode_value-Ensures live d varint (in_scratch n bytes) h = elim (Bool-cases (n == live)) [
  | inl same ↦
      rw same (>>=-Ensures _ _ (decode_varint bytes) _ (decode_varint-Ensures bytes h) λ v _. tt)
  | inr stale ↦ rw stale tt
]
decode_value-Ensures live d zigzag_varint (in_payload bytes) h = absurd h
decode_value-Ensures live d zigzag_varint (in_scratch n bytes) h = elim (Bool-cases (n == live)) [
  | inl same ↦ rw same (
      >>=-Ensures (λ v. Unit {0}) _ (decode_varint bytes >>= λ v. ok (unzigzag v)) _
        (>>=-Ensures _ _ (decode_varint bytes) _ (decode_varint-Ensures bytes h) λ v _. tt)
        λ v _. tt)
  | inr stale ↦ rw stale tt
]
decode_value-Ensures live d fixed32 s h =
    >>=-Ensures _ _ (span_bytes live s) _ (span_bytes-Ensures live s)
      λ bytes _. fixed32_value-Ensures bytes
decode_value-Ensures live d fixed64 s h =
    >>=-Ensures _ _ (span_bytes live s) _ (span_bytes-Ensures live s)
      λ bytes _. fixed64_value-Ensures bytes
decode_value-Ensures live d length_delimited s h =
    >>=-Ensures _ _ (span_bytes live s) _ (span_bytes-Ensures live s) λ bytes _. tt
decode_value-Ensures live d capability s h = tt
decode_value-Ensures live d (other_type b) s h = tt

decode_views-Ensures :
    (live : ℕ) (fields : List FieldDescriptor) (views : List FieldView)
    → All ViewPlaced views
    → Ensures (λ v. Unit {0}) (decode_views live fields views)
unfolding decode_views
decode_views-Ensures live fields [] h = tt
decode_views-Ensures live fields (view ∷ views) h =
    elim (Option-cases (find_field fields view.id)) [
      | inl unknown ↦ rw (unknown, decode_views) (decode_views-Ensures live fields views h.1)
      | inr (d, known) ↦
          rw (known, decode_views)
            (>>=-Ensures _ _ (decode_value live d view.wire_type view.bytes) _
              (decode_value-Ensures live d view.wire_type view.bytes h.0)
              λ v _.
                >>=-Ensures _ _ (decode_views live fields views) _
                  (decode_views-Ensures live fields views h.1) λ values _. tt)
    ]

-- On any payload whatever, `decode_message` ends, and gives values or an error, or else meets one
-- of two undefined behaviours: a length that wraps the reader's offset, or a span into a scratch
-- buffer that was cleared since. It never shifts by 64 bits or more.
pub decode_message-total :
    (fields : List FieldDescriptor) (payload : List ℕ)
    → Ensures (λ v. Unit {0}) (decode_message fields (source_of payload))
unfolding decode_message
decode_message-total fields payload =
    >>=-Ensures _ _ (read_views (suc (length payload)) new_view (source_of payload)) _
      (read_views-Ensures (suc (length payload)) new_view (source_of payload) (omega arith)
        (omega arith))
      λ p placed.
        >>=-Ensures _ _ (decode_views p.1.scratch_use fields p.0) _
          (decode_views-Ensures p.1.scratch_use fields p.0 placed)
          λ values _. elim (Bool-cases (all_present fields values)) [
            | inl complete ↦ rw complete tt
            | inr missing ↦ rw missing tt
          ]
