-- ===== src/Runtime/Hb1/Message/Views.antt =====
-- The two loops of `decode_message` on the bytes of an encoded message.
use hasten.Common.{
  ℕ, zero, suc, ◌+◌, ◌^◌, ◌<◌, ◌≡◌, ◌≢◌, refl, ap, ◌∙◌, List, [], ◌∷◌, ◌++◌, append_assoc, Bool,
  true, false, ◌&&◌, ==_refl, if◌then◌else◌, Bool-cases, ◌⊎◌, inl, inr, some, length, arith,
}
use hasten.Runtime.Result.{ok, fault, ◌>>=◌, dangling_span}
use hasten.Runtime.Frame.Endian.{write_be32, write_be64, read_be32, read_be64}
use hasten.Runtime.Frame.Endian.Laws.{be32_round_trip, be64_round_trip}
use hasten.Runtime.Payload.Laws.{source_at, empty-source_at_end}
use hasten.Runtime.Hb1.{FieldView, FieldDescriptor, make_unsigned}
use hasten.Runtime.Hb1.Writer.{fixed32_bytes, fixed64_bytes}
use hasten.Runtime.Hb1.Zigzag.{decode_zigzag-zigzag}
use hasten.Runtime.Hb1.Datum.{
  Datum, number, signed, word32, word64, text, blob, type_of, value_of, InRange, field_bytes,
}
use hasten.Runtime.Hb1.Reader.{next}
use hasten.Runtime.Hb1.Reader.Varints.{decode_varint-encode_varint}
use hasten.Runtime.Hb1.Reader.Fields.{span_of, view_of, next-field_bytes}
use hasten.Runtime.Hb1.Message.{
  read_views, decode_views, decode_value, span_bytes, fixed32_value, fixed64_value, find_field,
}
use hasten.Runtime.Hb1.Message.Encode.{Item, values_of, bytes_of, KindFits, Described}

-- The views, when the scratch buffer has been used `n` times before.
abbrev pub views_of : ℕ → List Item → List FieldView
views_of n [] = []
views_of n ((id, x) ∷ items) = view_of (n + 1) id x ∷ views_of (n + 1) items

abbrev pub last_view : FieldView → List Item → FieldView
last_view view [] = view
last_view view ((id, x) ∷ items) = last_view (view_of (view.scratch_use + 1) id x) items

pub last_view_use :
    (view : FieldView) (items : List Item)
    → (last_view view items).scratch_use ≡ view.scratch_use + length items
last_view_use view [] = omega arith
last_view_use view ((id, x) ∷ items) =
    omega (arith, last_view_use (view_of (view.scratch_use + 1) id x) items)

read_views_end :
    (fuel : ℕ) (view : FieldView) (front : List ℕ)
    → read_views (suc fuel) view (source_at front []) ≡ ok ([], view)
unfolding read_views next
read_views_end fuel view front = rw (empty-source_at_end front) refl

pub read_views-bytes_of :
    (fields : List FieldDescriptor) (items : List Item) (fuel : ℕ) (view : FieldView)
    (front : List ℕ)
    → Described fields items
    → length items < fuel
    → length (front ++ bytes_of items) < 2 ^ 64
    → read_views fuel view (source_at front (bytes_of items))
      ≡ ok (views_of view.scratch_use items, last_view view items)
unfolding read_views
read_views-bytes_of fields items zero view front h enough fits = absurd (omega arith)
read_views-bytes_of fields [] (suc fuel) view front h enough fits = read_views_end fuel view front
read_views-bytes_of fields ((id, x) ∷ items) (suc fuel) view front h enough fits =
    let ih =
      read_views-bytes_of fields items fuel (view_of (view.scratch_use + 1) id x)
        (front ++ field_bytes id x) h.1 (omega arith)
        (rw (append_assoc front (field_bytes id x) (bytes_of items)) fits) in
    rw (next-field_bytes view id x front (bytes_of items) h.0.id_u32 h.0.in_range fits) (rw ih refl)

fixed32_round_trip :
    (v : ℕ) → InRange (word32 v) → fixed32_value (fixed32_bytes v) ≡ ok (make_unsigned v)
unfolding fixed32_value fixed32_bytes write_be32 read_be32
fixed32_round_trip v h = ap (λ (w : ℕ). ok (make_unsigned w)) (be32_round_trip v [] h)

fixed64_round_trip :
    (v : ℕ) → InRange (word64 v) → fixed64_value (fixed64_bytes v) ≡ ok (make_unsigned v)
unfolding fixed64_value fixed64_bytes write_be64 read_be64
fixed64_round_trip v h = ap (λ (w : ℕ). ok (make_unsigned w)) (be64_round_trip v [] h)

-- The value has no bytes in the scratch buffer.
abbrev pub is_stable : Datum → Bool
is_stable (number v) = false
is_stable (signed v) = false
is_stable _ = true

decode_value_stable :
    (live n : ℕ) (d : FieldDescriptor) (x : Datum)
    → InRange x
    → KindFits d.preferred_kind x
    → (n ≡ live) ⊎ (is_stable x ≡ true)
    → decode_value live d (type_of x) (span_of n x) ≡ ok (value_of x)
unfolding decode_value span_bytes
decode_value_stable live n d (number v) h k (inl e) =
    rw (e, ==_refl live, decode_varint-encode_varint v h) refl
decode_value_stable live n d (number v) h k (inr e) = cc
decode_value_stable live n d (signed v) h k (inl e) =
    rw (e, ==_refl live, decode_zigzag-zigzag v h) refl
decode_value_stable live n d (signed v) h k (inr e) = cc
decode_value_stable live n d (word32 v) h k s = fixed32_round_trip v h
decode_value_stable live n d (word64 v) h k s = fixed64_round_trip v h
decode_value_stable live n d (text s) h k _ = rw k refl
decode_value_stable live n d (blob s) h k _ = rw k refl

decode_value_stale :
    (live n : ℕ) (d : FieldDescriptor) (x : Datum)
    → n ≢ live
    → is_stable x ≡ false
    → decode_value live d (type_of x) (span_of n x) ≡ fault dangling_span
unfolding decode_value span_bytes
decode_value_stale live n d (number v) ne e = ground arith
decode_value_stale live n d (signed v) ne e = ground arith
decode_value_stale live n d (word32 v) ne e = cc
decode_value_stale live n d (word64 v) ne e = cc
decode_value_stale live n d (text v) ne e = cc
decode_value_stale live n d (blob v) ne e = cc

-- A varint stands at the end of the message only.
abbrev pub only_last : List Item → Bool
only_last [] = true
only_last ((id, x) ∷ []) = true
only_last ((id, x) ∷ (i ∷ items)) = is_stable x && only_last (i ∷ items)

decode_views_step :
    (live : ℕ) (fields : List FieldDescriptor) (view : FieldView) (views : List FieldView)
    (d : FieldDescriptor)
    → find_field fields view.id ≡ some d
    → decode_views live fields (view ∷ views) ≡ (
        decode_value live d view.wire_type view.bytes >>= λ v.
        decode_views live fields views >>= λ values.
        ok (record { id = view.id; wire_type = view.wire_type; value = v } ∷ values))
unfolding decode_views
decode_views_step live fields view views d e = rw (e, decode_views) refl

pub decode_views-views_of :
    (fields : List FieldDescriptor) (items : List Item) (n live : ℕ)
    → Described fields items
    → n + length items ≡ live
    → decode_views live fields (views_of n items)
      ≡ (if only_last items then ok (values_of items) else fault dangling_span)
decode_views-views_of fields [] n live h e = unfold decode_views in refl
decode_views-views_of fields ((id, x) ∷ []) n live h e =
    decode_views_step live fields (view_of (n + 1) id x) [] h.0.descriptor h.0.at_id
    ∙ rw
        (decode_value_stable live (n + 1) h.0.descriptor x h.0.in_range h.0.right_kind
          (inl (omega arith)))
        (unfold decode_views in refl)
decode_views-views_of fields ((id, x) ∷ (i ∷ items)) n live h e =
    let d = h.0.descriptor in
    let ih = decode_views-views_of fields (i ∷ items) (n + 1) live h.1 (omega arith) in
    decode_views_step live fields (view_of (n + 1) id x) (views_of (n + 1) (i ∷ items)) d h.0.at_id
    ∙ elim (Bool-cases (is_stable x)) [
      | inl stable ↦
          rw
            (
              decode_value_stable live (n + 1) d x h.0.in_range h.0.right_kind (inr stable),
              ih,
              stable,
            )
            (elim (Bool-cases (only_last (i ∷ items))) [
              | inl fine ↦ rw fine refl
              | inr bad ↦ rw bad refl
            ])
      | inr stale ↦ rw (decode_value_stale live (n + 1) d x (λ same. omega arith) stale, stale) refl
    ]
