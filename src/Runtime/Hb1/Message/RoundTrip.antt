-- ===== src/Runtime/Hb1/Message/RoundTrip.antt =====
-- Encoding a message and decoding it again.
use hasten.Common.{
  suc, ◌^◌, ◌<◌, ◌≤◌, ◌≡◌, refl, sym, ◌∙◌, List, [], ◌∷◌, true, false, if◌then◌else◌, length,
  length-append, arith, Bool-cases, inl, inr,
}
use hasten.Runtime.Result.{ok, fault, dangling_span}
use hasten.Runtime.Varint.{encode_varint}
use hasten.Runtime.Payload.{source_of}
use hasten.Runtime.Hb1.{FieldDescriptor, wire_byte}
use hasten.Runtime.Hb1.Datum.{field_bytes, tag_bytes, payload, type_of}
use hasten.Runtime.Hb1.Message.{all_present, encode_message, decode_message, new_view}
use hasten.Runtime.Hb1.Message.Encode.{Item, values_of, bytes_of, Described, encode_message-Writes}
use hasten.Runtime.Hb1.Message.Views.{
  only_last, last_view, last_view_use, read_views-bytes_of, decode_views-views_of,
}

items_below : (items : List Item) → length items ≤ length (bytes_of items)
items_below [] = omega arith
items_below ((id, x) ∷ items) = omega (
  arith,
  items_below items,
  length-append (field_bytes id x) (bytes_of items),
  length-append (tag_bytes id (type_of x)) (payload x),
  length-append (encode_varint id) (wire_byte (type_of x) ∷ []),
)

module _ (fields : List FieldDescriptor) (items : List Item) (described : Described fields items)
    (present : all_present fields (values_of items) ≡ true)
    (fits : length (bytes_of items) < 2 ^ 64) where
  written : (encode_message fields (values_of items) []) ≡ (ok tt, bytes_of items)
  written = encode_message-Writes fields items described []

  decoded :
      decode_message fields (source_of (bytes_of items))
      ≡ (if only_last items then ok (values_of items) else fault dangling_span)
  unfolding decode_message
  decoded =
      rw
        (
          read_views-bytes_of fields items (suc (length (bytes_of items))) new_view [] described
              (omega (arith, items_below items)) fits,
          decode_views-views_of fields items 0 (last_view new_view items).scratch_use described
              (sym (last_view_use new_view items)),
        )
        (elim (Bool-cases (only_last items)) [
          | inl fine ↦ rw (fine, present) refl
          | inr early ↦ rw early refl
        ])

  -- A message that fits its description, has every required field and has no varint but in the last
  -- place is encoded without an error, and the bytes decode to its values.
  pub decode_message-encode_message :
      only_last items ≡ true
      → let (result, buffer) = encode_message fields (values_of items) [] in
        (result ≡ ok tt) × (decode_message fields (source_of buffer) ≡ ok (values_of items))
  decode_message-encode_message last = rw written (refl, decoded ∙ rw last refl)

  -- A message that fits its description and has a varint before the last place is encoded without an
  -- error, and decoding the bytes reads a span whose storage was cleared.
  pub decode_message_stale :
      only_last items ≡ false
      → let (result, buffer) = encode_message fields (values_of items) [] in
        (result ≡ ok tt) × (decode_message fields (source_of buffer) ≡ fault dangling_span)
  decode_message_stale early = rw written (refl, decoded ∙ rw early refl)
