-- ===== src/Runtime/Hb1/Message.antt =====
-- Whole messages of src/runtime/serialization/hb1.cpp: encoding and decoding by a descriptor, which
-- is the list of its fields, and the check of views against one.
pub mod Encode
pub mod Views
pub mod RoundTrip
pub mod Total
use hasten.Common.{
  ℕ, zero, suc, ◌*◌, ◌%◌, ◌^◌, bit_or, List, [], ◌∷◌, Bool, true, false, not, ◌&&◌, ◌||◌, Option,
  none, some, ◌==◌, if◌then◌else◌, get_or, length, String,
}
use hasten.Runtime.Result.{
  Result, ok, fault, ◌>>=◌, dangling_span, out_of_fuel, ErrorCode, unexpected_result,
  transport_error, internal_error, unimplemented,
}
use hasten.Runtime.Payload.{Write, ◌and_then◌, SpanSource}
use hasten.Runtime.Hb1.{
  WireType, varint, zigzag_varint, fixed32, fixed64, length_delimited, capability, other_type,
  wire_byte, Span, in_payload, in_scratch, FieldView, ValueKind, unsigned_kind, signed_kind,
  string_kind, bytes_kind, Value, default_value, make_unsigned, make_signed, make_string,
  make_bytes, FieldValue, FieldDescriptor,
}
use hasten.Runtime.Hb1.Writer.{
  write_field_varint, write_field_svarint, write_field_fixed32, write_field_fixed64,
  write_field_bytes, write_field_string,
}
use hasten.Runtime.Hb1.Reader.{next, decode_varint, decode_zigzag}

unfoldable pub find_field : List FieldDescriptor → ℕ → Option FieldDescriptor
find_field [] id = none
find_field (field ∷ fields) id = if field.id == id then some field else find_field fields id

abbrev pub same_type : WireType → WireType → Bool
same_type a b = wire_byte a == wire_byte b

-- `return unexpected_result(code, message);`
abbrev pub refuse : ErrorCode → String → Write
refuse code message buffer = (unexpected_result code message, buffer)

encode_by : WireType → ValueKind → ℕ → Value → Write
encode_by varint unsigned_kind id v = write_field_varint id v.unsigned_value
encode_by varint _ id v = refuse internal_error "value kind mismatch"
encode_by zigzag_varint signed_kind id v = write_field_svarint id v.signed_value
encode_by zigzag_varint _ id v = refuse internal_error "value kind mismatch"
encode_by fixed32 unsigned_kind id v = write_field_fixed32 id (v.unsigned_value % 2 ^ 32)
encode_by fixed32 _ id v = refuse internal_error "value kind mismatch"
encode_by fixed64 unsigned_kind id v = write_field_fixed64 id v.unsigned_value
encode_by fixed64 _ id v = refuse internal_error "value kind mismatch"
encode_by length_delimited string_kind id v = write_field_string id v.text
encode_by length_delimited bytes_kind id v = write_field_bytes id v.bytes
encode_by length_delimited _ id v =
    refuse internal_error "length-delimited field requires string/bytes"
encode_by capability _ id v = refuse unimplemented "capability encoding not implemented"
encode_by (other_type b) _ id v = refuse internal_error "unknown wire type"

unfoldable pub encode_value : FieldValue → Write
unfolding encode_by
encode_value f = encode_by f.wire_type f.value.kind f.id f.value

abbrev pub wants_string : ValueKind → Bool
wants_string string_kind = true
wants_string _ = false

abbrev pub wants_bytes : ValueKind → Bool
wants_bytes bytes_kind = true
wants_bytes _ = false

abbrev is_delimited : WireType → Bool
is_delimited t = same_type t length_delimited

-- The body of the loop of `encode_message`.
encode_checked : Option FieldDescriptor → FieldValue → Write
encode_checked none f = refuse internal_error "unknown field id in encode_message"
encode_checked (some d) f =
    if not (same_type d.wire_type f.wire_type)
    then refuse internal_error "wire type mismatch in encode_message"
    else if is_delimited d.wire_type
        && (wants_string d.preferred_kind && not (wants_string f.value.kind))
    then refuse internal_error "length-delimited field expects string"
    else if is_delimited d.wire_type
        && (wants_bytes d.preferred_kind && not (wants_bytes f.value.kind))
    then refuse internal_error "length-delimited field expects bytes"
    else encode_value f

unfoldable pub encode_message : List FieldDescriptor → List FieldValue → Write
unfolding encode_checked
encode_message fields [] buffer = (ok tt, buffer)
encode_message fields (f ∷ values) buffer =
    (encode_checked (find_field fields f.id) f and_then encode_message fields values) buffer

-- The first loop of `decode_message`: the views, and `view` as the loop leaves it. Every round but
-- the last takes bytes from the source.
pub read_views : ℕ → FieldView → SpanSource → Result (List FieldView × FieldView)
read_views zero view s = fault out_of_fuel
read_views (suc fuel) view s = do
  n ← next view s
  let rest = read_views fuel n.view n.source
  if n.found then (rest >>= λ p. ok (n.view ∷ p.0, p.1)) else ok ([], n.view)

-- Reading through a span. Clearing the scratch buffer invalidates the spans into it.
span_bytes : ℕ → Span → Result (List ℕ)
span_bytes live (in_payload bytes) = ok bytes
span_bytes live (in_scratch n bytes) = if n == live then ok bytes else fault dangling_span

fixed32_value : List ℕ → Result Value
fixed32_value bytes =
    if not (length bytes == 4)
    then unexpected_result transport_error "fixed32 length mismatch"
    else ok (make_unsigned v)
  where
    at : ℕ → ℕ
    at i = get_or bytes i 0

    v : ℕ
    v =
        bit_or
          (bit_or (bit_or (at 0 * 2 ^ 24 % 2 ^ 32) (at 1 * 2 ^ 16 % 2 ^ 32))
            (at 2 * 2 ^ 8 % 2 ^ 32))
          (at 3)

fixed64_from_bytes : ℕ → List ℕ → ℕ
fixed64_from_bytes v [] = v
fixed64_from_bytes v (byte ∷ bytes) = fixed64_from_bytes (bit_or (v * 2 ^ 8 % 2 ^ 64) byte) bytes

fixed64_value : List ℕ → Result Value
unfolding fixed64_from_bytes
fixed64_value bytes =
    if not (length bytes == 8)
    then unexpected_result transport_error "fixed64 length mismatch"
    else ok (make_unsigned (fixed64_from_bytes 0 bytes))

-- The `switch` on the wire type of a view, for the descriptor of its field.
decode_value : ℕ → FieldDescriptor → WireType → Span → Result Value
unfolding span_bytes fixed32_value fixed64_value
decode_value live d varint s = do
  bytes ← span_bytes live s
  v ← decode_varint bytes
  ok (make_unsigned v)
decode_value live d zigzag_varint s = do
  bytes ← span_bytes live s
  v ← decode_zigzag bytes
  ok (make_signed v)
decode_value live d fixed32 s = span_bytes live s >>= fixed32_value
decode_value live d fixed64 s = span_bytes live s >>= fixed64_value
decode_value live d length_delimited s = do
  bytes ← span_bytes live s
  ok (if wants_string d.preferred_kind then make_string bytes else make_bytes bytes)
decode_value live d capability s =
    unexpected_result unimplemented "capability decoding not implemented"
decode_value live d (other_type b) s = ok default_value

-- The second loop of `decode_message`.
pub decode_views : ℕ → List FieldDescriptor → List FieldView → Result (List FieldValue)
unfolding decode_value
decode_views live fields [] = ok []
decode_views live fields (view ∷ views) =
    let rest = decode_views live fields views in
    elim (find_field fields view.id) [
      | none ↦ rest
      | some d ↦ (do
        v ← decode_value live d view.wire_type view.bytes
        values ← rest
        ok (record { id = view.id; wire_type = view.wire_type; value = v } ∷ values))
    ]

has_value : ℕ → List FieldValue → Bool
has_value id [] = false
has_value id (v ∷ values) = v.id == id || has_value id values

unfoldable pub all_present : List FieldDescriptor → List FieldValue → Bool
unfolding has_value
all_present [] values = true
all_present (field ∷ fields) values =
    (field.is_optional || has_value field.id values) && all_present fields values

abbrev new_view : FieldView
new_view = record { id = 0; wire_type = varint; bytes = in_payload []; scratch_use = 0 }

unfoldable pub decode_message : List FieldDescriptor → SpanSource → Result (List FieldValue)
unfolding read_views decode_views all_present
decode_message fields s = do
  (views, view) ← read_views (suc (length s.bytes)) new_view s
  values ← decode_views view.scratch_use fields views
  if all_present fields values
      then ok values
      else unexpected_result transport_error "missing required field"

-- The first loop of `validate_fields`: the ids seen.
check_views : List FieldDescriptor → List FieldView → Result (List ℕ)
check_views fields [] = ok []
check_views fields (view ∷ views) =
    let rest = check_views fields views in
    elim (find_field fields view.id) [
      | none ↦ rest
      | some d ↦
          if not (same_type d.wire_type view.wire_type)
          then unexpected_result transport_error "wire type mismatch during validation"
          else (rest >>= λ seen. ok (view.id ∷ seen))
    ]

is_seen : ℕ → List ℕ → Bool
is_seen id [] = false
is_seen id (i ∷ seen) = i == id || is_seen id seen

required_seen : List FieldDescriptor → List ℕ → Bool
unfolding is_seen
required_seen [] seen = true
required_seen (field ∷ fields) seen =
    (field.is_optional || is_seen field.id seen) && required_seen fields seen

unfoldable pub validate_fields : List FieldDescriptor → List FieldView → Result (Unit {0})
unfolding check_views required_seen
validate_fields fields views = do
  seen ← check_views fields views
  if required_seen fields seen
      then ok tt
      else unexpected_result transport_error "missing required field"
