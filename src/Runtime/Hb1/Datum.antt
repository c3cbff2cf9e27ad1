-- ===== src/Runtime/Hb1/Datum.antt =====
-- The values that the HB1 writer writes, one case for each pair of wire type and kind that it
-- takes, and the bytes that it writes for them.
use hasten.Common.{ℕ, ◌≡◌, refl, ◌∙◌, List, [], ◌∷◌, ◌++◌, append_assoc, length, IsU32, IsU64}
use hasten.Runtime.Result.{ok}
use hasten.Runtime.Varint.{encode_varint}
use hasten.Runtime.Payload.{Write, append, ◌and_then◌}
use hasten.Runtime.Hb1.{
  WireType, varint, zigzag_varint, fixed32, fixed64, length_delimited, wire_byte, Value,
  make_unsigned, make_signed, make_string, make_bytes, FieldValue,
}
use hasten.Runtime.Hb1.Writer.{
  write_varint, zigzag, write_zigzag, write_tag, write_field_varint, write_field_svarint,
  fixed32_bytes, write_field_fixed32, fixed64_bytes, write_field_fixed64, write_field_bytes,
  write_field_string,
}

pub data Datum : Type 0 where
  number signed word32 word64 : ℕ → Datum
  text blob : List ℕ → Datum

abbrev pub type_of : Datum → WireType
type_of (number v) = varint
type_of (signed v) = zigzag_varint
type_of (word32 v) = fixed32
type_of (word64 v) = fixed64
type_of (text s) = length_delimited
type_of (blob s) = length_delimited

abbrev pub value_of : Datum → Value
value_of (number v) = make_unsigned v
value_of (signed v) = make_signed v
value_of (word32 v) = make_unsigned v
value_of (word64 v) = make_unsigned v
value_of (text s) = make_string s
value_of (blob s) = make_bytes s

abbrev pub InRange : Datum → Type 0
InRange (number v) = IsU64 v
InRange (signed v) = IsU64 v
InRange (word32 v) = IsU32 v
InRange (word64 v) = IsU64 v
InRange (text s) = IsU64 (length s)
InRange (blob s) = IsU64 (length s)

-- The bytes behind the tag and the type.
abbrev pub payload : Datum → List ℕ
payload (number v) = encode_varint v
payload (signed v) = encode_varint (zigzag v)
payload (word32 v) = fixed32_bytes v
payload (word64 v) = fixed64_bytes v
payload (text s) = encode_varint (length s) ++ s
payload (blob s) = encode_varint (length s) ++ s

abbrev pub tag_bytes : ℕ → WireType → List ℕ
tag_bytes id t = encode_varint id ++ (wire_byte t ∷ [])

abbrev pub field_bytes : ℕ → Datum → List ℕ
field_bytes id x = tag_bytes id (type_of x) ++ payload x

abbrev pub field_of : ℕ → Datum → FieldValue
field_of id x = record { id = id; wire_type = type_of x; value = value_of x }

-- A step that succeeds and appends the bytes.
abbrev pub Writes : Write → List ℕ → Type 0
Writes w bytes = (buffer : List ℕ) → w buffer ≡ (ok tt, buffer ++ bytes)

append-Writes : (bytes : List ℕ) → Writes (append bytes) bytes
unfolding append
append-Writes bytes buffer = refl

pub and_then-Writes :
    (a b : Write) (xs ys : List ℕ) → Writes a xs → Writes b ys → Writes (a and_then b) (xs ++ ys)
unfolding ◌and_then◌
and_then-Writes a b xs ys p q buffer =
    rw (p buffer) (q (buffer ++ xs) ∙ rw (append_assoc buffer xs ys) refl)

write_varint-Writes : (v : ℕ) → Writes (write_varint v) (encode_varint v)
unfolding write_varint
write_varint-Writes v = append-Writes (encode_varint v)

write_tag-Writes : (id : ℕ) (t : WireType) → Writes (write_tag id t) (tag_bytes id t)
unfolding write_tag
write_tag-Writes id t =
    and_then-Writes (write_varint id) (append (wire_byte t ∷ [])) (encode_varint id)
      (wire_byte t ∷ []) (write_varint-Writes id) (append-Writes (wire_byte t ∷ []))

write_counted-Writes :
    (id : ℕ) (bytes : List ℕ)
    → Writes
        (write_field_bytes id bytes)
        (tag_bytes id length_delimited ++ (encode_varint (length bytes) ++ bytes))
unfolding write_field_bytes
write_counted-Writes id bytes =
    and_then-Writes (write_tag id length_delimited)
      (write_varint (length bytes) and_then append bytes) (tag_bytes id length_delimited)
      (encode_varint (length bytes) ++ bytes) (write_tag-Writes id length_delimited)
      (and_then-Writes (write_varint (length bytes)) (append bytes) (encode_varint (length bytes))
        bytes (write_varint-Writes (length bytes)) (append-Writes bytes))

-- The writer's own operation for a datum.
abbrev pub write_datum : ℕ → Datum → Write
write_datum id (number v) = write_field_varint id v
write_datum id (signed v) = write_field_svarint id v
write_datum id (word32 v) = write_field_fixed32 id v
write_datum id (word64 v) = write_field_fixed64 id v
write_datum id (text s) = write_field_string id s
write_datum id (blob s) = write_field_bytes id s

-- Each field operation of the writer succeeds and appends tag, wire type and payload.
pub write_datum-Writes : (id : ℕ) (x : Datum) → Writes (write_datum id x) (field_bytes id x)
unfolding write_field_varint write_field_svarint write_zigzag write_field_fixed32
    write_field_fixed64 write_field_string
write_datum-Writes id (number v) =
    and_then-Writes (write_tag id varint) (write_varint v) (tag_bytes id varint) (encode_varint v)
      (write_tag-Writes id varint) (write_varint-Writes v)
write_datum-Writes id (signed v) =
    and_then-Writes (write_tag id zigzag_varint) (write_varint (zigzag v))
      (tag_bytes id zigzag_varint) (encode_varint (zigzag v)) (write_tag-Writes id zigzag_varint)
      (write_varint-Writes (zigzag v))
write_datum-Writes id (word32 v) =
    and_then-Writes (write_tag id fixed32) (append (fixed32_bytes v)) (tag_bytes id fixed32)
      (fixed32_bytes v) (write_tag-Writes id fixed32) (append-Writes (fixed32_bytes v))
write_datum-Writes id (word64 v) =
    and_then-Writes (write_tag id fixed64) (append (fixed64_bytes v)) (tag_bytes id fixed64)
      (fixed64_bytes v) (write_tag-Writes id fixed64) (append-Writes (fixed64_bytes v))
write_datum-Writes id (text s) = write_counted-Writes id s
write_datum-Writes id (blob s) = write_counted-Writes id s
