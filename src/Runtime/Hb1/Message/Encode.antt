-- ===== src/Runtime/Hb1/Message/Encode.antt =====
-- What `encode_message` writes for values that fit their descriptors.
use hasten.Common.{
  ℕ, ◌%◌, ◌^◌, ◌≡◌, refl, List, [], ◌∷◌, ◌++◌, append-nil, false, some, IsU32, arith,
}
use hasten.Runtime.Hb1.{ValueKind, string_kind, FieldValue, FieldDescriptor}
use hasten.Runtime.Hb1.Datum.{
  Datum, number, signed, word32, word64, text, blob, type_of, InRange, field_bytes, field_of,
  Writes, and_then-Writes, write_datum, write_datum-Writes,
}
use hasten.Runtime.Hb1.Message.{
  find_field, wants_string, encode_value, encode_checked, encode_message,
}

-- A message: field ids with their values.
abbrev pub Item : Type 0
Item = ℕ × Datum

abbrev pub values_of : List Item → List FieldValue
values_of [] = []
values_of ((id, x) ∷ items) = field_of id x ∷ values_of items

abbrev pub bytes_of : List Item → List ℕ
bytes_of [] = []
bytes_of ((id, x) ∷ items) = field_bytes id x ++ bytes_of items

-- The descriptor asks for a string exactly where the value is one.
abbrev pub KindFits : ValueKind → Datum → Type 0
KindFits k (text s) = k ≡ string_kind
KindFits k (blob s) = wants_string k ≡ false
KindFits k _ = Unit {0}

-- The message's description has a field for the item.
pub record Describes (fields : List FieldDescriptor) (id : ℕ) (x : Datum) : Type 0 where
  pub descriptor : FieldDescriptor
  pub at_id : find_field fields id ≡ some descriptor
  pub right_type : descriptor.wire_type ≡ type_of x
  pub right_kind : KindFits descriptor.preferred_kind x
  pub id_u32 : IsU32 id
  pub in_range : InRange x

abbrev pub Described : List FieldDescriptor → List Item → Type 0
Described fields [] = Unit {0}
Described fields ((id, x) ∷ items) = Describes fields id x × Described fields items

encode_value-write_datum :
    (id : ℕ) (x : Datum) → InRange x → encode_value (field_of id x) ≡ write_datum id x
unfolding encode_value
encode_value-write_datum id (number v) h = refl
encode_value-write_datum id (signed v) h = refl
encode_value-write_datum id (word32 v) h = let same : v % 2 ^ 32 ≡ v = omega arith in rw same refl
encode_value-write_datum id (word64 v) h = refl
encode_value-write_datum id (text s) h = refl
encode_value-write_datum id (blob s) h = refl

-- The checks pass.
checks_pass :
    (d : FieldDescriptor) (id : ℕ) (x : Datum)
    → d.wire_type ≡ type_of x
    → KindFits d.preferred_kind x
    → encode_checked (some d) (field_of id x) ≡ encode_value (field_of id x)
unfolding encode_checked
checks_pass d id (number v) e k = rw e refl
checks_pass d id (signed v) e k = rw e refl
checks_pass d id (word32 v) e k = rw e refl
checks_pass d id (word64 v) e k = rw e refl
checks_pass d id (text s) e k = rw (e, k) refl
checks_pass d id (blob s) e k = ground arith

-- Values that fit their descriptors are written one behind the other, and nothing else is.
pub encode_message-Writes :
    (fields : List FieldDescriptor) (items : List Item)
    → Described fields items
    → Writes (encode_message fields (values_of items)) (bytes_of items)
unfolding encode_message
encode_message-Writes fields [] h buffer = rw append-nil refl
encode_message-Writes fields ((id, x) ∷ items) (d, ds) buffer =
    rw
      (
        d.at_id,
        checks_pass d.descriptor id x d.right_type d.right_kind,
        encode_value-write_datum id x d.in_range,
      )
      (and_then-Writes (write_datum id x) (encode_message fields (values_of items))
        (field_bytes id x) (bytes_of items) (write_datum-Writes id x)
        (encode_message-Writes fields items ds) buffer)
