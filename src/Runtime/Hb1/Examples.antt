-- ===== src/Runtime/Hb1/Examples.antt =====
-- Messages of one to three fields, and the theorems at them.
use hasten.Common.{arith, ◌++◌, ◌≡◌, refl, List, [], ◌∷◌, true, false}
use hasten.Runtime.Result.{ok, fault, dangling_span, Ensures}
use hasten.Runtime.Varint.{encode_varint}
use hasten.Runtime.Payload.{append, ◌and_then◌, source_of, read, empty}
use hasten.Runtime.Payload.Laws.{source_at}
use hasten.Runtime.Hb1.{
  varint, zigzag_varint, length_delimited, unsigned_kind, string_kind, make_unsigned, make_signed,
  make_string, FieldView, in_payload, FieldValue, FieldDescriptor,
}
use hasten.Runtime.Hb1.Writer.{
  write_varint, zigzag, write_zigzag, write_tag, write_field_varint, write_field_svarint,
  write_field_bytes, write_field_string,
}
use hasten.Runtime.Hb1.Reader.{read_varint, next, decode_varint, unzigzag, decode_zigzag}
use hasten.Runtime.Hb1.Message.{
  all_present, find_field, encode_value, encode_message, decode_message,
}
use hasten.Runtime.Hb1.Datum.{number, signed, text, field_bytes}
use hasten.Runtime.Hb1.Message.Encode.{Item, values_of, bytes_of, Described, encode_message-Writes}
use hasten.Runtime.Hb1.Message.RoundTrip.{decode_message-encode_message, decode_message_stale}
use hasten.Runtime.Hb1.Message.Total.{decode_message-total}
use hasten.Runtime.Hb1.Zigzag.{unzigzag-zigzag, zigzag_magnitude}
use hasten.Runtime.Hb1.Reader.Fields.{next-field_bytes, view_of}

abbrev count_field : FieldDescriptor
count_field = record {
  id = 1;
  wire_type = varint;
  is_optional = false;
  preferred_kind = unsigned_kind;
}

abbrev balance_field : FieldDescriptor
balance_field = record {
  id = 2;
  wire_type = zigzag_varint;
  is_optional = false;
  preferred_kind = unsigned_kind;
}

abbrev label_field : FieldDescriptor
label_field = record {
  id = 3;
  wire_type = length_delimited;
  is_optional = true;
  preferred_kind = string_kind;
}

abbrev descriptor : List FieldDescriptor
descriptor = count_field ∷ balance_field ∷ label_field ∷ []

-- The values of the repository's round-trip test: both numbers are written as the byte 17.
abbrev values : List FieldValue
values =
    record { id = 1; wire_type = varint; value = make_unsigned 17 }
    ∷ record { id = 2; wire_type = zigzag_varint; value = make_signed (0xffff_ffff_ffff_fff7) }
    ∷ record { id = 3; wire_type = length_delimited; value = make_string (0x68 ∷ 0x69 ∷ []) }
    ∷ []

encoded :
    encode_message descriptor values []
    ≡ (ok tt, 1 ∷ 0 ∷ 17 ∷ 2 ∷ 1 ∷ 17 ∷ 3 ∷ 4 ∷ 2 ∷ 0x68 ∷ 0x69 ∷ [])
unfolding encode_message encode_value find_field write_field_varint write_field_svarint
    write_field_string write_field_bytes write_tag write_zigzag zigzag write_varint append
    ◌and_then◌ encode_varint
encoded = refl

stale_span :
    decode_message descriptor (source_of (1 ∷ 0 ∷ 17 ∷ 2 ∷ 1 ∷ 17 ∷ 3 ∷ 4 ∷ 2 ∷ 0x68 ∷ 0x69 ∷ []))
    ≡ fault dangling_span
unfolding decode_message find_field next read_varint decode_varint decode_zigzag unzigzag read empty
stale_span = refl

abbrev items : List Item
items = (1, number 17) ∷ (2, signed 0xffff_ffff_ffff_fff7) ∷ (3, text (0x68 ∷ 0x69 ∷ [])) ∷ []

items-Described : Described descriptor items
unfolding find_field
items-Described = (
  record {
    descriptor = count_field;
    at_id = refl;
    right_type = refl;
    right_kind = tt;
    id_u32 = omega arith;
    in_range = omega arith;
  },
  (
    record {
      descriptor = balance_field;
      at_id = refl;
      right_type = refl;
      right_kind = tt;
      id_u32 = omega arith;
      in_range = omega arith;
    },
    (
      record {
        descriptor = label_field;
        at_id = refl;
        right_type = refl;
        right_kind = refl;
        id_u32 = omega arith;
        in_range = omega arith;
      },
      tt,
    ),
  ),
)

-- A text, and a number behind it.
abbrev note_fields : List FieldDescriptor
note_fields = label_field ∷ count_field ∷ []

abbrev note : List Item
note = (3, text (0x68 ∷ 0x69 ∷ [])) ∷ (1, number 300) ∷ []

note-Described : Described note_fields note
unfolding find_field
note-Described = (
  record {
    descriptor = label_field;
    at_id = refl;
    right_type = refl;
    right_kind = refl;
    id_u32 = omega arith;
    in_range = omega arith;
  },
  (
    record {
      descriptor = count_field;
      at_id = refl;
      right_type = refl;
      right_kind = tt;
      id_u32 = omega arith;
      in_range = omega arith;
    },
    tt,
  ),
)

note_bytes : bytes_of note ≡ 3 ∷ 4 ∷ 2 ∷ 0x68 ∷ 0x69 ∷ 1 ∷ 0 ∷ 0xac ∷ 2 ∷ []
unfolding encode_varint
note_bytes = refl

items_bytes : bytes_of items ≡ 1 ∷ 0 ∷ 17 ∷ 2 ∷ 1 ∷ 17 ∷ 3 ∷ 4 ∷ 2 ∷ 0x68 ∷ 0x69 ∷ []
unfolding encode_varint zigzag
items_bytes = refl

note_present : all_present note_fields (values_of note) ≡ true
unfolding all_present
note_present = refl

items_present : all_present descriptor (values_of items) ≡ true
unfolding all_present
items_present = refl

decode_message-encode_message_example :
    ((encode_message note_fields (values_of note) []).0 ≡ ok tt)
    × (decode_message note_fields (source_of (encode_message note_fields (values_of note) []).1)
        ≡ ok (values_of note))
decode_message-encode_message_example =
    decode_message-encode_message note_fields note note-Described note_present
      (rw note_bytes (omega arith)) refl

decode_message_stale_example :
    ((encode_message descriptor (values_of items) []).0 ≡ ok tt)
    × (decode_message descriptor (source_of (encode_message descriptor (values_of items) []).1)
        ≡ fault dangling_span)
decode_message_stale_example =
    decode_message_stale descriptor items items-Described items_present
      (rw items_bytes (omega arith)) refl

decode_message-total_example :
    Ensures (λ v. Unit {0}) (decode_message note_fields (source_of (3 ∷ 4 ∷ 200 ∷ [])))
decode_message-total_example = decode_message-total note_fields (3 ∷ 4 ∷ 200 ∷ [])

encode_message-Writes_example :
    encode_message note_fields (values_of note) (7 ∷ []) ≡ (ok tt, 7 ∷ bytes_of note)
encode_message-Writes_example = encode_message-Writes note_fields note note-Described (7 ∷ [])

unzigzag-zigzag_example :
    (unzigzag (zigzag 0xffff_ffff_ffff_fff7) ≡ 0xffff_ffff_ffff_fff7)
    × (zigzag (unzigzag 0xffff_ffff_ffff_fff7) ≡ 0xffff_ffff_ffff_fff7)
unzigzag-zigzag_example = unzigzag-zigzag 0xffff_ffff_ffff_fff7 (omega arith)

zigzag_codes : (zigzag 8 ≡ 16) × (zigzag 0xffff_ffff_ffff_fff7 ≡ 17)
zigzag_codes = zigzag_magnitude 8 (omega arith)

few : field_bytes 1 (number 300) ≡ 1 ∷ 0 ∷ 0xac ∷ 2 ∷ []
unfolding encode_varint
few = refl

abbrev two_fields : FieldView
two_fields = record { id = 0; wire_type = varint; bytes = in_payload []; scratch_use = 4 }

next-field_bytes_example :
    next two_fields (source_at (9 ∷ []) (field_bytes 1 (number 300) ++ (5 ∷ [])))
    ≡ ok (record {
      found = true;
      view = view_of 5 1 (number 300);
      source = source_at (9 ∷ field_bytes 1 (number 300)) (5 ∷ []);
    })
next-field_bytes_example =
    next-field_bytes two_fields 1 (number 300) (9 ∷ []) (5 ∷ []) (omega arith) (omega arith)
      (rw few (omega arith))
