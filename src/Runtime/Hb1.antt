-- ===== src/Runtime/Hb1.antt =====
-- src/runtime/include/hasten/runtime/serialization/hb1.hpp: the types of the HB1 encoding. A
-- signed number is its 64-bit pattern, and a string is its bytes.
pub mod Writer
pub mod Reader
pub mod Message
pub mod Zigzag
pub mod Datum
mod Examples
use hasten.Common.{ℕ, zero, suc, List, [], Bool}

pub data WireType : Type 0 where
  varint zigzag_varint fixed32 fixed64 length_delimited capability : WireType
  -- The enum has a byte below it, and a cast gives it any value.
  other_type : ℕ → WireType

abbrev pub wire_byte : WireType → ℕ
wire_byte varint = 0
wire_byte zigzag_varint = 1
wire_byte fixed32 = 2
wire_byte fixed64 = 3
wire_byte length_delimited = 4
wire_byte capability = 5
wire_byte (other_type b) = b

-- `static_cast<WireType>(byte)`
abbrev pub wire_type_of : ℕ → WireType
wire_type_of zero = varint
wire_type_of (suc zero) = zigzag_varint
wire_type_of (suc (suc zero)) = fixed32
wire_type_of (suc (suc (suc zero))) = fixed64
wire_type_of (suc (suc (suc (suc zero)))) = length_delimited
wire_type_of (suc (suc (suc (suc (suc zero))))) = capability
wire_type_of b = other_type b

-- Where the bytes of a field lie: in the payload, or in the scratch buffer of the view that was
-- read into, which stood at its `n`-th use then.
pub data Span : Type 0 where
  in_payload : List ℕ → Span
  in_scratch : ℕ → List ℕ → Span

pub record FieldView : Type 0 where
  pub id : ℕ  -- uint32_t
  pub wire_type : WireType
  pub bytes : Span
  pub scratch_use : ℕ  -- how often `scratch` was cleared

pub data ValueKind : Type 0 where
  unsigned_kind signed_kind string_kind bytes_kind : ValueKind

pub record Value : Type 0 where
  pub kind : ValueKind
  pub unsigned_value : ℕ  -- uint64_t
  pub signed_value : ℕ  -- the pattern of an int64_t
  pub text : List ℕ
  pub bytes : List ℕ

-- `Value out;`
abbrev pub default_value : Value
default_value = record {
  kind = unsigned_kind;
  unsigned_value = 0;
  signed_value = 0;
  text = [];
  bytes = [];
}

abbrev pub make_unsigned : ℕ → Value
make_unsigned v = record default_value { kind = unsigned_kind; unsigned_value = v }

abbrev pub make_signed : ℕ → Value
make_signed v = record default_value { kind = signed_kind; signed_value = v }

abbrev pub make_string : List ℕ → Value
make_string v = record default_value { kind = string_kind; text = v }

abbrev pub make_bytes : List ℕ → Value
make_bytes v = record default_value { kind = bytes_kind; bytes = v }

pub record FieldValue : Type 0 where
  pub id : ℕ  -- uint32_t
  pub wire_type : WireType
  pub value : Value

pub record FieldDescriptor : Type 0 where
  pub id : ℕ  -- uint32_t
  pub wire_type : WireType
  pub is_optional : Bool
  pub preferred_kind : ValueKind
