-- ===== src/Runtime/Hb1/Writer.antt =====
-- The writer of src/runtime/serialization/hb1.cpp, over the sink that appends to a vector.
use hasten.Common.{
  ℕ, zero, suc, ◌+◌, ◌-◌, ◌*◌, ◌/◌, ◌%◌, ◌^◌, bit_and, bit_xor, List, [], ◌∷◌, length, ltb,
  if◌then◌else◌,
}
use hasten.Runtime.Varint.{encode_varint}
use hasten.Runtime.Payload.{Write, append, ◌and_then◌}
use hasten.Runtime.Hb1.{
  WireType, varint, zigzag_varint, fixed32, fixed64, length_delimited, wire_byte,
}

unfoldable pub write_varint : ℕ → Write
write_varint value = append (encode_varint value)

-- `value >> 63` of an int64_t is 0, or all ones for a negative number.
unfoldable pub sign_mask : ℕ → ℕ
sign_mask value = if ltb value (2 ^ 63) then 0 else 2 ^ 64 - 1

unfoldable pub zigzag : ℕ → ℕ
unfolding sign_mask
zigzag value = bit_xor (value * 2 % 2 ^ 64) (sign_mask value)

unfoldable pub write_zigzag : ℕ → Write
write_zigzag value = write_varint (zigzag value)

unfoldable pub write_tag : ℕ → WireType → Write
write_tag tag type = write_varint tag and_then append (wire_byte type ∷ [])

unfoldable pub write_field_varint : ℕ → ℕ → Write
write_field_varint tag value = write_tag tag varint and_then write_varint value

unfoldable pub write_field_svarint : ℕ → ℕ → Write
write_field_svarint tag value = write_tag tag zigzag_varint and_then write_zigzag value

-- `(value >> shift) & 0xFF`
abbrev byte_at : ℕ → ℕ → ℕ
byte_at value shift = bit_and (value / 2 ^ shift) 0xFF

unfoldable pub fixed32_bytes : ℕ → List ℕ
fixed32_bytes value =
    byte_at value 24 ∷ byte_at value 16 ∷ byte_at value 8 ∷ bit_and value 0xFF ∷ []

unfoldable pub write_field_fixed32 : ℕ → ℕ → Write
write_field_fixed32 tag value = write_tag tag fixed32 and_then append (fixed32_bytes value)

fixed64_from : ℕ → ℕ → ℕ → List ℕ
fixed64_from zero i value = []
fixed64_from (suc k) i value = byte_at value (56 - i * 8) ∷ fixed64_from k (i + 1) value

unfoldable pub fixed64_bytes : ℕ → List ℕ
unfolding fixed64_from
fixed64_bytes value = fixed64_from 8 0 value

unfoldable pub write_field_fixed64 : ℕ → ℕ → Write
write_field_fixed64 tag value = write_tag tag fixed64 and_then append (fixed64_bytes value)

unfoldable pub write_field_bytes : ℕ → List ℕ → Write
write_field_bytes tag bytes =
    write_tag tag length_delimited and_then write_varint (length bytes) and_then append bytes

unfoldable pub write_field_string : ℕ → List ℕ → Write
write_field_string tag value = write_field_bytes tag value
