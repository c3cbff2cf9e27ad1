-- ===== src/Runtime/Hb1/Reader.antt =====
-- The reader of src/runtime/serialization/hb1.cpp, over the source that reads from a span. The
-- callers give up at the first error, so an error carries no source.
pub mod Varints
pub mod Fields
pub mod Progress
use hasten.Common.{
  ℕ, zero, suc, ◌+◌, ◌-◌, ◌/◌, ◌%◌, ◌^◌, bit_and, bit_xor, List, [], ◌∷◌, Bool, true, false, ltb,
  ◌==◌, if◌then◌else◌, get_or,
}
use hasten.Runtime.Result.{
  Result, ok, fault, ◌>>=◌, oversized_shift, unexpected_result, transport_error,
}
use hasten.Runtime.Varint.{or_group}
use hasten.Runtime.Payload.{SpanSource, read, empty}
use hasten.Runtime.Hb1.{
  WireType, varint, zigzag_varint, fixed32, fixed64, length_delimited, capability, other_type,
  wire_type_of, Span, in_payload, in_scratch, FieldView,
}

abbrev pub max_varint_bytes : ℕ
max_varint_bytes = 10

-- The loop of `read_varint`, with the rounds that are left.
unfoldable pub read_varint_from : ℕ → ℕ → ℕ → SpanSource → Result (ℕ × SpanSource)
read_varint_from zero result shift s = unexpected_result transport_error "varint too long"
read_varint_from (suc k) result shift s =
    if empty s then unexpected_result transport_error "unexpected end of payload" else (do
      (byte_span, s') ← read s 1
      let byte = get_or byte_span 0 0
      let result' = or_group result byte shift
      let rest = read_varint_from k result' (shift + 7) s'
      if bit_and byte 0x80 == 0 then ok (result', s') else rest)

unfoldable pub read_varint : SpanSource → Result (ℕ × SpanSource)
unfolding read_varint_from
read_varint s = read_varint_from max_varint_bytes 0 0 s

-- The loop that copies a varint's bytes, with the rounds that are left: its buffer is cons'ed
-- behind it, and it ends at a byte without the top bit or with a full buffer.
pub raw_varint_from : ℕ → SpanSource → Result (List ℕ × SpanSource)
raw_varint_from zero s = unexpected_result transport_error "unterminated varint"
raw_varint_from (suc k) s = do
  (byte_span, s') ← read s 1
  let byte = get_or byte_span 0 0
  let rest = raw_varint_from k s'
  if bit_and byte 0x80 == 0 then ok (byte ∷ [], s') else (rest >>= λ p. ok (byte ∷ p.0, p.1))

-- A field with a length in front.
read_counted : SpanSource → Result (List ℕ × SpanSource)
read_counted s = do (size, s') ← read_varint s; read s' size

abbrev keep : Result (List ℕ × SpanSource) → Result (Span × SpanSource)
keep r = r >>= λ p. ok (in_payload p.0, p.1)

abbrev scratch : ℕ → Result (List ℕ × SpanSource) → Result (Span × SpanSource)
scratch n r = r >>= λ p. ok (in_scratch n p.0, p.1)

-- The `switch`, which has no case for a byte that is no wire type.
pub read_value : WireType → ℕ → SpanSource → Result (Span × SpanSource)
unfolding raw_varint_from read_counted
read_value varint n s = scratch n (raw_varint_from max_varint_bytes s)
read_value zigzag_varint n s = scratch n (raw_varint_from max_varint_bytes s)
read_value fixed32 n s = keep (read s 4)
read_value fixed64 n s = keep (read s 8)
read_value length_delimited n s = keep (read_counted s)
read_value capability n s = keep (read_counted s)
read_value (other_type b) n s = ok (in_payload [], s)

-- What a call of `next` gives: whether there was a field, the view and the source after it.
pub record Next : Type 0 where
  pub found : Bool
  pub view : FieldView
  pub source : SpanSource

next_field : FieldView → SpanSource → Result Next
unfolding read_value
next_field out s = do
  (tag, s1) ← read_varint s
  (type_data, s2) ← read s1 1
  let type = wire_type_of (get_or type_data 0 0)
  let use_count = out.scratch_use + 1
  (value, s3) ← read_value type use_count s2
  ok (record {
    found = true;
    view = record { id = tag % 2 ^ 32; wire_type = type; bytes = value; scratch_use = use_count };
    source = s3;
  })

-- `Reader::next`
unfoldable pub next : FieldView → SpanSource → Result Next
unfolding next_field
next out s =
    if empty s then ok (record { found = false; view = out; source = s }) else next_field out s

-- A shift by 64 or more is undefined.
pub decode_varint_from : ℕ → ℕ → List ℕ → Result ℕ
decode_varint_from result shift [] = unexpected_result transport_error "unterminated varint payload"
decode_varint_from result shift (byte ∷ bytes) =
    let result' = or_group result byte shift in
    let rest = decode_varint_from result' (shift + 7) bytes in
    if ltb shift 64
    then (if bit_and byte 0x80 == 0 then ok result' else rest)
    else fault oversized_shift

unfoldable pub decode_varint : List ℕ → Result ℕ
unfolding decode_varint_from
decode_varint bytes = decode_varint_from 0 0 bytes

-- `(value >> 1) ^ -(int64_t)(value & 1)`
unfoldable pub unzigzag : ℕ → ℕ
unzigzag value = bit_xor (value / 2) (if bit_and value 1 == 0 then 0 else 2 ^ 64 - 1)

unfoldable pub decode_zigzag : List ℕ → Result ℕ
decode_zigzag bytes = do value ← decode_varint bytes; ok (unzigzag value)

unfoldable pub decode_string : List ℕ → Result (List ℕ)
decode_string bytes = ok bytes
