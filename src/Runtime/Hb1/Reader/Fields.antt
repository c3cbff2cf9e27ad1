-- ===== src/Runtime/Hb1/Reader/Fields.antt =====
-- The reader on a field that the writer wrote.
use hasten.Common.{ℕ, ◌^◌, ◌<◌, ◌≡◌, refl, List, ◌++◌, append_assoc, length, IsU64}
use hasten.Runtime.Result.{ok}
use hasten.Runtime.Varint.{encode_varint}
use hasten.Runtime.Payload.Laws.{source_at, read_there}
use hasten.Runtime.Hb1.{Span, in_payload, in_scratch}
use hasten.Runtime.Hb1.Writer.{zigzag, fixed32_bytes, fixed64_bytes}
use hasten.Runtime.Hb1.Zigzag.{zigzag-IsU64}
use hasten.Runtime.Hb1.Datum.{
  Datum, number, signed, word32, word64, text, blob, type_of, InRange, payload,
}
use hasten.Runtime.Hb1.Reader.{read_counted, read_value}
use hasten.Runtime.Hb1.Reader.Varints.{read_varint-encode_varint, raw_varint-encode_varint}
use hasten.Common.{◌+◌, ◌%◌, [], ◌∷◌, length-append, IsU32, true, false, arith}
use hasten.Runtime.Hb1.{FieldView, wire_byte, wire_type_of}
use hasten.Runtime.Hb1.Datum.{field_bytes}
use hasten.Runtime.Hb1.Reader.{next, next_field}
use hasten.Runtime.Payload.{empty}

-- Where the reader finds the payload.
abbrev pub span_of : ℕ → Datum → Span
span_of n (number v) = in_scratch n (encode_varint v)
span_of n (signed v) = in_scratch n (encode_varint (zigzag v))
span_of n (word32 v) = in_payload (fixed32_bytes v)
span_of n (word64 v) = in_payload (fixed64_bytes v)
span_of n (text s) = in_payload s
span_of n (blob s) = in_payload s

read_counted_there :
    (s front rest : List ℕ)
    → IsU64 (length s)
    → length (front ++ ((encode_varint (length s) ++ s) ++ rest)) < 2 ^ 64
    → read_counted (source_at front ((encode_varint (length s) ++ s) ++ rest))
      ≡ ok (s, source_at (front ++ (encode_varint (length s) ++ s)) rest)
unfolding read_counted
read_counted_there s front rest h fits =
    let size = encode_varint (length s) in
    rw
      (
        append_assoc size s rest,
        read_varint-encode_varint (length s) front (s ++ rest) h
            (rw (append_assoc size s rest) at fits),
        read_there (front ++ size) s rest
            (rw (append_assoc front size (s ++ rest)) (rw (append_assoc size s rest) at fits)),
        append_assoc front size s,
      )
      refl

pub read_value_there :
    (n : ℕ) (x : Datum) (front rest : List ℕ)
    → InRange x
    → length (front ++ (payload x ++ rest)) < 2 ^ 64
    → read_value (type_of x) n (source_at front (payload x ++ rest))
      ≡ ok (span_of n x, source_at (front ++ payload x) rest)
unfolding read_value fixed32_bytes fixed64_bytes
read_value_there n (number v) front rest h fits =
    rw (raw_varint-encode_varint v front rest h fits) refl
read_value_there n (signed v) front rest h fits =
    rw (raw_varint-encode_varint (zigzag v) front rest (zigzag-IsU64 v h) fits) refl
read_value_there n (word32 v) front rest h fits =
    rw (read_there front (fixed32_bytes v) rest fits) refl
read_value_there n (word64 v) front rest h fits =
    rw (read_there front (fixed64_bytes v) rest fits) refl
read_value_there n (text s) front rest h fits = rw (read_counted_there s front rest h fits) refl
read_value_there n (blob s) front rest h fits = rw (read_counted_there s front rest h fits) refl

regroup :
    (tag : List ℕ) (b : ℕ) (p rest : List ℕ)
    → ((tag ++ (b ∷ [])) ++ p) ++ rest ≡ tag ++ (b ∷ (p ++ rest))
regroup tag b p rest = rw (append_assoc tag (b ∷ []) p, append_assoc tag (b ∷ p) rest) refl

nonempty-source_at :
    (front : List ℕ) (xs ys : List ℕ) (b : ℕ) → empty (source_at front (xs ++ (b ∷ ys))) ≡ false
unfolding empty
nonempty-source_at front xs ys b =
    ground (arith, length-append front (xs ++ (b ∷ ys)), length-append xs (b ∷ ys))

wire_type_of-type_of : (x : Datum) → wire_type_of (wire_byte (type_of x)) ≡ type_of x
wire_type_of-type_of (number v) = refl
wire_type_of-type_of (signed v) = refl
wire_type_of-type_of (word32 v) = refl
wire_type_of-type_of (word64 v) = refl
wire_type_of-type_of (text s) = refl
wire_type_of-type_of (blob s) = refl

-- The view of a field that was written, for the `n`-th use of the scratch buffer.
abbrev pub view_of : ℕ → ℕ → Datum → FieldView
view_of n id x = record { id = id; wire_type = type_of x; bytes = span_of n x; scratch_use = n }

-- Reading from where a field was written gives its id, its wire type and its payload, and leaves
-- what follows it.
pub next-field_bytes :
    (out : FieldView) (id : ℕ) (x : Datum) (front rest : List ℕ)
    → IsU32 id
    → InRange x
    → length (front ++ (field_bytes id x ++ rest)) < 2 ^ 64
    → next out (source_at front (field_bytes id x ++ rest))
      ≡ ok (record {
        found = true;
        view = view_of (out.scratch_use + 1) id x;
        source = source_at (front ++ field_bytes id x) rest;
      })
unfolding next next_field
next-field_bytes out id x front rest hid hx fits =
    let tag = encode_varint id in
    let b = wire_byte (type_of x) in
    let shape = regroup tag b (payload x) rest in
    let fits' = rw shape at fits in
    let fits'' : length ((front ++ tag) ++ (b ∷ (payload x ++ rest))) < 2 ^ 64 =
      rw (append_assoc front tag (b ∷ (payload x ++ rest))) fits' in
    let fits''' : length (((front ++ tag) ++ (b ∷ [])) ++ (payload x ++ rest)) < 2 ^ 64 =
      rw (append_assoc (front ++ tag) (b ∷ []) (payload x ++ rest)) fits'' in
    let same_id : id % 2 ^ 32 ≡ id = omega arith in
    rw
      (
        shape,
        nonempty-source_at front tag (payload x ++ rest) b,
        read_varint-encode_varint id front (b ∷ (payload x ++ rest)) (omega arith) fits',
        read_there (front ++ tag) (b ∷ []) (payload x ++ rest) fits'',
      )
      (rw
        (
          wire_type_of-type_of x,
          read_value_there (out.scratch_use + 1) x ((front ++ tag) ++ (b ∷ [])) rest hx fits''',
          same_id,
        )
        (rw (append_assoc front tag (b ∷ []), append_assoc front (tag ++ (b ∷ [])) (payload x))
          refl))
