-- ===== src/Runtime/Frame/RoundTrip.antt =====
-- Encoding and decoding a frame header are inverse to one another.
use hasten.Common.{
  ℕ, ◌≡◌, refl, sym, ap, ◌∙◌, List, [], ◌∷◌, ◌++◌, some, length, get_or, take, drop, ◌<◌, All,
  All-get_or, All-take, All-drop, IsByte, arith,
}
use hasten.Runtime.Result.{ok, ◌>>=◌}
use hasten.Runtime.Frame.Crc.{crc32}
use hasten.Runtime.Frame.Crc.Laws.{crc32-IsU32}
use hasten.Runtime.Frame.Endian.{
  write_be16, write_be32, write_be64, read_be16, read_be32, read_be64,
}
use hasten.Runtime.Frame.Endian.Laws.{
  be16_round_trip, be32_round_trip, be64_round_trip, write_be16-read, write_be32-read,
  write_be64-read,
}
use hasten.Runtime.Frame.{
  FrameType, FrameHeader, type_byte, frame_type?, header_magic, header_version, header_prefix,
  encode_header, decode_header, IsHeader, sent,
}

frame_type?-type_byte : (t : FrameType) → frame_type? (type_byte t) ≡ some t
unfolding frame_type?
frame_type?-type_byte FrameType.data_frame = refl
frame_type?-type_byte _ = refl

type_byte-frame_type? : (b : ℕ) (t : FrameType) → frame_type? b ≡ some t → type_byte t ≡ b
unfolding frame_type?
type_byte-frame_type? b t e = ground arith

-- The header that the decoder builds from a buffer with type `t`.
abbrev header_of : List ℕ → FrameType → FrameHeader
header_of buffer t = record {
  magic = read_be32 buffer;
  version = read_be16 (drop 4 buffer);
  type = t;
  flags = get_or buffer 7 0;
  length = read_be32 (drop 8 buffer);
  stream_id = read_be64 (drop 12 buffer);
  header_crc = read_be32 (drop 20 buffer);
}

-- What a buffer must hold to be accepted.
pub record Accepts (buffer : List ℕ) (t : FrameType) : Type 0 where
  pub right_magic : read_be32 buffer ≡ header_magic
  pub right_version : read_be16 (drop 4 buffer) ≡ header_version
  pub known_type : frame_type? (get_or buffer 6 0) ≡ some t
  pub right_crc : crc32 (take 20 buffer) ≡ read_be32 (drop 20 buffer)

decode_of_accepts :
    (buffer : List ℕ) (t : FrameType)
    → Accepts buffer t
    → decode_header buffer ≡ ok (header_of buffer t)
unfolding decode_header
decode_of_accepts buffer t a = rw a.known_type (ground arith)

pub accepts_of_decode :
    (buffer : List ℕ) (h : FrameHeader)
    → decode_header buffer ≡ ok h
    → Accepts buffer h.type × (h ≡ header_of buffer h.type)
unfolding decode_header
accepts_of_decode buffer h e = ground arith

-- A header of machine integers, encoded and decoded again, comes back with the constants for magic
-- and version and the checksum of its first 20 bytes.
pub decode_header-encode_header :
    (h : FrameHeader) → IsHeader h → (encode_header h >>= decode_header) ≡ ok (sent h)
unfolding encode_header header_prefix write_be16 write_be32 write_be64
decode_header-encode_header h v =
    let crc : ℕ = crc32 (header_prefix h) in
    let crc_read : read_be32 (write_be32 crc ++ []) ≡ crc =
      be32_round_trip crc [] (crc32-IsU32 (header_prefix h)) in
    let after_stream : List ℕ = write_be32 crc in
    let after_length : List ℕ = write_be64 h.stream_id ++ after_stream in
    let after_version : List ℕ =
      type_byte h.type ∷ h.flags ∷ (write_be32 h.length ++ after_length) in
    let magic_read =
      be32_round_trip header_magic (write_be16 header_version ++ after_version) (omega arith) in
    let version_read = be16_round_trip header_version after_version (omega arith) in
    let length_read = be32_round_trip h.length after_length v.length_u32 in
    let stream_read = be64_round_trip h.stream_id after_stream v.stream_u64 in
    decode_of_accepts _ h.type (record {
      right_magic = magic_read;
      right_version = version_read;
      known_type = frame_type?-type_byte h.type;
      right_crc = sym crc_read;
    })
    ∙ cc (magic_read, version_read, length_read, stream_read, crc_read)

-- The decoder accepts nothing but what the encoder writes: a buffer of 24 bytes that decodes to a
-- header is the encoding of that header.
pub encode_header-decode_header :
    (buffer : List ℕ) (h : FrameHeader)
    → length buffer ≡ 24
    → All IsByte buffer
    → decode_header buffer ≡ ok h
    → encode_header h ≡ ok buffer
unfolding encode_header header_prefix
encode_header-decode_header
      (m0 ∷ m1 ∷ m2 ∷ m3 ∷ v0 ∷ v1 ∷ t ∷ f ∷ l0 ∷ l1 ∷ l2 ∷ l3 ∷ s0 ∷ s1 ∷ s2 ∷ s3 ∷ s4 ∷ s5 ∷ s6
        ∷ s7 ∷ c0 ∷ c1 ∷ c2 ∷ c3 ∷ [])
      h n p e =
    let buffer =
      m0 ∷ m1 ∷ m2 ∷ m3 ∷ v0 ∷ v1 ∷ t ∷ f ∷ l0 ∷ l1 ∷ l2 ∷ l3 ∷ s0 ∷ s1 ∷ s2 ∷ s3 ∷ s4 ∷ s5 ∷ s6
      ∷ s7 ∷ c0 ∷ c1 ∷ c2 ∷ c3 ∷ [] in
    let byte : (i : ℕ) → i < 24 → IsByte (get_or buffer i 0) =
      λ i below. All-get_or IsByte buffer i 0 p below in
    let (a, built) = accepts_of_decode _ h e in
    let magic_bytes =
      ap write_be32 (sym a.right_magic)
      ∙ write_be32-read m0 m1 m2 m3 _ (
        byte 0 (omega arith),
        byte 1 (omega arith),
        byte 2 (omega arith),
        byte 3 (omega arith),
      ) in
    let version_bytes =
      ap write_be16 (sym a.right_version)
      ∙ write_be16-read v0 v1 _ (byte 4 (omega arith), byte 5 (omega arith)) in
    let type_same = type_byte-frame_type? t h.type a.known_type in
    let flags_same = ap (λ (x : FrameHeader). x.flags) built in
    let length_bytes =
      ap (λ (x : FrameHeader). write_be32 x.length) built
      ∙ write_be32-read l0 l1 l2 l3 _ (
        byte 8 (omega arith),
        byte 9 (omega arith),
        byte 10 (omega arith),
        byte 11 (omega arith),
      ) in
    let stream_bytes =
      ap (λ (x : FrameHeader). write_be64 x.stream_id) built
      ∙ write_be64-read s0 s1 s2 s3 s4 s5 s6 s7 _
          (All-take IsByte 8 (drop 12 buffer) (All-drop IsByte 12 buffer p)) in
    let crc_bytes =
      ap write_be32 a.right_crc
      ∙ write_be32-read c0 c1 c2 c3 [] (
        byte 20 (omega arith),
        byte 21 (omega arith),
        byte 22 (omega arith),
        byte 23 (omega arith),
      ) in
    rw (magic_bytes, version_bytes, type_same, flags_same, length_bytes, stream_bytes)
      (rw crc_bytes refl)
encode_header-decode_header _ h n p e = absurd (omega arith)
