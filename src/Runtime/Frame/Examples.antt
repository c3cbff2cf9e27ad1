-- ===== src/Runtime/Frame/Examples.antt =====
-- One frame header, encoded and decoded, and the theorems at it.
use hasten.Common.{ℕ, ◌≡◌, refl, List, [], ◌∷◌, arith, take, drop}
use hasten.Runtime.Result.{Error, ok, err, ◌>>=◌, unexpected_result, transport_error}
use hasten.Runtime.Frame.Crc.{crc32, crc_step, crc32_for_byte, make_crc_table}
use hasten.Runtime.Frame.Endian.{
  write_be16, write_be32, write_be64, read_be16, read_be32, read_be64,
}
use hasten.Runtime.Frame.{
  FrameHeader, settings, new_header, frame_type?, header_prefix, encode_header, decode_header, sent,
}
use hasten.Runtime.Frame.RoundTrip.{decode_header-encode_header, encode_header-decode_header}
use hasten.Runtime.Frame.Corruption.{decode_header_byte_change}

abbrev sample_header : FrameHeader
sample_header = record new_header { type = settings; flags = 1; length = 258; stream_id = 7 }

abbrev sample_bytes : List ℕ
sample_bytes =
    0x48 ∷ 0x42 ∷ 0x53 ∷ 0x31 ∷ 0 ∷ 1 ∷ 1 ∷ 1 ∷ 0 ∷ 0 ∷ 1 ∷ 2 ∷ 0 ∷ 0 ∷ 0 ∷ 0 ∷ 0 ∷ 0 ∷ 0 ∷ 7 ∷ 0xdb
    ∷ 0xa6 ∷ 0x4a ∷ 0x13 ∷ []

-- The checksum of the nine ASCII digits; that of the usual CRC-32 is 0xCBF43926.
crc_of_digits :
    crc32 (0x31 ∷ 0x32 ∷ 0x33 ∷ 0x34 ∷ 0x35 ∷ 0x36 ∷ 0x37 ∷ 0x38 ∷ 0x39 ∷ []) ≡ 0xC6DD3518
unfolding crc32 crc_step make_crc_table crc32_for_byte
crc_of_digits = refl

encoded : encode_header sample_header ≡ ok sample_bytes
unfolding encode_header header_prefix write_be16 write_be32 write_be64 crc32 crc_step make_crc_table
    crc32_for_byte
encoded = refl

decoded : decode_header sample_bytes ≡ ok (sent sample_header)
unfolding decode_header header_prefix frame_type? read_be16 read_be32 read_be64 write_be16
    write_be32 write_be64 crc32 crc_step make_crc_table crc32_for_byte
decoded = refl

cut_version :
    decode_header (0x48 ∷ 0x42 ∷ 0x53 ∷ 0x31 ∷ 0 ∷ 2 ∷ [])
    ≡ unexpected_result transport_error "unsupported frame version"
unfolding decode_header read_be16 read_be32
cut_version = refl

decode_header-encode_header_example :
    (encode_header sample_header >>= decode_header) ≡ ok (sent sample_header)
decode_header-encode_header_example = decode_header-encode_header sample_header (omega arith)

encode_header-decode_header_example : encode_header (sent sample_header) ≡ ok sample_bytes
encode_header-decode_header_example =
    encode_header-decode_header sample_bytes (sent sample_header) refl (omega arith) decoded

-- The type byte 1 becomes 3: SETTINGS becomes PING.
decode_header_byte_change_example :
    (x : Error) × (decode_header (
        0x48 ∷ 0x42 ∷ 0x53 ∷ 0x31 ∷ 0 ∷ 1 ∷ 3 ∷ 1 ∷ 0 ∷ 0 ∷ 1 ∷ 2 ∷ 0 ∷ 0 ∷ 0 ∷ 0 ∷ 0 ∷ 0 ∷ 0 ∷ 7
        ∷ 0xdb ∷ 0xa6 ∷ 0x4a ∷ 0x13 ∷ [])
      ≡ err x)
decode_header_byte_change_example =
    decode_header_byte_change (take 6 sample_bytes) (drop 7 sample_bytes) 1 3 (sent sample_header)
      refl (omega arith) (omega arith) decoded (λ e. omega arith)
