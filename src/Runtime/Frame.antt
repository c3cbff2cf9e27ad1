-- ===== src/Runtime/Frame.antt =====
-- src/runtime/frame.cpp and include/hasten/runtime/frame.hpp: the 24-byte frame header.
-- The writes to the buffer cover it from its first byte on, so it is the list of what is written.
pub mod Crc
pub mod Endian
pub mod RoundTrip
pub mod Corruption
mod Examples
use hasten.Common.{
  ℕ, List, ◌∷◌, ◌++◌, not, Option, none, some, ◌==◌, if◌then◌else◌, get_or, take, drop, IsByte,
  IsU32, IsU64,
}
use hasten.Runtime.Result.{Result, ok, ◌>>=◌, unexpected_result, transport_error}
use Crc.{crc32}
use Endian.{write_be16, write_be32, write_be64, read_be16, read_be32, read_be64}

abbrev pub frame_header_size : ℕ
frame_header_size = 24

pub data FrameType : Type 0 where
  data_frame settings goodbye ping cancel error : FrameType

-- The enum's `uint8_t` values.
abbrev pub type_byte : FrameType → ℕ
type_byte data_frame = 0
type_byte settings = 1
type_byte goodbye = 2
type_byte ping = 3
type_byte cancel = 4
type_byte error = 5

-- `valid_frame_type` and the cast that follows it.
unfoldable pub frame_type? : ℕ → Option FrameType
frame_type? value =
    if value == 0
    then some data_frame
    else if value == 1
    then some settings
    else if value == 2
    then some goodbye
    else if value == 3
    then some ping
    else if value == 4
    then some cancel
    else if value == 5
    then some error
    else none

abbrev pub end_stream : ℕ
end_stream = 1

pub record FrameHeader : Type 0 where
  pub magic : ℕ  -- uint32_t
  pub version : ℕ  -- uint16_t
  pub type : FrameType
  pub flags : ℕ  -- uint8_t
  pub length : ℕ  -- uint32_t
  pub stream_id : ℕ  -- uint64_t
  pub header_crc : ℕ  -- uint32_t

abbrev pub header_magic : ℕ
header_magic = 0x48425331

abbrev pub header_version : ℕ
header_version = 1

-- The members' default values.
abbrev pub new_header : FrameHeader
new_header = record {
  magic = header_magic;
  version = header_version;
  type = data_frame;
  flags = 0;
  length = 0;
  stream_id = 0;
  header_crc = 0;
}

pub record Frame : Type 0 where
  pub header : FrameHeader
  pub payload : List ℕ

-- The bytes before the checksum.
unfoldable pub header_prefix : FrameHeader → List ℕ
header_prefix header =
    write_be32 header_magic
    ++ (write_be16 header_version
        ++ (type_byte header.type
            ∷ header.flags
            ∷ (write_be32 header.length ++ write_be64 header.stream_id)))

unfoldable pub encode_header : FrameHeader → Result (List ℕ)
encode_header header = let fields = header_prefix header in ok (fields ++ write_be32 (crc32 fields))

-- The checks after the type byte.
decode_rest : List ℕ → ℕ → ℕ → FrameType → Result FrameHeader
decode_rest buffer magic version type =
    let header_crc = read_be32 (drop 20 buffer) in
    if crc32 (take 20 buffer) == header_crc
    then ok (record {
      magic = magic;
      version = version;
      type = type;
      flags = get_or buffer 7 0;
      length = read_be32 (drop 8 buffer);
      stream_id = read_be64 (drop 12 buffer);
      header_crc = header_crc;
    })
    else unexpected_result transport_error "frame header crc mismatch"

decode_typed : List ℕ → ℕ → ℕ → Option FrameType → Result FrameHeader
decode_typed buffer magic version none = unexpected_result transport_error "unknown frame type"
decode_typed buffer magic version (some type) = decode_rest buffer magic version type

-- The buffer is a span of 24 bytes.
unfoldable pub decode_header : List ℕ → Result FrameHeader
unfolding decode_typed decode_rest
decode_header buffer =
    let magic = read_be32 buffer in
    let version = read_be16 (drop 4 buffer) in
    if not (magic == header_magic)
    then unexpected_result transport_error "invalid frame magic"
    else if not (version == header_version)
    then unexpected_result transport_error "unsupported frame version"
    else decode_typed buffer magic version (frame_type? (get_or buffer 6 0))

-- The members hold machine integers.
pub record IsHeader (h : FrameHeader) : Type 0 where
  pub flags_byte : IsByte h.flags
  pub length_u32 : IsU32 h.length
  pub stream_u64 : IsU64 h.stream_id

-- What the encoder puts in place of the header's own magic, version and checksum.
abbrev pub sent : FrameHeader → FrameHeader
sent h = record h {
  magic = header_magic;
  version = header_version;
  header_crc = crc32 (header_prefix h);
}
