-- ===== src/Runtime/Uds/Sending.antt =====
-- How a frame is sent: its header and its payload.
use hasten.Common.{
  String, ℕ, ◌+◌, ◌-◌, ◌%◌, ◌^◌, ◌≤◌, ◌≡◌, refl, ◌∙◌, List, [], ◌∷◌, ◌++◌, append-nil, append_assoc,
  false, some, ltb, length, length-append, All, IsByte, IsU64, IsU32, arith,
}
use hasten.Runtime.Result.{ok}
use hasten.Runtime.Frame.{
  Frame, FrameHeader, IsHeader, sent, header_prefix, encode_header, decode_header,
}
use hasten.Runtime.Frame.Crc.{crc32}
use hasten.Runtime.Frame.Endian.{write_be16, write_be32, write_be64}
use hasten.Runtime.Frame.RoundTrip.{decode_header-encode_header}
use hasten.Runtime.Uds.{Kernel, ◌on_ok◌, UdsChannel, write_full, send_payload, send}
use hasten.Runtime.Uds.Writing.{write_full-Delivery}
use hasten.Runtime.Uds.Writing

-- The header that `send` encodes.
abbrev pub header_of : Frame → FrameHeader
header_of frame = record frame.header { length = length frame.payload }

pub header_bytes : FrameHeader → List ℕ
header_bytes h = header_prefix h ++ write_be32 (crc32 (header_prefix h))

encode_header-header_bytes : (h : FrameHeader) → encode_header h ≡ ok (header_bytes h)
unfolding encode_header header_bytes
encode_header-header_bytes h = refl

pub length-header_bytes : (h : FrameHeader) → length (header_bytes h) ≡ 24
unfolding header_bytes header_prefix write_be16 write_be32 write_be64
length-header_bytes h = refl

pub decode_header-header_bytes :
    (h : FrameHeader) → IsHeader h → decode_header (header_bytes h) ≡ ok (sent h)
decode_header-header_bytes h v =
    rw (encode_header-header_bytes h) at (decode_header-encode_header h v)

-- The bytes of a frame on the way.
abbrev pub frame_bytes : Frame → List ℕ
frame_bytes frame = header_bytes (header_of frame) ++ frame.payload

pub length-frame_bytes : (frame : Frame) → length (frame_bytes frame) ≡ 24 + length frame.payload
length-frame_bytes frame = omega (
  arith,
  length-append (header_bytes (header_of frame)) frame.payload,
  length-header_bytes (header_of frame),
)

-- The members of a frame are machine integers, and its length is one.
pub record Sendable (frame : Frame) : Type 0 where
  pub flags_byte : IsByte frame.header.flags
  pub stream_u64 : IsU64 frame.header.stream_id
  pub small : IsU32 (length frame.payload)

pub header_of-IsHeader : (frame : Frame) → Sendable frame → IsHeader (header_of frame)
header_of-IsHeader frame s = record {
  flags_byte = s.flags_byte;
  length_u32 = s.small;
  stream_u64 = s.stream_u64;
}

module _ (message : ℕ → String) where
  sent_payload :
      (payload : List ℕ) (k : Kernel)
      → All Writing.Serves k.writes
      → length payload ≤ Writing.served k.writes
      → Writing.Delivery payload k k.writes (send_payload message payload k)
  unfolding send_payload
  sent_payload [] k h enough = record {
    rest = k.writes;
    rest_serves = h;
    enough_left = omega arith;
    done = rw (append-nil k.sent) refl;
  }
  sent_payload (b ∷ payload) k h enough =
      write_full-Delivery message k.writes (b ∷ payload) k h enough

  -- On an open channel, with a payload that is not too large, the header is written, then the
  -- payload.
  send_of_open :
      (c : UdsChannel) (fd : ℕ) (frame : Frame) (k : Kernel)
      → c.fd ≡ some fd
      → IsU32 (length frame.payload)
      → send message c frame k ≡ (
          write_full message k.writes (header_bytes (header_of frame)) k
          on_ok (λ done k2. send_payload message frame.payload k2))
  unfolding send
  send_of_open c fd frame k is_open small =
      let fits : ltb (2 ^ 32 - 1) (length frame.payload) ≡ false = ground (arith, small) in
      let same : length frame.payload % 2 ^ 32 ≡ length frame.payload = omega (arith, small) in
      rw (is_open, fits, same, encode_header-header_bytes (header_of frame)) refl

  -- On an open channel whose system serves as many calls as the frame has bytes, a frame is sent as
  -- its header and its payload.
  pub send-frame_bytes :
      (c : UdsChannel) (fd : ℕ) (frame : Frame) (k : Kernel)
      → c.fd ≡ some fd
      → Sendable frame
      → All Writing.Serves k.writes
      → 24 + length frame.payload ≤ Writing.served k.writes
      → Writing.Delivery (frame_bytes frame) k k.writes (send message c frame k)
  send-frame_bytes c fd frame k is_open s h enough =
      let bytes = header_bytes (header_of frame) in
      let size = length-header_bytes (header_of frame) in
      let d = write_full-Delivery message k.writes bytes k h (omega (arith, size, enough)) in
      let k' = record k { writes = d.rest; sent = k.sent ++ bytes } in
      let p =
        sent_payload frame.payload k' d.rest_serves (omega (arith, d.enough_left, size, enough)) in
      record {
        rest = p.rest;
        rest_serves = p.rest_serves;
        enough_left =
            omega (arith, p.enough_left, d.enough_left, length-append bytes frame.payload);
        done =
            send_of_open c fd frame k is_open s.small
            ∙ rw (d.done, p.done, append_assoc k.sent bytes frame.payload) refl;
      }
