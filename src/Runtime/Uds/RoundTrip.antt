-- ===== src/Runtime/Uds/RoundTrip.antt =====
-- A frame sent over one channel and received from another.
use hasten.Common.{
  String, ℕ, suc, ◌+◌, ◌≤◌, ◌≡◌, refl, subst, ◌∙◌, List, [], ◌∷◌, ◌++◌, append-nil, append_assoc,
  true, some, ltb, length, All, arith,
}
use hasten.Runtime.Result.{ok}
use hasten.Runtime.Frame.{Frame, FrameHeader, sent}
use hasten.Runtime.Uds.{
  PollCall, Kernel, Io, returns, UdsChannel, read_full, send, receive_payload, receive,
}
use hasten.Runtime.Uds.Writing
use hasten.Runtime.Uds.Serving.{read_full-Delivery}
use hasten.Runtime.Uds.Serving
use hasten.Runtime.Uds.Sending.{
  header_of, header_bytes, frame_bytes, Sendable, length-header_bytes, decode_header-header_bytes,
  header_of-IsHeader, send-frame_bytes,
}

-- The frame that arrives.
abbrev pub received : Frame → Frame
received frame = record { header = sent (header_of frame); payload = frame.payload }

-- The frame was received in at most so many rounds that read, and the bytes behind it were not.
pub record Received (frame : Frame) (after : List ℕ) (k : Kernel) (size : ℕ) (io : Io Frame)
    : Type 0 where
  pub rest : List PollCall
  pub rest_serves : All Serving.Serves rest
  pub enough_left : Serving.served k.polls ≤ Serving.served rest + size
  pub done : io ≡ returns (ok (received frame)) (record k { polls = rest; incoming = after })

module _ (message : ℕ → String) where
  payload_arrives :
      (frame : Frame) (after : List ℕ) (k : Kernel)
      → All Serving.Serves k.polls
      → length frame.payload ≤ Serving.served k.polls
      → k.incoming ≡ frame.payload ++ after
      → Received frame after k
          (length frame.payload)
          (receive_payload message (sent (header_of frame)) k)
  unfolding receive_payload
  payload_arrives frame after k h enough e =
      received_bytes frame.header frame.payload after k h enough e
    where
      received_bytes :
          (header : FrameHeader) (payload after : List ℕ) (k : Kernel)
          → All Serving.Serves k.polls
          → length payload ≤ Serving.served k.polls
          → k.incoming ≡ payload ++ after
          → let frame : Frame = record { header = header; payload = payload } in
            Received frame after k
              (length payload)
              (receive_payload message (sent (header_of frame)) k)
      received_bytes header [] after k h enough e = record {
        rest = k.polls;
        rest_serves = h;
        enough_left = omega arith;
        done = rw e refl;
      }
      received_bytes header (b ∷ payload) after k h enough e =
          let d = read_full-Delivery message k.polls (b ∷ payload) after [] k h enough e in
          let some : ltb 0 (suc (length payload)) ≡ true = ground arith in
          record {
            rest = d.rest;
            rest_serves = d.rest_serves;
            enough_left = d.enough_left;
            done = rw (some, d.done) refl;
          }

  -- On an open channel to which the bytes of a frame have come, and whose system serves as many
  -- rounds, the frame is received, and what follows it is left.
  pub receive-frame_bytes :
      (c : UdsChannel) (fd : ℕ) (frame : Frame) (after : List ℕ) (k : Kernel)
      → c.fd ≡ some fd
      → Sendable frame
      → All Serving.Serves k.polls
      → 24 + length frame.payload ≤ Serving.served k.polls
      → k.incoming ≡ frame_bytes frame ++ after
      → Received frame after k (24 + length frame.payload) (receive message c k)
  unfolding receive
  receive-frame_bytes c fd frame after k is_open s h enough e =
      let bytes = header_bytes (header_of frame) in
      let size = length-header_bytes (header_of frame) in
      let d =
        read_full-Delivery message k.polls bytes (frame.payload ++ after) [] k h
          (omega (arith, size, enough)) (e ∙ append_assoc bytes frame.payload after) in
      let k' = record k { polls = d.rest; incoming = frame.payload ++ after } in
      let header_read : read_full message k.polls 24 [] k ≡ returns (ok bytes) k' =
        subst (λ n. read_full message k.polls n [] k ≡ returns (ok bytes) k') size d.done in
      let p =
        payload_arrives frame after k' d.rest_serves (omega (arith, d.enough_left, size, enough))
          refl in
      record {
        rest = p.rest;
        rest_serves = p.rest_serves;
        enough_left = omega (arith, p.enough_left, d.enough_left, size);
        done =
            rw
              (
                is_open,
                header_read,
                decode_header-header_bytes (header_of frame) (header_of-IsHeader frame s),
                p.done,
              )
              refl;
      }

  -- Between two open channels, whose systems serve as many calls of write and as many rounds of
  -- reading as the frame has bytes, a frame with members in range that is sent first is received:
  -- with its payload, and with its header but for magic, version, length and checksum, which are
  -- the constants, the payload's length and the right checksum.
  pub receive-send :
      (a b : UdsChannel) (i j : ℕ) (frame : Frame) (k l : Kernel)
      → a.fd ≡ some i
      → b.fd ≡ some j
      → Sendable frame
      → All Writing.Serves k.writes
      → 24 + length frame.payload ≤ Writing.served k.writes
      → All Serving.Serves l.polls
      → 24 + length frame.payload ≤ Serving.served l.polls
      → k.sent ≡ []
      → (k' : Kernel) × (l' : Kernel) × (send message a frame k ≡ returns (ok tt) k')
        × (receive message b (record l { incoming = k'.sent }) ≡ returns (ok (received frame)) l')
  receive-send a b i j frame k l open_a open_b s hw enough hr rounds start =
      let gone = send-frame_bytes message a i frame k open_a s hw enough in
      let wire : k.sent ++ frame_bytes frame ≡ frame_bytes frame ++ [] =
        rw (start, append-nil (frame_bytes frame)) refl in
      let k' = record k { writes = gone.rest; sent = k.sent ++ frame_bytes frame } in
      let came =
        receive-frame_bytes b j frame [] (record l { incoming = k'.sent }) open_b s hr rounds
          wire in
      (k', record l { polls = came.rest; incoming = [] }, gone.done, came.done)
