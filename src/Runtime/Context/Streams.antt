-- ===== src/Runtime/Context/Streams.antt =====
-- Frames sent one after the other over a channel, and the loop of the session at the other end.
mod Examples
use hasten.Common.{
  String, ℕ, suc, ◌+◌, ◌≤◌, ◌≡◌, refl, sym, ap, ◌∙◌, List, [], ◌∷◌, ◌++◌, map, append-nil,
  append_assoc, true, Bool, some, length, All, arith,
}
use hasten.Runtime.Result.{ok}
use hasten.Runtime.Frame.{Frame}
use hasten.Runtime.Uds.{Kernel, Io, returns, ◌on_ok◌, UdsChannel, send, receive}
use hasten.Runtime.Uds.Writing
use hasten.Runtime.Uds.Serving
use hasten.Runtime.Uds.Sending.{frame_bytes, Sendable, length-frame_bytes, send-frame_bytes}
use hasten.Runtime.Uds.RoundTrip.{received, receive-frame_bytes}
use hasten.Runtime.Context.{Session, Context, QueuedFrame}
use hasten.Runtime.Context.Lifecycle.{enqueue_frame}
use hasten.Runtime.Context.Loop.{io_loop}

-- How many bytes frames take on the way, and the bytes.
abbrev pub stream_size : List Frame → ℕ
stream_size [] = 0
stream_size (frame ∷ frames) = 24 + length frame.payload + stream_size frames

stream_bytes : List Frame → List ℕ
stream_bytes [] = []
stream_bytes (frame ∷ frames) = frame_bytes frame ++ stream_bytes frames

abbrev pub queued_of : Session → Frame → QueuedFrame
queued_of s frame = record { session = s; frame = received frame }

module _ (message : ℕ → String) where
  -- One `send` after the other, up to the first that fails.
  unfoldable pub send_all : UdsChannel → List Frame → Kernel → Io (Unit {0})
  send_all c [] k = returns (ok tt) k
  send_all c (frame ∷ frames) k = send message c frame k on_ok (λ done k'. send_all c frames k')

  stream_sent :
      (c : UdsChannel) (fd : ℕ) (frames : List Frame) (k : Kernel)
      → c.fd ≡ some fd
      → All Sendable frames
      → All Writing.Serves k.writes
      → stream_size frames ≤ Writing.served k.writes
      → (k' : Kernel) × (send_all c frames k ≡ returns (ok tt) k')
        × (k'.sent ≡ k.sent ++ stream_bytes frames)
  unfolding send_all stream_bytes
  stream_sent c fd [] k is_open fit h enough = (k, refl, sym (append-nil k.sent))
  stream_sent c fd (frame ∷ frames) k is_open fit h enough =
      let d = send-frame_bytes message c fd frame k is_open fit.0 h (omega (arith, enough)) in
      let (k', rest, all) =
        stream_sent c fd frames (record k { writes = d.rest; sent = k.sent ++ frame_bytes frame })
          is_open fit.1 d.rest_serves
          (omega (arith, enough, d.enough_left, length-frame_bytes frame)) in
      (k', rw d.done rest, all ∙ append_assoc k.sent (frame_bytes frame) (stream_bytes frames))

  module _ {Handler Callback : Type 0} (running : ℕ → Bool) (s : Session) (channel : UdsChannel)
      (fd : ℕ) (runs : (n : ℕ) → running n ≡ true) (is_open : channel.fd ≡ some fd) where
    one_round :
        (fuel n : ℕ) (frame : Frame) (k k' : Kernel) (c : Context Handler Callback)
        → receive message channel k ≡ returns (ok (received frame)) k'
        → io_loop message running s channel (suc fuel) n k c
          ≡ io_loop message running s channel fuel (suc n) k' (enqueue_frame s (received frame) c)
    unfolding io_loop
    one_round fuel n frame k k' c came = rw (runs n, came, io_loop) refl

    stream_looped :
        (fuel n : ℕ) (frames : List Frame) (after : List ℕ) (k : Kernel)
        (c : Context Handler Callback)
        → All Sendable frames
        → All Serving.Serves k.polls
        → stream_size frames ≤ Serving.served k.polls
        → k.incoming ≡ stream_bytes frames ++ after
        → (k' : Kernel) × (k'.incoming ≡ after)
          × (io_loop message running s channel (length frames + fuel) n k c
              ≡ io_loop message running s channel fuel
                  (length frames + n)
                  k'
                  (record c { frame_queue = c.frame_queue ++ map (queued_of s) frames }))
    unfolding io_loop stream_bytes enqueue_frame
    stream_looped fuel n [] after k c fit h enough e =
        let none_fuel : 0 + fuel ≡ fuel = omega arith in
        let none_round : 0 + n ≡ n = omega arith in
        (k, e, rw (append-nil c.frame_queue, none_fuel, none_round) refl)
    stream_looped fuel n (frame ∷ frames) after k c fit h enough e =
        let rest = stream_bytes frames ++ after in
        let d =
          receive-frame_bytes message channel fd frame rest k is_open fit.0 h
            (omega (arith, enough))
            (e ∙ append_assoc (frame_bytes frame) (stream_bytes frames) after) in
        let (k', left, goes_on) =
          stream_looped fuel (suc n) frames after (record k { polls = d.rest; incoming = rest })
            (enqueue_frame s (received frame) c) fit.1 d.rest_serves
            (omega (arith, enough, d.enough_left)) refl in
        let next = length frames + suc n in
        let fueled : suc (length frames) + fuel ≡ suc (length frames + fuel) = omega arith in
        let later : next ≡ suc (length frames) + n = omega arith in
        let loop = io_loop message running s channel in
        let queue =
          append_assoc c.frame_queue (queued_of s frame ∷ []) (map (queued_of s) frames) in
        (
          k',
          left,
          ap (λ m. loop m n k c) fueled
              ∙ one_round (length frames + fuel) n frame k _ c d.done
              ∙ goes_on
              ∙ ap (λ q. loop fuel next k' (record c { frame_queue = q })) queue
              ∙ ap
                  (λ m. loop fuel m k' (record c {
                    frame_queue = c.frame_queue ++ map (queued_of s) (frame ∷ frames);
                  }))
                  later,
        )

    -- Frames with members in range that are sent one after the other over an open channel, whose
    -- system serves as many calls of write as they have bytes, reach the session at the other end,
    -- whose channel is open, which is not stopped, and whose system serves as many rounds: its loop
    -- puts all of them into the queue of the context, in the order in which they were sent, with
    -- their payloads and their headers, changes nothing else there, and goes on.
    pub io_loop-send_all :
        (sender : UdsChannel) (fd' fuel n : ℕ) (frames : List Frame) (k l : Kernel)
        (c : Context Handler Callback)
        → sender.fd ≡ some fd'
        → All Sendable frames
        → All Writing.Serves k.writes
        → stream_size frames ≤ Writing.served k.writes
        → All Serving.Serves l.polls
        → stream_size frames ≤ Serving.served l.polls
        → k.sent ≡ []
        → (k' : Kernel) × (l' : Kernel) × (send_all sender frames k ≡ returns (ok tt) k')
          × (l'.incoming ≡ [])
          × (io_loop message running s channel
                (length frames + fuel)
                n
                (record l { incoming = k'.sent })
                c
              ≡ io_loop message running s channel fuel
                  (length frames + n)
                  l'
                  (record c { frame_queue = c.frame_queue ++ map (queued_of s) frames }))
    io_loop-send_all sender fd' fuel n frames k l c sends fit hw calls hr rounds start =
        let (k', gone, bytes) = stream_sent sender fd' frames k sends fit hw calls in
        let wire : k'.sent ≡ stream_bytes frames ++ [] =
          bytes ∙ rw (start, append-nil (stream_bytes frames)) refl in
        let (l', left, looped) =
          stream_looped fuel n frames [] (record l { incoming = k'.sent }) c fit hr rounds wire in
        (k', l', gone, left, looped)
