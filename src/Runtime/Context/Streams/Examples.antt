-- ===== src/Runtime/Context/Streams/Examples.antt =====
-- Two frames over one channel.
use hasten.Common.{
  String, ℕ, zero, suc, ◌+◌, ◌≡◌, refl, List, [], ◌∷◌, ◌++◌, map, true, false, some, length, All,
  arith,
}
use hasten.Runtime.Result.{ok}
use hasten.Runtime.Frame.{Frame, ping, new_header}
use hasten.Runtime.Uds.{wrote, got, polled, Kernel, returns, UdsChannel}
use hasten.Runtime.Uds.Writing
use hasten.Runtime.Uds.Serving
use hasten.Runtime.Context.{Session, Context, server}
use hasten.Runtime.Context.Lifecycle.{new_context}
use hasten.Runtime.Context.Loop.{io_loop}
use hasten.Runtime.Context.Loop.Ends.{Ends, io_loop-Ends}
use hasten.Runtime.Context.Streams.{queued_of, send_all, io_loop-send_all}

abbrev channel : UdsChannel
channel = record { fd = some 5; wake_fd = 6; wake_count = 0; closed = [] }

abbrev frame_with : List ℕ → Frame
frame_with payload = record {
  header = record new_header { type = ping; stream_id = 7 };
  payload = payload;
}

abbrev two_frames : List Frame
two_frames = frame_with (1 ∷ 2 ∷ []) ∷ frame_with [] ∷ []

abbrev times {ℓ} : {A : Type ℓ} → ℕ → A → List A
times zero a = []
times (suc n) a = a ∷ times n a

abbrev kernel : Kernel
kernel = record {
  writes = times 50 (wrote 5);
  polls = times 50 (polled false false true 0 (got 3));
  sent = [];
  incoming = [];
}

abbrev session : Session
session = record { id = 1; kind = server }

abbrev no_message : ℕ → String
no_message errno = "?"

abbrev context : Context ℕ ℕ
context = new_context false

io_loop-send_all_example :
    (k : Kernel) × (l : Kernel) × (send_all no_message channel two_frames kernel
      ≡ returns (ok tt) k)
    × (l.incoming ≡ [])
    × (io_loop no_message
          (λ n. true)
          session
          channel
          (length two_frames + 1)
          0
          (record kernel { incoming = k.sent })
          context
        ≡ io_loop no_message
            (λ n. true)
            session
            channel
            1
            (length two_frames + 0)
            l
            (record context {
              frame_queue = context.frame_queue ++ map (queued_of session) two_frames;
            }))
io_loop-send_all_example =
    io_loop-send_all no_message (λ n. true) session channel 5 (λ n. refl) refl channel 5 1 0
      two_frames kernel kernel context refl
      (
        record { flags_byte = omega arith; stream_u64 = omega arith; small = omega arith },
        (record { flags_byte = omega arith; stream_u64 = omega arith; small = omega arith }, tt),
      )
      (all_write 50) (omega arith) (all_read 50) (omega arith) refl
  where
    all_write : (n : ℕ) → All Writing.Serves (times n (wrote 5))
    all_write zero = tt
    all_write (suc n) = (tt, all_write n)

    all_read : (n : ℕ) → All Serving.Serves (times n (polled false false true 0 (got 3)))
    all_read zero = tt
    all_read (suc n) = (tt, all_read n)

io_loop-Ends_example : Ends (
    io_loop no_message
      (λ n. true)
      session
      channel
      3
      0
      (record kernel { incoming = 1 ∷ 2 ∷ [] })
      context)
io_loop-Ends_example =
    io_loop-Ends no_message (λ n. true) session channel 3 0
      (record kernel { incoming = 1 ∷ 2 ∷ [] }) context (omega arith)
