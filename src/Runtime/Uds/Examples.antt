-- ===== src/Runtime/Uds/Examples.antt =====
-- One frame, sent with short writes and received with short reads, and the theorems at it.
use hasten.Common.{String, ℕ, zero, suc, ◌≡◌, refl, List, [], ◌∷◌, true, false, some, All, arith}
use hasten.Runtime.Result.{ok}
use hasten.Runtime.Frame.{Frame, ping, new_header}
use hasten.Runtime.Uds.{
  WriteCall, write_failed, wrote, got, PollCall, poll_failed, polled, Kernel, returns, UdsChannel,
  write_full, read_full, send, receive,
}
use hasten.Runtime.Uds.Writing
use hasten.Runtime.Uds.Writing.{write_full-Writing, Writing}
use hasten.Runtime.Uds.Reading.{read_full-Reading, Reading}
use hasten.Runtime.Uds.Serving
use hasten.Runtime.Uds.RoundTrip.{received, receive-send}

abbrev socket : UdsChannel
socket = record { fd = some 5; wake_fd = 6; wake_count = 0; closed = [] }

abbrev note : Frame
note = record { header = record new_header { type = ping; stream_id = 7 }; payload = 1 ∷ 2 ∷ [] }

abbrev times {ℓ} : {A : Type ℓ} → ℕ → A → List A
times zero a = []
times (suc n) a = a ∷ times n a

-- Five bytes a call, and an interrupted call; three bytes a round, and an idle round.
abbrev writes : List WriteCall
writes = write_failed 4 ∷ times 26 (wrote 5)

abbrev polls : List PollCall
polls = polled false false false 0 (got 0) ∷ times 26 (polled false false true 0 (got 3))

abbrev kernel : Kernel
kernel = record { writes = writes; polls = polls; sent = []; incoming = [] }

abbrev no_message : ℕ → String
no_message errno = "?"

receive-send_example :
    (k : Kernel) × (l : Kernel) × (send no_message socket note kernel ≡ returns (ok tt) k)
    × (receive no_message socket (record kernel { incoming = k.sent })
        ≡ returns (ok (received note)) l)
receive-send_example =
    receive-send no_message socket socket 5 5 note kernel kernel refl refl
      (record { flags_byte = omega arith; stream_u64 = omega arith; small = omega arith })
      (refl, (all_write 26)) (omega arith) (tt, all_read 26) (omega arith) refl
  where
    all_write : (n : ℕ) → All Writing.Serves (times n (wrote 5))
    all_write zero = tt
    all_write (suc n) = (tt, all_write n)

    all_read : (n : ℕ) → All Serving.Serves (times n (polled false false true 0 (got 3)))
    all_read zero = tt
    all_read (suc n) = (tt, all_read n)

-- The second call fails.
write_full-Writing_example :
    Writing
      (1 ∷ 2 ∷ 3 ∷ [])
      kernel
      (write_full no_message (wrote 2 ∷ write_failed 32 ∷ []) (1 ∷ 2 ∷ 3 ∷ []) kernel)
write_full-Writing_example =
    write_full-Writing no_message (wrote 2 ∷ write_failed 32 ∷ []) (1 ∷ 2 ∷ 3 ∷ []) kernel

abbrev arriving : Kernel
arriving = record kernel { incoming = 7 ∷ 8 ∷ 9 ∷ [] }

read_full-Reading_example :
    Reading 2 [] arriving (read_full no_message (poll_failed 4 ∷ polls) 2 [] arriving)
read_full-Reading_example = read_full-Reading no_message (poll_failed 4 ∷ polls) 2 [] arriving
