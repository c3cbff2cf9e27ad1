-- ===== src/Runtime/Context/Loop.antt =====
-- `Session::io_loop` of src/runtime/context.cpp: the thread of a session receives frames from its
-- channel and puts them into the queue of the context.
pub mod Ends
use hasten.Common.{String, ℕ, zero, suc, Bool, true, false}
use hasten.Runtime.Result.{ok, err, fault}
use hasten.Runtime.Uds.{Kernel, returns, waits, UdsChannel, receive}
use hasten.Runtime.Context.{Session, Context, handle_session_error}
use hasten.Runtime.Context.Lifecycle.{enqueue_frame}

-- How the loop ends: it has ended, it waits in `receive`, it has read out of range, or it is out of
-- fuel.
pub data Looped (Handler Callback : Type 0) : Type 0 where
  ended : Context Handler Callback → Kernel → Looped Handler Callback
  waiting : Context Handler Callback → Looped Handler Callback
  broken out_of_fuel : Looped Handler Callback

module _ {Handler Callback : Type 0} (message : ℕ → String) (running : ℕ → Bool) (s : Session)
    (channel : UdsChannel) where
  -- `running n` is what the loop loads from `running_` in its n-th round.
  unfoldable pub io_loop : ℕ → ℕ → Kernel → Context Handler Callback → Looped Handler Callback
  io_loop zero n k c = out_of_fuel
  io_loop (suc fuel) n k c = elim (running n) [
    | false ↦ ended c k
    | true ↦ elim (receive message channel k) [
      | waits ↦ waiting c
      | returns (ok frame) k' ↦ io_loop fuel (suc n) k' (enqueue_frame s frame c)
      | returns (err e) k' ↦ ended (handle_session_error s e c) k'
      | returns (fault x) k' ↦ broken
    ]
  ]
