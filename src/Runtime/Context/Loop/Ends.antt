-- ===== src/Runtime/Context/Loop/Ends.antt =====
-- The loop of a session ends or waits: every frame takes bytes that have come.
use hasten.Common.{String, ℕ, zero, suc, ◌<◌, Bool, Bool-cases, inl, inr, length, arith}
use hasten.Runtime.Result.{ok, err, fault}
use hasten.Runtime.Frame.{Frame}
use hasten.Runtime.Uds.{Kernel, Io, returns, waits, UdsChannel, receive}
use hasten.Runtime.Uds.Taking.{Takes, Takes-receive}
use hasten.Runtime.Context.{Session, Context, handle_session_error}
use hasten.Runtime.Context.Lifecycle.{enqueue_frame}
use hasten.Runtime.Context.Loop.{Looped, ended, waiting, broken, out_of_fuel, io_loop}

-- The loop is not out of fuel.
abbrev pub Ends : {Handler Callback : Type 0} → Looped Handler Callback → Type 0
Ends (ended c k) = Unit {0}
Ends (waiting c) = Unit {0}
Ends broken = Unit {0}
Ends out_of_fuel = ⊥

module _ {Handler Callback : Type 0} (message : ℕ → String) (running : ℕ → Bool) (s : Session)
    (channel : UdsChannel) where
  -- Whatever comes and whatever the system answers, the loop of a session comes to an end or waits
  -- within a round for each byte that has come and one more.
  pub io_loop-Ends :
      (fuel n : ℕ) (k : Kernel) (c : Context Handler Callback)
      → length k.incoming < fuel
      → Ends (io_loop message running s channel fuel n k c)
  unfolding io_loop
  io_loop-Ends zero n k c h = absurd (omega (arith, h))
  io_loop-Ends (suc fuel) n k c h = elim (Bool-cases (running n)) [
    | inr stopped ↦ rw (stopped, io_loop) tt
    | inl runs ↦
        rw (runs, io_loop)
          (after (receive message channel k) (Takes-receive message channel k)
            (λ k' frame less. io_loop-Ends fuel (suc n) k' (enqueue_frame s frame c) less))
  ]
    where
      after :
          (io : Io Frame)
          → Takes 1 k io
          → ((k' : Kernel) (frame : Frame)
              → length k'.incoming < fuel
              → Ends (io_loop message running s channel fuel (suc n) k' (enqueue_frame s frame c)))
          → Ends (elim io [
            | waits ↦ waiting c
            | returns (ok frame) k' ↦
                io_loop message running s channel fuel (suc n) k' (enqueue_frame s frame c)
            | returns (err e) k' ↦ ended (handle_session_error s e c) k'
            | returns (fault x) k' ↦ broken
          ])
      after waits t go = tt
      after (returns (ok frame) k') t go = go k' frame (omega (arith, h, t))
      after (returns (err e) k') t go = tt
      after (returns (fault x) k') t go = tt
