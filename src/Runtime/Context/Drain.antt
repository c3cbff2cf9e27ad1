-- ===== src/Runtime/Context/Drain.antt =====
-- What the loop of the reactor handles.
use hasten.Common.{
  ℕ, suc, ◌+◌, ◌≡◌, refl, ◌∙◌, List, [], ◌∷◌, Bool, true, false, Option, if◌then◌else◌, length,
  arith,
}
use hasten.Runtime.Result.{Error}
use hasten.Runtime.Rpc.{Registry, Response}
use hasten.Runtime.Context.{QueuedFrame, Context, Invocation}
use hasten.Runtime.Context.Reactor.{
  handle_frame, processed, waiting, run_loop_from, run_loop, run, poll,
}
use hasten.Runtime.Context.Replies.{
  Replies-frame_queue, Replies-stop_requested, handle_frame-Replies,
}

module _ {Handler Callback : Type 0} (send_error : ℕ → Option Error)
    (answers : List (Invocation Handler) → List Response) (registry : Registry Handler) where
  -- The frames handled one after the other.
  pub handle_all : List QueuedFrame → Context Handler Callback → Context Handler Callback
  handle_all [] c = c
  handle_all (item ∷ queue) c = handle_all queue (
      handle_frame send_error answers registry item.session item.frame
        (record c { frame_queue = queue }))

  -- The flag stays what it was, and the queue is what is left.
  handle_all-stop_requested :
      (queue : List QueuedFrame) (c : Context Handler Callback)
      → (handle_all queue c).stop_requested ≡ c.stop_requested
  unfolding handle_all
  handle_all-stop_requested [] c = refl
  handle_all-stop_requested (item ∷ queue) c =
      let handled = record c { frame_queue = queue } in
      handle_all-stop_requested queue
        (handle_frame send_error answers registry item.session item.frame handled)
      ∙ Replies-stop_requested
          (handle_frame-Replies send_error answers registry item.session item.frame handled)

  handle_all-frame_queue :
      (queue : List QueuedFrame) (c : Context Handler Callback)
      → c.frame_queue ≡ queue
      → (handle_all queue c).frame_queue ≡ []
  unfolding handle_all
  handle_all-frame_queue [] c e = e
  handle_all-frame_queue (item ∷ queue) c e =
      let handled = record c { frame_queue = queue } in
      handle_all-frame_queue queue
        (handle_frame send_error answers registry item.session item.frame handled)
        (Replies-frame_queue
          (handle_frame-Replies send_error answers registry item.session item.frame handled))

  loop_drains :
      (queue : List QueuedFrame) (block : Bool) (count : ℕ) (c : Context Handler Callback)
      → run_loop_from send_error answers registry queue block false count c ≡ (
          if block
          then (if c.stop_requested
              then processed (count + length queue) (handle_all queue c)
              else waiting (count + length queue) (handle_all queue c))
          else processed (count + length queue) (handle_all queue c))
  unfolding run_loop_from handle_all
  loop_drains [] block count c = let same : count + 0 ≡ count = omega arith in rw same refl
  loop_drains (item ∷ queue) block count c =
      let handled = record c { frame_queue = queue } in
      let after = handle_frame send_error answers registry item.session item.frame handled in
      let same : count + 1 + length queue ≡ count + suc (length queue) = omega arith in
      loop_drains queue block (count + 1) after
      ∙ rw
          (
            Replies-stop_requested
                (handle_frame-Replies send_error answers registry item.session item.frame handled),
            same,
          )
          refl

  -- With no frame coming meanwhile, `poll` handles every queued frame once, in order, leaves the
  -- queue empty and returns their number. `run` does so too, but returns only if a stop was
  -- requested, and waits if not.
  pub run-poll-drain :
      (c : Context Handler Callback)
      → let after = handle_all c.frame_queue c in
        (poll send_error answers registry c ≡ processed (length c.frame_queue) after)
        × (run send_error answers registry c ≡ (
            if c.stop_requested
            then processed (length c.frame_queue) after
            else waiting (length c.frame_queue) after))
        × (after.frame_queue ≡ [])
  unfolding poll run run_loop
  run-poll-drain c =
      let same : 0 + length c.frame_queue ≡ length c.frame_queue = omega arith in
      (
        loop_drains c.frame_queue false 0 c ∙ rw same refl,
        loop_drains c.frame_queue true 0 c ∙ rw same refl,
        handle_all-frame_queue c.frame_queue c refl,
      )
