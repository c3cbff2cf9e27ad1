-- ===== src/Runtime/Context/Sessions.antt =====
-- The list of sessions in every state that a context can reach.
pub mod Shrinks
use hasten.Common.{
  ℕ, ◌+◌, ◌%◌, ◌^◌, ◌<◌, ◌≡◌, refl, List, [], ◌∷◌, ◌++◌, Bool, Option, String, arith,
}
use hasten.Runtime.Result.{Error}
use hasten.Runtime.Frame.{Frame}
use hasten.Runtime.Rpc.{Response, Registry}
use hasten.Runtime.Context.{
  Kind, Session, Context, Invocation, remove_session, stop_session, handle_session_error,
  send_or_drop,
}
use hasten.Runtime.Context.Reactor.{with_call, respond, handle_frame}
use hasten.Runtime.Context.Lifecycle.{
  add_session, new_context, enqueue_frame, listen, start, stop, join, new_session, push_session,
  start_session, send_initial_settings, io_error,
}
use hasten.Runtime.Context.Sessions.Shrinks.{
  copies, copies-append, removed, Distinct, Shrinks-Distinct, stop-Shrinks, start-Shrinks,
  send_or_drop-Shrinks, respond-Shrinks, typed-Shrinks,
}

module _ {Handler Callback : Type 0} (send_error : ℕ → Option Error)
    (answers : List (Invocation Handler) → List Response) (registry : Registry Handler) where
  -- The states that a context can reach by the frames, errors and calls of any threads, in any
  -- order, while the counter of sessions has not wrapped, each with the sessions that a thread has
  -- made and not yet put into the list. What is done for a frame is a step as a whole, and so are its
  -- parts, between which another thread can do a step of its own.
  pub data Reachable : List Session → Context Handler Callback → Type 0 where
    made : (managed_reactor : Bool) → Reachable [] (new_context managed_reactor)
    numbered :
        {pending : List Session} {c : Context Handler Callback} (kind : Kind)
        → c.next_session_id + 1 < 2 ^ 64
        → Reachable pending c
        → Reachable ((new_session kind c).0 ∷ pending) (new_session kind c).1
    pushed :
        {c : Context Handler Callback} (front : List Session) (s : Session) (back : List Session)
        → Reachable (front ++ s ∷ back) c
        → Reachable (front ++ back) (push_session s c)
    thread_made :
        {pending : List Session} {c : Context Handler Callback} (s : Session)
        → Reachable pending c
        → Reachable pending (start_session s c)
    settled :
        {pending : List Session} {c : Context Handler Callback} (s : Session)
        → Reachable pending c
        → Reachable pending (send_initial_settings send_error s c)
    sent :
        {pending : List Session} {c : Context Handler Callback} (s : Session) (frame : Frame)
        → Reachable pending c
        → Reachable pending (send_or_drop send_error s frame c)
    ended :
        {pending : List Session} {c : Context Handler Callback} (s : Session)
        → Reachable pending c
        → Reachable pending (stop_session s c)
    dropped :
        {pending : List Session} {c : Context Handler Callback} (s : Session)
        → Reachable pending c
        → Reachable pending (remove_session s c)
    called :
        {pending : List Session} {c : Context Handler Callback} (i : Invocation Handler)
        → Reachable pending c
        → Reachable pending (with_call i c)
    queued :
        {pending : List Session} {c : Context Handler Callback} (s : Session) (frame : Frame)
        → Reachable pending c
        → Reachable pending (enqueue_frame s frame c)
    handled :
        {pending : List Session} {c : Context Handler Callback} (s : Session) (frame : Frame)
        → Reachable pending c
        → Reachable pending (handle_frame send_error answers registry s frame c)
    failed :
        {pending : List Session} {c : Context Handler Callback} (s : Session) (e : Error)
        → Reachable pending c
        → Reachable pending (io_error send_error s e c)
    responded :
        {pending : List Session} {c : Context Handler Callback} (alive : Bool)
        (i : Invocation Handler) (response : Response)
        → Reachable pending c
        → Reachable pending (respond send_error alive i response c)
    listening :
        {pending : List Session} {c : Context Handler Callback} (path : String)
        → Reachable pending c
        → Reachable pending (listen path c)
    running :
        {pending : List Session} {c : Context Handler Callback}
        → Reachable pending c
        → Reachable pending (start c)
    stopping :
        {pending : List Session} {c : Context Handler Callback}
        → Reachable pending c
        → Reachable pending (stop c)
    joined :
        {pending : List Session} {c : Context Handler Callback}
        → Reachable pending c
        → Reachable pending (join c)

  -- `add_session` with no step of another thread in between.
  pub add_session-Reachable :
      {pending : List Session} {c : Context Handler Callback} (kind : Kind)
      → c.next_session_id + 1 < 2 ^ 64
      → Reachable pending c
      → Reachable pending (add_session send_error kind c)
  unfolding add_session
  add_session-Reachable {pending} {c} kind h r =
      let s = (new_session kind c).0 in
      settled s (thread_made s (pushed [] s pending (numbered kind h r)))

  -- In every state that a context can reach by the steps of any threads, in any order, while the
  -- counter of sessions has not wrapped, no two of the sessions in its list, and of those that are
  -- made and not yet in the list, have the same id, and none has an id that a later session gets.
  pub Reachable-Distinct :
      {pending : List Session} {c : Context Handler Callback}
      → Reachable pending c
      → Distinct pending c
  unfolding new_context new_session push_session start_session send_initial_settings enqueue_frame
      handle_frame io_error handle_session_error remove_session stop_session listen join copies
  Reachable-Distinct (made managed_reactor) id = ground arith
  Reachable-Distinct (numbered {pending = pending} {c = c} kind h r) id =
      let no_wrap : (c.next_session_id + 1) % 2 ^ 64 ≡ c.next_session_id + 1 = omega arith in
      let before = Reachable-Distinct r id in rw no_wrap (ground arith)
  Reachable-Distinct (pushed {c = c} front s back r) id =
      let before = Reachable-Distinct r id in
      omega (
        arith,
        before,
        copies-append id front (s ∷ back),
        copies-append id front back,
        copies-append id (s ∷ []) back,
        copies-append id c.sessions (s ∷ []),
      )
  Reachable-Distinct (thread_made s r) id = Reachable-Distinct r id
  Reachable-Distinct (settled {pending = pending} {c = c} s r) id =
      Shrinks-Distinct pending c _ (send_or_drop-Shrinks send_error s _ c) (Reachable-Distinct r) id
  Reachable-Distinct (sent {pending = pending} {c = c} s frame r) id =
      Shrinks-Distinct pending c _ (send_or_drop-Shrinks send_error s frame c)
        (Reachable-Distinct r) id
  Reachable-Distinct (ended s r) id = Reachable-Distinct r id
  Reachable-Distinct (dropped {pending = pending} {c = c} s r) id =
      Shrinks-Distinct pending c (remove_session s c) (removed s.id refl refl)
        (Reachable-Distinct r) id
  Reachable-Distinct (called i r) id = Reachable-Distinct r id
  Reachable-Distinct (queued s frame r) id = Reachable-Distinct r id
  Reachable-Distinct (handled {pending = pending} {c = c} s frame r) id =
      Shrinks-Distinct pending c _
        (typed-Shrinks send_error answers registry frame.header.type s frame c)
        (Reachable-Distinct r) id
  Reachable-Distinct (failed {pending = pending} {c = c} s e r) id =
      Shrinks-Distinct pending c (io_error send_error s e c) (removed s.id refl refl)
        (Reachable-Distinct r) id
  Reachable-Distinct (responded {pending = pending} {c = c} alive i response r) id =
      Shrinks-Distinct pending c _ (respond-Shrinks send_error alive i response c)
        (Reachable-Distinct r) id
  Reachable-Distinct (listening path r) id = Reachable-Distinct r id
  Reachable-Distinct (running {pending = pending} {c = c} r) id =
      Shrinks-Distinct pending c _ (start-Shrinks c) (Reachable-Distinct r) id
  Reachable-Distinct (stopping {pending = pending} {c = c} r) id =
      Shrinks-Distinct pending c _ (stop-Shrinks c) (Reachable-Distinct r) id
  Reachable-Distinct (joined r) id = Reachable-Distinct r id
