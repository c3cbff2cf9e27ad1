-- ===== src/Runtime/Context/Lifecycle.antt =====
-- Sessions and listeners from their start to their end in src/runtime/context.cpp.
use hasten.Common.{
  ℕ, ◌+◌, ◌%◌, ◌^◌, List, [], ◌∷◌, ◌++◌, map, Bool, true, false, not, ◌&&◌, Option, if◌then◌else◌,
  String,
}
use hasten.Runtime.Result.{Error}
use hasten.Runtime.Frame.{Frame}
use hasten.Runtime.Rpc.{hb1}
use hasten.Runtime.Dispatcher.{make_dispatcher}
use hasten.Runtime.Context.{
  Kind, client, server, Session, SessionState, ListenerState, Context, settings_frame,
  handle_session_error, stop_session, send_or_drop,
}

abbrev pub close_listener : ListenerState → ListenerState
close_listener l = record l { running = false; server_closed = true }

-- A session whose `start` has made its thread.
abbrev started : SessionState
started = record { running = true; channel_closed = false; peer_encoding = hb1 }

module _ {Handler Callback : Type 0} where
  unfoldable pub new_context : Bool → Context Handler Callback
  new_context managed_reactor = record {
    dispatcher = make_dispatcher;
    stop_requested = false;
    reactor_running = false;
    managed_reactor = managed_reactor;
    frame_queue = [];
    sessions = [];
    states = [];
    listeners = [];
    next_session_id = 1;
    sends = 0;
    outbox = [];
    invocations = [];
    scheduled = [];
  }

  unfoldable pub enqueue_frame :
      Session → Frame → Context Handler Callback → Context Handler Callback
  enqueue_frame s frame c = record c {
    frame_queue = c.frame_queue ++ (record { session = s; frame = frame } ∷ []);
  }

  -- `listen`, once the server's socket is there.
  unfoldable pub listen : String → Context Handler Callback → Context Handler Callback
  listen path c =
      let l : ListenerState = record { path = path; running = true; server_closed = false } in
      record c { listeners = c.listeners ++ (l ∷ []) }

  -- `start`. The thread that it makes calls `run`.
  unfoldable pub start : Context Handler Callback → Context Handler Callback
  start c =
      if c.managed_reactor && not c.reactor_running then record c { reactor_running = true } else c

  unfoldable pub stop_all : List Session → Context Handler Callback → Context Handler Callback
  stop_all [] c = c
  stop_all (s ∷ sessions) c = stop_all sessions (stop_session s c)

  unfoldable pub stop : Context Handler Callback → Context Handler Callback
  unfolding stop_all
  stop c =
      if c.stop_requested
      then c
      else stop_all c.sessions (record c {
        stop_requested = true;
        listeners = map close_listener c.listeners;
        sessions = [];
      })

  -- `join`, when the threads it waits for have ended.
  unfoldable pub join : Context Handler Callback → Context Handler Callback
  join c = record c { listeners = []; reactor_running = false }

  -- The first step of `add_session`: the session is made, with the id that the counter gives.
  unfoldable pub new_session : Kind → Context Handler Callback → Session × Context Handler Callback
  new_session kind c = (
    record { id = c.next_session_id; kind = kind },
    record c { next_session_id = (c.next_session_id + 1) % 2 ^ 64 },
  )

  -- The second step, under the lock of the sessions.
  unfoldable pub push_session : Session → Context Handler Callback → Context Handler Callback
  push_session s c = record c { sessions = c.sessions ++ (s ∷ []) }

  -- The third step: `Session::start`
  unfoldable pub start_session : Session → Context Handler Callback → Context Handler Callback
  start_session s c = record c { states = (s.id, started) ∷ c.states }

  module _ (send_error : ℕ → Option Error) where
    unfoldable pub send_initial_settings :
        Session → Context Handler Callback → Context Handler Callback
    send_initial_settings s c = send_or_drop send_error s settings_frame c

    -- Its steps, one after the other. Between them other threads can do theirs.
    unfoldable pub add_session : Kind → Context Handler Callback → Context Handler Callback
    unfolding new_session push_session start_session
    add_session kind c =
        let (s, c') = new_session kind c in
        send_initial_settings s (start_session s (push_session s c'))

    unfoldable pub attach_channel : Bool → Context Handler Callback → Context Handler Callback
    attach_channel server_side c = add_session (if server_side then server else client) c

    -- What the thread of a session does with what `receive` gives.
    unfoldable pub io_error : Session → Error → Context Handler Callback → Context Handler Callback
    io_error s e c = handle_session_error s e c
