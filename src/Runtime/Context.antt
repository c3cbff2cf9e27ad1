-- ===== src/Runtime/Context.antt =====
-- `Context` of src/runtime/context.cpp: sessions, the queue of frames and the loop that handles them.
-- Each lock is held for one step here. What is written to stderr is left out. The executor and the
-- dispatcher are there from the constructor on, so the tests for their absence are too.
pub mod Reactor
pub mod Lifecycle
pub mod Loop
pub mod Streams
pub mod Connections
pub mod Replies
pub mod Drain
pub mod Requests
pub mod Responses
pub mod Stopping
pub mod Sessions
pub mod RoundTrip
mod Examples
use hasten.Common.{
  ℕ, ◌+◌, ◌%◌, ◌^◌, List, [], ◌∷◌, ◌++◌, Bool, true, false, Option, none, some, ◌==◌, if◌then◌else◌,
  String,
}
use hasten.Runtime.Result.{Result, ok, err, fault, Error}
use hasten.Runtime.Frame.{Frame, new_header, data_frame, settings, ping, end_stream}
use hasten.Runtime.Rpc.{Encoding, hb1, encoding_id, encoding_of, Request, Response}
use hasten.Runtime.Wire.{build_response_payload, parse_rpc_response}
use hasten.Runtime.Dispatcher.{SimpleDispatcher, close_stream, take_response_handler}

pub data Kind : Type 0 where
  client server : Kind

-- The members of a session that do not change.
pub record Session : Type 0 where
  pub id : ℕ  -- uint64_t
  pub kind : Kind

-- Those that do, and whether its channel was closed.
pub record SessionState : Type 0 where
  pub running : Bool
  pub channel_closed : Bool
  pub peer_encoding : Encoding

pub record QueuedFrame : Type 0 where
  pub session : Session
  pub frame : Frame

pub record ListenerState : Type 0 where
  pub path : String
  pub running : Bool
  pub server_closed : Bool

-- What a handler is called with: the request, and the session and stream that its responder
-- answers.
pub record Invocation (Handler : Type 0) : Type 0 where
  pub handler : Handler
  pub request : Request
  pub session : Session
  pub stream_id : ℕ

pub record Context (Handler Callback : Type 0) : Type 0 where
  pub dispatcher : SimpleDispatcher Callback
  pub stop_requested : Bool
  pub reactor_running : Bool
  pub managed_reactor : Bool
  pub frame_queue : List QueuedFrame
  pub sessions : List Session
  pub states : List (ℕ × SessionState)  -- the sessions that there were, by id
  pub listeners : List ListenerState
  pub next_session_id : ℕ  -- uint64_t
  pub sends : ℕ  -- how often a channel's `send` was called
  pub outbox : List (ℕ × Frame)  -- the frames sent, with their sessions, in order
  pub invocations : List (Invocation Handler)  -- the calls of handlers, in order
  pub scheduled : List (Callback × Response)  -- what went to the executor, in order

update_state : List (ℕ × SessionState) → ℕ → (SessionState → SessionState) → List (ℕ × SessionState)
update_state [] id f = []
update_state ((key, s) ∷ states) id f =
    let later = update_state states id f in
    if key == id then (key, f s) ∷ later else (key, s) ∷ later

stopped : SessionState → SessionState
stopped s = if s.running then record s { running = false; channel_closed = true } else s

-- `std::remove` and `erase`
pub without : ℕ → List Session → List Session
without id [] = []
without id (s ∷ sessions) =
    let later = without id sessions in if s.id == id then later else s ∷ later

abbrev pub reply_frame : ℕ → Response → Frame
reply_frame stream_id response = record {
  header = record new_header { type = data_frame; flags = end_stream; stream_id = stream_id };
  payload = build_response_payload response.status response.body;
}

abbrev pub settings_frame : Frame
settings_frame = record {
  header = record new_header { type = settings };
  payload = encoding_id hb1 % 2 ^ 8 ∷ [];
}

abbrev pub ping_reply : Frame → Frame
ping_reply frame = record {
  header = record new_header {
    type = ping;
    flags = frame.header.flags;
    stream_id = frame.header.stream_id;
  };
  payload = frame.payload;
}

module _ {Handler Callback : Type 0} where
  unfoldable pub remove_session : Session → Context Handler Callback → Context Handler Callback
  unfolding without
  remove_session s c = record c { sessions = without s.id c.sessions }

  unfoldable pub handle_session_error :
      Session → Error → Context Handler Callback → Context Handler Callback
  handle_session_error s e c = remove_session s c

  -- `Session::stop`
  unfoldable pub stop_session : Session → Context Handler Callback → Context Handler Callback
  unfolding update_state stopped
  stop_session s c = record c { states = update_state c.states s.id stopped }

  unfoldable pub handle_settings :
      Session → Frame → Context Handler Callback → Context Handler Callback
  unfolding update_state
  handle_settings s frame c = elim frame.payload [
    | [] ↦ c
    | byte ∷ bytes ↦ record c {
      states =
          update_state c.states s.id λ state. record state { peer_encoding = encoding_of byte };
    }
  ]

  unfoldable pub handle_goodbye :
      Session → Frame → Context Handler Callback → Context Handler Callback
  handle_goodbye s frame c = remove_session s (stop_session s c)

  -- The taken callback goes to the executor.
  schedule_callback :
      Option Callback → Response → Context Handler Callback → Context Handler Callback
  schedule_callback none response c = c
  schedule_callback (some cb) response c = record c {
    scheduled = c.scheduled ++ ((cb, response) ∷ []);
  }

  client_response : ℕ → Result Response → Context Handler Callback → Context Handler Callback
  unfolding schedule_callback
  client_response stream_id (ok response) c =
      let (callback, dispatcher) = take_response_handler stream_id c.dispatcher in
      schedule_callback callback response (record c { dispatcher = dispatcher })
  client_response stream_id (err e) c = record c {
    dispatcher = close_stream stream_id c.dispatcher;
  }
  client_response stream_id (fault x) c = c

  unfoldable pub handle_client_data :
      Session → Frame → Context Handler Callback → Context Handler Callback
  unfolding client_response
  handle_client_data s frame c =
      client_response frame.header.stream_id (parse_rpc_response frame.payload) c

  -- The result of the `n`-th call of a channel's `send`: an error, or none.
  module _ (send_error : ℕ → Option Error) where
    -- `if (auto res = session->send(frame); !res) { handle_session_error(session, res.error()); }`
    unfoldable pub send_or_drop :
        Session → Frame → Context Handler Callback → Context Handler Callback
    send_or_drop s frame c =
        let called = record c { sends = c.sends + 1 } in
        elim (send_error c.sends) [
          | none ↦ record called { outbox = c.outbox ++ ((s.id, frame) ∷ []) }
          | some e ↦ handle_session_error s e called
        ]
