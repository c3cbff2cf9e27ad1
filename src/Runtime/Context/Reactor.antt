-- ===== src/Runtime/Context/Reactor.antt =====
-- The handlers of frames in src/runtime/context.cpp, and the loop of the reactor.
use hasten.Common.{
  ℕ, ◌+◌, List, [], ◌∷◌, ◌++◌, Bool, true, false, Option, none, some, if◌then◌else◌,
}
use hasten.Runtime.Result.{Result, ok, err, fault, Error}
use hasten.Runtime.Frame.{Frame, FrameType, data_frame, settings, goodbye, ping, cancel, error}
use hasten.Runtime.Rpc.{
  Status, invalid_request, not_found, Request, Response, Registry, find_handler,
}
use hasten.Runtime.Wire.{parse_rpc_request, ParsedRequest}
use hasten.Runtime.Context.{
  Kind, client, server, Session, QueuedFrame, Invocation, Context, reply_frame, ping_reply,
  handle_settings, handle_goodbye, handle_client_data, send_or_drop,
}

abbrev empty_response : Status → Response
empty_response status = record { status = status; body = [] }

-- What a run of the loop comes to when no frame is queued meanwhile: it returns how many frames it
-- handled, or it waits for one.
pub data Outcome (Handler Callback : Type 0) : Type 0 where
  processed : ℕ → Context Handler Callback → Outcome Handler Callback
  waiting : ℕ → Context Handler Callback → Outcome Handler Callback

-- A handler is called, with a responder for the session and the stream.
abbrev pub with_call :
    {Handler Callback : Type 0}
    → Invocation Handler
    → Context Handler Callback
    → Context Handler Callback
with_call i c = record c { invocations = c.invocations ++ (i ∷ []) }

module _ {Handler Callback : Type 0} (send_error : ℕ → Option Error) where
  unfoldable pub send_rpc_response :
      Session → ℕ → Response → Context Handler Callback → Context Handler Callback
  send_rpc_response s stream_id response c =
      send_or_drop send_error s (reply_frame stream_id response) c

  -- The responder that a handler is given, when the session is alive and when it is not.
  unfoldable pub respond :
      Bool → Invocation Handler → Response → Context Handler Callback → Context Handler Callback
  respond true i response c = send_rpc_response i.session i.stream_id response c
  respond false i response c = c

  -- The answers that a handler gives before it returns. The session is alive, since the loop has it.
  unfoldable pub respond_all :
      Invocation Handler → List Response → Context Handler Callback → Context Handler Callback
  unfolding respond
  respond_all i [] c = c
  respond_all i (response ∷ more) c = respond_all i more (respond true i response c)

  unfoldable pub handle_ping : Session → Frame → Context Handler Callback → Context Handler Callback
  handle_ping s frame c = send_or_drop send_error s (ping_reply frame) c

  -- What a handler answers before it returns is a parameter, which takes the calls of handlers up to
  -- and with this one. What is answered later is a call of `respond`.
  module _ (answers : List (Invocation Handler) → List Response) where
    unfoldable pub call_handler :
        Session → ℕ → Request → Option Handler → Context Handler Callback → Context Handler Callback
    unfolding respond_all
    call_handler s stream_id request none c =
        send_rpc_response s stream_id (empty_response not_found) c
    call_handler s stream_id request (some handler) c =
        let i : Invocation Handler = record {
          handler = handler;
          request = request;
          session = s;
          stream_id = stream_id;
        } in
        let called = with_call i c in respond_all i (answers called.invocations) called

    module _ (registry : Registry Handler) where
      unfoldable pub server_request :
          Session → ℕ → Result ParsedRequest → Context Handler Callback → Context Handler Callback
      unfolding call_handler
      server_request s stream_id (ok parsed) c =
          call_handler s stream_id parsed.request
            (find_handler parsed.request.interface_id registry) c
      server_request s stream_id (err e) c =
          send_rpc_response s stream_id (empty_response invalid_request) c
      server_request s stream_id (fault x) c = c

      unfoldable pub handle_server_data :
          Session → Frame → Context Handler Callback → Context Handler Callback
      unfolding server_request
      handle_server_data s frame c =
          server_request s frame.header.stream_id (parse_rpc_request frame.payload) c

      unfoldable pub handle_data :
          Kind → Session → Frame → Context Handler Callback → Context Handler Callback
      handle_data server s frame c = handle_server_data s frame c
      handle_data client s frame c = handle_client_data s frame c

      unfoldable pub handle_typed :
          FrameType → Session → Frame → Context Handler Callback → Context Handler Callback
      unfolding handle_data
      handle_typed ping s frame c = handle_ping s frame c
      handle_typed settings s frame c = handle_settings s frame c
      handle_typed goodbye s frame c = handle_goodbye s frame c
      handle_typed cancel s frame c = c
      handle_typed error s frame c = c
      handle_typed data_frame s frame c = handle_data s.kind s frame c

      unfoldable pub handle_frame :
          Session → Frame → Context Handler Callback → Context Handler Callback
      unfolding handle_typed
      handle_frame s frame c = handle_typed frame.header.type s frame c

      unfoldable pub run_loop_from :
          List QueuedFrame → Bool → Bool → ℕ → Context Handler Callback → Outcome Handler Callback
      run_loop_from [] block single count c =
          if block
          then (if c.stop_requested then processed count c else waiting count c)
          else processed count c
      run_loop_from (item ∷ queue) block single count c =
          let handled = handle_frame item.session item.frame (record c { frame_queue = queue }) in
          let rest = run_loop_from queue block single (count + 1) handled in
          if single then processed (count + 1) handled else rest

      -- The queue is popped from the front, and no handler puts a frame into it.
      unfoldable pub run_loop : Bool → Bool → Context Handler Callback → Outcome Handler Callback
      unfolding run_loop_from
      run_loop block single c = run_loop_from c.frame_queue block single 0 c

      unfoldable pub run : Context Handler Callback → Outcome Handler Callback
      run c = run_loop true false c

      unfoldable pub run_one : Context Handler Callback → Outcome Handler Callback
      run_one c = run_loop true true c

      unfoldable pub poll : Context Handler Callback → Outcome Handler Callback
      poll c = run_loop false false c
