-- ===== src/Runtime/Context/RoundTrip.antt =====
-- A call from end to end, and what becomes of a request on each branch.
use hasten.Common.{
  ℕ, List, ap, ◌∙◌, ◌^◌, ◌<◌, ◌≡◌, refl, [], ◌∷◌, ◌++◌, true, Option, none, some, length,
}
use hasten.Runtime.Result.{Error}
use hasten.Runtime.Frame.{Frame, FrameHeader, data_frame}
use hasten.Runtime.Rpc.{find, erase, status_of, status_byte, Response, Registry, find_handler}
use hasten.Runtime.Rpc.Laws.{find-erase}
use hasten.Runtime.Wire.{ParsedRequest, build_response_payload}
use hasten.Runtime.Wire.RoundTrip.{
  WellFormed, request_bytes, parse_rpc_request-request_bytes,
  parse_rpc_response-build_response_payload,
}
use hasten.Runtime.Dispatcher.{SimpleDispatcher, take_response_handler}
use hasten.Runtime.Context.{
  client, server, Session, Context, Invocation, reply_frame, schedule_callback, client_response,
  handle_client_data, send_or_drop,
}
use hasten.Runtime.Context.Reactor.{
  with_call, send_rpc_response, respond, respond_all, call_handler, server_request,
  handle_server_data, handle_data, handle_typed, handle_frame,
}
use hasten.Runtime.Context.Requests.{respond_all-invocations}

-- The frame of a request on a stream.
abbrev pub request_frame : FrameHeader → ℕ → ParsedRequest → Frame
request_frame header stream_id p = record {
  header = record header { type = data_frame; stream_id = stream_id };
  payload = request_bytes p;
}

-- The call of the handler for a request from a session of a server.
abbrev pub call_of : {Handler : Type 0} → Handler → ℕ → ℕ → ParsedRequest → Invocation Handler
call_of h i stream_id p = record {
  handler = h;
  request = p.request;
  session = record { id = i; kind = server };
  stream_id = stream_id;
}

-- How a call ends at the client: the callback is scheduled with the response, and waits no more.
pub record Answered {Handler Callback : Type 0} (stream_id : ℕ) (cb : Callback)
    (response : Response) (before after : Context Handler Callback) : Type 0 where
  pub once : after.scheduled ≡ before.scheduled ++ ((cb, response) ∷ [])
  pub gone : find after.dispatcher.handlers stream_id ≡ none

taken :
    {Callback : Type 0} (stream_id : ℕ) (cb : Callback) (d : SimpleDispatcher Callback)
    → find d.handlers stream_id ≡ some cb
    → take_response_handler stream_id d
      ≡ (some cb, record d { handlers = erase d.handlers stream_id })
unfolding take_response_handler
taken stream_id cb d waits = rw (waits, take_response_handler) refl

module _ {Handler Callback : Type 0} (send_error : ℕ → Option Error)
    (answers : List (Invocation Handler) → List Response) (registry : Registry Handler) where
  -- A server that gets the request of a client for an interface with a handler calls the handler
  -- once with it, which may answer at once.
  pub handler_called :
      (i : ℕ) (header : FrameHeader) (stream_id : ℕ) (p : ParsedRequest) (h : Handler)
      (c : Context Handler Callback)
      → WellFormed p
      → length (request_bytes p) < 2 ^ 64
      → find_handler p.request.interface_id registry ≡ some h
      → let s : Session = record { id = i; kind = server } in
        let inv = call_of h i stream_id p in
        handle_frame send_error answers registry s (request_frame header stream_id p) c
        ≡ respond_all send_error inv (answers (with_call inv c).invocations) (with_call inv c)
  unfolding handle_frame handle_typed handle_data handle_server_data server_request call_handler
  handler_called i header stream_id p h c good fits found =
      rw (parse_rpc_request-request_bytes p good fits, found) refl

  -- An answer, when the session is alive and takes it, is sent on the stream.
  answer_sent :
      (inv : Invocation Handler) (response : Response) (c : Context Handler Callback)
      → send_error c.sends ≡ none
      → (respond_all send_error inv (response ∷ []) c).outbox
        ≡ c.outbox ++ ((inv.session.id, reply_frame inv.stream_id response) ∷ [])
  unfolding respond_all respond send_rpc_response send_or_drop
  answer_sent inv response c fine = rw (fine, send_or_drop) refl

  -- Some answers and then others.
  respond_all-append :
      (inv : Invocation Handler) (early late : List Response) (c : Context Handler Callback)
      → respond_all send_error inv late (respond_all send_error inv early c)
        ≡ respond_all send_error inv (early ++ late) c
  unfolding respond_all
  respond_all-append inv [] late c = refl
  respond_all-append inv (response ∷ early) late c =
      respond_all-append inv early late (respond send_error true inv response c)

  answer_received :
      (i : ℕ) (stream_id : ℕ) (cb : Callback) (response : Response) (c : Context Handler Callback)
      → status_of (status_byte response.status) ≡ response.status
      → length (build_response_payload response.status response.body) < 2 ^ 64
      → find c.dispatcher.handlers stream_id ≡ some cb
      → let s : Session = record { id = i; kind = client } in
        Answered stream_id cb response c
          (handle_frame send_error answers registry s (reply_frame stream_id response) c)
  unfolding handle_frame handle_typed handle_data handle_client_data client_response
      schedule_callback
  answer_received i stream_id cb response c named fits waits =
      rw
        (
          parse_rpc_response-build_response_payload response named fits,
          taken stream_id cb c.dispatcher waits,
        )
        (record { once = refl; gone = find-erase c.dispatcher.handlers stream_id })

  -- A call from end to end. A server that gets the request of a client, for an interface with a
  -- handler, calls the handler once with the request; the one answer that the handler gives, before
  -- it returns or later, while the session is alive and its channel takes it, goes back as one frame
  -- on the stream; and a client that gets this frame while a callback waits on the stream hands the
  -- callback that answer, once.
  pub call-response :
      (i j : ℕ) (header : FrameHeader) (stream_id : ℕ) (p : ParsedRequest) (h : Handler)
      (cb : Callback) (response : Response) (late : List Response)
      (at_server at_client : Context Handler Callback)
      → WellFormed p
      → length (request_bytes p) < 2 ^ 64
      → find_handler p.request.interface_id registry ≡ some h
      → answers (at_server.invocations ++ (call_of h i stream_id p ∷ [])) ++ late ≡ response ∷ []
      → send_error at_server.sends ≡ none
      → status_of (status_byte response.status) ≡ response.status
      → length (build_response_payload response.status response.body) < 2 ^ 64
      → find at_client.dispatcher.handlers stream_id ≡ some cb
      → let s : Session = record { id = i; kind = server } in
        let inv = call_of h i stream_id p in
        let called =
          handle_frame send_error answers registry s (request_frame header stream_id p) at_server in
        let answered = respond_all send_error inv late called in
        let reply = reply_frame stream_id response in
        let o : Session = record { id = j; kind = client } in
        (called.invocations ≡ at_server.invocations ++ (inv ∷ []))
        × (answered.outbox ≡ at_server.outbox ++ ((i, reply) ∷ []))
        × Answered stream_id cb response at_client
            (handle_frame send_error answers registry o reply at_client)
  call-response i j header stream_id p h cb response late at_server at_client good fits found once
        fine named small waits =
      let inv = call_of h i stream_id p in
      let start = with_call inv at_server in
      rw (handler_called i header stream_id p h at_server good fits found) (
        respond_all-invocations send_error inv (answers start.invocations) start,
        ap (λ c. c.outbox)
              (respond_all-append inv (answers start.invocations) late start
                ∙ ap (λ responses. respond_all send_error inv responses start) once)
            ∙ answer_sent inv response start fine,
        answer_received j stream_id cb response at_client named small waits,
      )
