-- ===== src/Runtime/Context/Replies.antt =====
-- What the reactor sends for a frame.
use hasten.Common.{
  ℕ, ◌+◌, ap, ◌∙◌, append_assoc, All-append, length-append, ◌≤◌, ◌≡◌, refl, List, [], ◌∷◌, ◌++◌,
  append-nil, Option, none, some, Option-cases, inl, inr, length, All, arith,
}
use hasten.Runtime.Result.{Result, ok, err, fault, Error}
use hasten.Runtime.Frame.{
  Frame, FrameHeader, FrameType, data_frame, settings, goodbye, ping, cancel, error,
}
use hasten.Runtime.Rpc.{Response, Request, Registry, find_handler}
use hasten.Runtime.Wire.{ParsedRequest, parse_rpc_request, parse_rpc_response}
use hasten.Runtime.Dispatcher.{take_response_handler}
use hasten.Runtime.Context.{
  Kind, client, server, Session, Context, Invocation, reply_frame, remove_session, stop_session,
  handle_session_error, handle_settings, handle_goodbye, client_response, schedule_callback,
  handle_client_data, send_or_drop,
}
use hasten.Runtime.Context.Reactor.{
  with_call, send_rpc_response, respond, respond_all, handle_ping, call_handler, server_request,
  handle_server_data, handle_data, handle_typed, handle_frame,
}

-- As many frames at most were sent since, all of them to the session and on the stream. Nothing else
-- that is named here was changed.
pub record Sent {Handler Callback : Type 0} (s : Session) (stream_id most : ℕ)
    (before after : Context Handler Callback) : Type 0 where
  pub replies : List (ℕ × Frame)
  pub now_sent : after.outbox ≡ before.outbox ++ replies
  pub to_sender : All (λ p. (p.0 ≡ s.id) × (p.1.header.stream_id ≡ stream_id)) replies
  pub at_most : length replies ≤ most
  pub same_queue : after.frame_queue ≡ before.frame_queue
  pub same_stop : after.stop_requested ≡ before.stop_requested
  pub same_invocations : after.invocations ≡ before.invocations

-- Either no handler was called, and one frame at most was sent, or one handler was, and as many
-- frames at most were sent as it answered before it returned.
pub data Replies {Handler Callback : Type 0} (answers : List (Invocation Handler) → List Response)
    (s : Session) (stream_id : ℕ) (before after : Context Handler Callback) : Type 0 where
  no_call : Sent s stream_id 1 before after → Replies answers s stream_id before after
  one_call :
      (i : Invocation Handler)
      → i.session ≡ s
      → i.stream_id ≡ stream_id
      → Sent s stream_id
          (length (answers (with_call i before).invocations))
          (with_call i before)
          after
      → Replies answers s stream_id before after

module _ {Handler Callback : Type 0} where
  -- A step that sends nothing.
  quiet :
      (s : Session) (stream_id most : ℕ) (c d : Context Handler Callback)
      → d.outbox ≡ c.outbox
      → d.frame_queue ≡ c.frame_queue
      → d.stop_requested ≡ c.stop_requested
      → d.invocations ≡ c.invocations
      → Sent s stream_id most c d
  quiet s stream_id most c d o q r v = record {
    replies = [];
    now_sent = rw (append-nil c.outbox) o;
    to_sender = tt;
    at_most = omega arith;
    same_queue = q;
    same_stop = r;
    same_invocations = v;
  }

  callback-Sent :
      (s : Session) (stream_id : ℕ) (o : Option Callback) (response : Response)
      (b c : Context Handler Callback)
      → b.outbox ≡ c.outbox
      → b.frame_queue ≡ c.frame_queue
      → b.stop_requested ≡ c.stop_requested
      → b.invocations ≡ c.invocations
      → Sent s stream_id 1 c (schedule_callback o response b)
  unfolding schedule_callback
  callback-Sent s stream_id none response b c o q r v = quiet s stream_id 1 c b o q r v
  callback-Sent s stream_id (some cb) response b c o q r v = quiet s stream_id 1 c _ o q r v

  response-Sent :
      (s : Session) (stream_id : ℕ) (r : Result Response) (c : Context Handler Callback)
      → Sent s stream_id 1 c (client_response stream_id r c)
  unfolding client_response
  response-Sent s stream_id (ok response) c =
      callback-Sent s stream_id (take_response_handler stream_id c.dispatcher).0 response _ c refl
        refl refl refl
  response-Sent s stream_id (err e) c = quiet s stream_id 1 c _ refl refl refl refl
  response-Sent s stream_id (fault x) c = quiet s stream_id 1 c c refl refl refl refl

  settings-Sent :
      (s : Session) (header : FrameHeader) (payload : List ℕ) (stream_id : ℕ)
      (c : Context Handler Callback)
      → Sent s stream_id 1 c (handle_settings s (record { header = header; payload = payload }) c)
  unfolding handle_settings
  settings-Sent s header [] stream_id c = quiet s stream_id 1 c _ refl refl refl refl
  settings-Sent s header (byte ∷ bytes) stream_id c = quiet s stream_id 1 c _ refl refl refl refl

  -- What is sent in two steps.
  behind :
      {s : Session} {stream_id m n most : ℕ} {c d e : Context Handler Callback}
      → Sent s stream_id m c d
      → Sent s stream_id n d e
      → m + n ≤ most
      → Sent s stream_id most c e
  behind {s = s} {stream_id = stream_id} {c = c} first more bound = record {
    replies = first.replies ++ more.replies;
    now_sent =
        more.now_sent
        ∙ ap (λ sent. sent ++ more.replies) first.now_sent
        ∙ append_assoc c.outbox first.replies more.replies;
    to_sender =
        All-append (λ p. (p.0 ≡ s.id) × (p.1.header.stream_id ≡ stream_id)) first.replies
          more.replies first.to_sender more.to_sender;
    at_most =
        omega (arith, length-append first.replies more.replies, first.at_most, more.at_most, bound);
    same_queue = more.same_queue ∙ first.same_queue;
    same_stop = more.same_stop ∙ first.same_stop;
    same_invocations = more.same_invocations ∙ first.same_invocations;
  }

  pub Replies-frame_queue :
      {answers : List (Invocation Handler) → List Response} {s : Session} {stream_id : ℕ}
      {c d : Context Handler Callback}
      → Replies answers s stream_id c d
      → d.frame_queue ≡ c.frame_queue
  Replies-frame_queue (no_call sent) = sent.same_queue
  Replies-frame_queue (one_call i at on sent) = sent.same_queue

  pub Replies-stop_requested :
      {answers : List (Invocation Handler) → List Response} {s : Session} {stream_id : ℕ}
      {c d : Context Handler Callback}
      → Replies answers s stream_id c d
      → d.stop_requested ≡ c.stop_requested
  Replies-stop_requested (no_call sent) = sent.same_stop
  Replies-stop_requested (one_call i at on sent) = sent.same_stop

  module _ (send_error : ℕ → Option Error) where
    send_or_drop-Sent :
        (s : Session) (frame : Frame) (c : Context Handler Callback)
        → Sent s frame.header.stream_id 1 c (send_or_drop send_error s frame c)
    unfolding send_or_drop handle_session_error remove_session
    send_or_drop-Sent s frame c = elim (Option-cases (send_error c.sends)) [
      | inl fine ↦
          rw (fine, send_or_drop)
            (record {
              replies = (s.id, frame) ∷ [];
              now_sent = refl;
              to_sender = ((refl, refl), tt);
              at_most = omega arith;
              same_queue = refl;
              same_stop = refl;
              same_invocations = refl;
            })
      | inr (e, broken) ↦
          rw (broken, send_or_drop) (quiet s frame.header.stream_id 1 c _ refl refl refl refl)
    ]

    respond_all-Sent :
        (i : Invocation Handler) (responses : List Response) (c : Context Handler Callback)
        → Sent i.session i.stream_id (length responses) c (respond_all send_error i responses c)
    unfolding respond_all respond send_rpc_response
    respond_all-Sent i [] c = quiet i.session i.stream_id 0 c c refl refl refl refl
    respond_all-Sent i (response ∷ more) c =
        behind (send_or_drop-Sent i.session (reply_frame i.stream_id response) c)
          (respond_all-Sent i more _) (omega arith)

    module _ (answers : List (Invocation Handler) → List Response) where
      handler-Replies :
          (s : Session) (stream_id : ℕ) (request : Request) (o : Option Handler)
          (c : Context Handler Callback)
          → Replies answers s stream_id c (call_handler send_error answers s stream_id request o c)
      unfolding call_handler send_rpc_response
      handler-Replies s stream_id request none c = no_call (send_or_drop-Sent s _ c)
      handler-Replies s stream_id request (some h) c =
          let i : Invocation Handler = record {
            handler = h;
            request = request;
            session = s;
            stream_id = stream_id;
          } in
          one_call i refl refl (respond_all-Sent i _ (with_call i c))

      module _ (registry : Registry Handler) where
        request-Replies :
            (s : Session) (stream_id : ℕ) (r : Result ParsedRequest) (c : Context Handler Callback)
            → Replies answers s stream_id c
                (server_request send_error answers registry s stream_id r c)
        unfolding server_request send_rpc_response
        request-Replies s stream_id (ok parsed) c =
            handler-Replies s stream_id parsed.request
              (find_handler parsed.request.interface_id registry) c
        request-Replies s stream_id (err e) c = no_call (send_or_drop-Sent s _ c)
        request-Replies s stream_id (fault x) c =
            no_call (quiet s stream_id 1 c c refl refl refl refl)

        data-Replies :
            (kind : Kind) (s : Session) (frame : Frame) (c : Context Handler Callback)
            → Replies answers s frame.header.stream_id c
                (handle_data send_error answers registry kind s frame c)
        unfolding handle_data handle_server_data handle_client_data
        data-Replies server s frame c =
            request-Replies s frame.header.stream_id (parse_rpc_request frame.payload) c
        data-Replies client s frame c =
            no_call (response-Sent s frame.header.stream_id (parse_rpc_response frame.payload) c)

        typed-Replies :
            (t : FrameType) (s : Session) (frame : Frame) (c : Context Handler Callback)
            → Replies answers s frame.header.stream_id c
                (handle_typed send_error answers registry t s frame c)
        unfolding handle_typed handle_ping handle_goodbye stop_session remove_session
        typed-Replies ping s frame c = no_call (send_or_drop-Sent s _ c)
        typed-Replies settings s frame c =
            no_call (settings-Sent s frame.header frame.payload frame.header.stream_id c)
        typed-Replies goodbye s frame c =
            no_call (quiet s frame.header.stream_id 1 c _ refl refl refl refl)
        typed-Replies cancel s frame c =
            no_call (quiet s frame.header.stream_id 1 c c refl refl refl refl)
        typed-Replies error s frame c =
            no_call (quiet s frame.header.stream_id 1 c c refl refl refl refl)
        typed-Replies data_frame s frame c = data-Replies s.kind s frame c

        pub handle_frame-Replies :
            (s : Session) (frame : Frame) (c : Context Handler Callback)
            → Replies answers s frame.header.stream_id c
                (handle_frame send_error answers registry s frame c)
        unfolding handle_frame
        handle_frame-Replies s frame c = typed-Replies frame.header.type s frame c
