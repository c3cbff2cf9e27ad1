-- ===== src/Runtime/Context/Requests.antt =====
-- What becomes of a data frame at a server, whatever is in it.
use hasten.Common.{
  ℕ, ◌+◌, ◌≡◌, [], ◌∷◌, Option, none, some, Option-cases, inl, inr, length, arith, List, ◌++◌, refl,
  sym, ap, ◌∙◌,
}
use hasten.Runtime.Result.{Result, ok, err, fault, Error, IsDefined}
use hasten.Runtime.Frame.{Frame}
use hasten.Runtime.Rpc.{Request, Response, Registry, find_handler}
use hasten.Runtime.Wire.{ParsedRequest, parse_rpc_request}
use hasten.Runtime.Wire.Total.{parse_rpc_request-IsDefined}
use hasten.Runtime.Context.{
  Session, Context, Invocation, reply_frame, send_or_drop, handle_session_error, remove_session,
}
use hasten.Runtime.Context.Reactor.{
  with_call, send_rpc_response, respond, respond_all, call_handler, server_request,
  handle_server_data,
}

-- The call of a handler with a request, if there is a handler.
abbrev with_request : {Handler : Type 0} → Request → Option Handler → Option (Handler × Request)
with_request request none = none
with_request request (some h) = some (h, request)

-- The call for a request that was parsed, if it was and there is a handler for its interface.
abbrev call_for :
    {Handler : Type 0} → Registry Handler → Result ParsedRequest → Option (Handler × Request)
call_for registry (ok p) = with_request p.request (find_handler p.request.interface_id registry)
call_for registry (err e) = none
call_for registry (fault x) = none

-- The call for the bytes of a request.
abbrev pub wanted_call : {Handler : Type 0} → Registry Handler → List ℕ → Option (Handler × Request)
wanted_call registry payload = call_for registry (parse_rpc_request payload)

-- Either no call is wanted, none is made, and the `send` of a channel is called once, or one is
-- wanted, it is made once, with a responder for the session and the stream, and `send` is called once
-- for each answer that the handler gives before it returns.
pub data Attended {Handler Callback : Type 0} (answers : List (Invocation Handler) → List Response)
    (wanted : Option (Handler × Request)) (s : Session) (stream_id : ℕ)
    (before after : Context Handler Callback) : Type 0 where
  by_reactor :
      wanted ≡ none
      → after.invocations ≡ before.invocations
      → after.sends ≡ before.sends + 1
      → Attended answers wanted s stream_id before after
  by_handler :
      (i : Invocation Handler)
      → wanted ≡ some (i.handler, i.request)
      → i.session ≡ s
      → i.stream_id ≡ stream_id
      → after.invocations ≡ before.invocations ++ (i ∷ [])
      → after.sends ≡ before.sends + length (answers after.invocations)
      → Attended answers wanted s stream_id before after

module _ {Handler Callback : Type 0} (send_error : ℕ → Option Error) where
  send_or_drop-invocations :
      (s : Session) (frame : Frame) (c : Context Handler Callback)
      → (send_or_drop send_error s frame c).invocations ≡ c.invocations
  unfolding send_or_drop handle_session_error remove_session
  send_or_drop-invocations s frame c = elim (Option-cases (send_error c.sends)) [
    | inl fine ↦ rw (fine, send_or_drop) refl
    | inr (e, broken) ↦ rw (broken, send_or_drop) refl
  ]

  send_or_drop-sends :
      (s : Session) (frame : Frame) (c : Context Handler Callback)
      → (send_or_drop send_error s frame c).sends ≡ c.sends + 1
  unfolding send_or_drop handle_session_error remove_session
  send_or_drop-sends s frame c = elim (Option-cases (send_error c.sends)) [
    | inl fine ↦ rw (fine, send_or_drop) refl
    | inr (e, broken) ↦ rw (broken, send_or_drop) refl
  ]

  pub respond_all-invocations :
      (i : Invocation Handler) (responses : List Response) (c : Context Handler Callback)
      → (respond_all send_error i responses c).invocations ≡ c.invocations
  unfolding respond_all respond send_rpc_response
  respond_all-invocations i [] c = refl
  respond_all-invocations i (response ∷ more) c =
      respond_all-invocations i more _ ∙ send_or_drop-invocations i.session _ c

  respond_all-sends :
      (i : Invocation Handler) (responses : List Response) (c : Context Handler Callback)
      → (respond_all send_error i responses c).sends ≡ c.sends + length responses
  unfolding respond_all respond send_rpc_response
  respond_all-sends i [] c = omega arith
  respond_all-sends i (response ∷ more) c =
      let after = send_or_drop send_error i.session (reply_frame i.stream_id response) c in
      omega (
        arith,
        respond_all-sends i more after,
        send_or_drop-sends i.session (reply_frame i.stream_id response) c,
      )

  module _ (answers : List (Invocation Handler) → List Response) where
    call_handler-Attended :
        (s : Session) (stream_id : ℕ) (request : Request) (o : Option Handler)
        (c : Context Handler Callback)
        → Attended answers
            (with_request request o)
            s
            stream_id
            c
            (call_handler send_error answers s stream_id request o c)
    unfolding call_handler send_rpc_response
    call_handler-Attended s stream_id request none c =
        by_reactor refl (send_or_drop-invocations s _ c) (send_or_drop-sends s _ c)
    call_handler-Attended s stream_id request (some h) c =
        let i : Invocation Handler = record {
          handler = h;
          request = request;
          session = s;
          stream_id = stream_id;
        } in
        let called = with_call i c in
        let same = respond_all-invocations i (answers called.invocations) called in
        by_handler i refl refl refl same (
          respond_all-sends i (answers called.invocations) called
          ∙ ap (λ calls. c.sends + length (answers calls)) (sym same))

    module _ (registry : Registry Handler) where
      server_request-Attended :
          (s : Session) (stream_id : ℕ) (r : Result ParsedRequest) (c : Context Handler Callback)
          → IsDefined r
          → Attended answers
              (call_for registry r)
              s
              stream_id
              c
              (server_request send_error answers registry s stream_id r c)
      unfolding server_request send_rpc_response
      server_request-Attended s stream_id (ok p) c h =
          call_handler-Attended s stream_id p.request (find_handler p.request.interface_id registry)
            c
      server_request-Attended s stream_id (err e) c h =
          by_reactor refl (send_or_drop-invocations s _ c) (send_or_drop-sends s _ c)
      server_request-Attended s stream_id (fault x) c h = absurd h

      -- What becomes of any data frame at a server. If its payload is not a request, or there is no
      -- handler for the interface of the request, no handler is called, and the channel's `send` is
      -- called exactly once. If there is one, it is called exactly once, with the request and a
      -- responder for the session and the stream of the frame, no other is called, and `send` is
      -- called exactly once for each answer that it gives before it returns.
      pub handle_server_data-Attended :
          (s : Session) (frame : Frame) (c : Context Handler Callback)
          → Attended answers
              (wanted_call registry frame.payload)
              s
              frame.header.stream_id
              c
              (handle_server_data send_error answers registry s frame c)
      unfolding handle_server_data
      handle_server_data-Attended s frame c =
          server_request-Attended s frame.header.stream_id (parse_rpc_request frame.payload) c
            (parse_rpc_request-IsDefined frame.payload)
