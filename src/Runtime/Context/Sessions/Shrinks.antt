-- ===== src/Runtime/Context/Sessions/Shrinks.antt =====
-- What the steps of a context but a new session do to the list of sessions.
use hasten.Common.{
  ℕ, suc, ltb, ◌+◌, ◌≤◌, ◌≡◌, refl, List, [], ◌∷◌, ◌++◌, Bool, true, false, Bool-cases, Option,
  none, some, Option-cases, inl, inr, ◌==◌, if◌then◌else◌, not, ◌&&◌, arith,
}
use hasten.Runtime.Result.{Result, ok, err, fault, Error}
use hasten.Runtime.Frame.{
  Frame, FrameHeader, FrameType, data_frame, settings, goodbye, ping, cancel, error,
}
use hasten.Runtime.Rpc.{Response, Request, Registry, find_handler}
use hasten.Runtime.Wire.{ParsedRequest, parse_rpc_request, parse_rpc_response}
use hasten.Runtime.Dispatcher.{take_response_handler}
use hasten.Runtime.Context.{
  Kind, client, server, Session, Context, Invocation, without, remove_session, stop_session,
  handle_session_error, handle_settings, handle_goodbye, client_response, schedule_callback,
  handle_client_data, send_or_drop,
}
use hasten.Runtime.Context.Reactor.{
  with_call, send_rpc_response, respond, respond_all, handle_ping, call_handler, server_request,
  handle_server_data, handle_data, handle_typed,
}
use hasten.Runtime.Context.Lifecycle.{start, stop, stop_all}

-- How many of the sessions have an id.
unfoldable pub copies : ℕ → List Session → ℕ
copies id [] = 0
copies id (s ∷ sessions) = let rest = copies id sessions in if s.id == id then suc rest else rest

pub copies-append :
    (id : ℕ) (some_sessions more : List Session)
    → copies id (some_sessions ++ more) ≡ copies id some_sessions + copies id more
unfolding copies
copies-append id [] more = omega arith
copies-append id (s ∷ sessions) more = let ih = copies-append id sessions more in ground arith

pub copies-without :
    (id gone : ℕ) (sessions : List Session) → copies id (without gone sessions) ≤ copies id sessions
unfolding copies without
copies-without id gone [] = omega arith
copies-without id gone (s ∷ sessions) =
    let ih = copies-without id gone sessions in
    elim (Bool-cases (s.id == gone)) [
      | inl same ↦ rw (same, without) (ground arith)
      | inr other ↦ rw (other, without) (ground arith)
    ]

-- One session at most can have an id that was given before, and none an id that is still to come.
abbrev pub room : ℕ → ℕ → ℕ
room next id = if ltb id next then 1 else 0

-- Of the sessions in the list and those that are yet to be put there, no two have the same id, and
-- none has an id that a later session will get.
abbrev pub Distinct : {Handler Callback : Type 0} → List Session → Context Handler Callback → Type 0
Distinct pending c = (id : ℕ) → copies id pending + copies id c.sessions ≤ room c.next_session_id id

-- What a step other than a new session can do to the list.
pub data Shrinks {Handler Callback : Type 0}
    : Context Handler Callback → Context Handler Callback → Type 0 where
  kept :
      {c d : Context Handler Callback}
      → d.next_session_id ≡ c.next_session_id
      → d.sessions ≡ c.sessions
      → Shrinks c d
  removed :
      {c d : Context Handler Callback} (id : ℕ)
      → d.next_session_id ≡ c.next_session_id
      → d.sessions ≡ without id c.sessions
      → Shrinks c d
  cleared :
      {c d : Context Handler Callback}
      → d.next_session_id ≡ c.next_session_id
      → d.sessions ≡ []
      → Shrinks c d
  both : {b c d : Context Handler Callback} → Shrinks c b → Shrinks b d → Shrinks c d

module _ {Handler Callback : Type 0} where
  pub Shrinks-Distinct :
      (pending : List Session) (c d : Context Handler Callback)
      → Shrinks c d
      → Distinct pending c
      → Distinct pending d
  unfolding copies
  Shrinks-Distinct pending c d (kept n e) o id = rw (n, e) (o id)
  Shrinks-Distinct pending c d (removed gone n e) o id =
      rw (n, e) (omega (arith, o id, copies-without id gone c.sessions))
  Shrinks-Distinct pending c d (both {b = b} first more) o id =
      Shrinks-Distinct pending b d more (Shrinks-Distinct pending c b first o) id
  Shrinks-Distinct pending c d (cleared n e) o id = rw (n, e) (omega (arith, o id))

  callback-Shrinks :
      (o : Option Callback) (response : Response) (b c : Context Handler Callback)
      → b.next_session_id ≡ c.next_session_id
      → b.sessions ≡ c.sessions
      → Shrinks c (schedule_callback o response b)
  unfolding schedule_callback
  callback-Shrinks none response b c n e = kept n e
  callback-Shrinks (some cb) response b c n e = kept n e

  response-Shrinks :
      (stream_id : ℕ) (r : Result Response) (c : Context Handler Callback)
      → Shrinks c (client_response stream_id r c)
  unfolding client_response
  response-Shrinks stream_id (ok response) c =
      callback-Shrinks (take_response_handler stream_id c.dispatcher).0 response _ c refl refl
  response-Shrinks stream_id (err e) c = kept refl refl
  response-Shrinks stream_id (fault x) c = kept refl refl

  settings-Shrinks :
      (s : Session) (header : FrameHeader) (payload : List ℕ) (c : Context Handler Callback)
      → Shrinks c (handle_settings s (record { header = header; payload = payload }) c)
  unfolding handle_settings
  settings-Shrinks s header [] c = kept refl refl
  settings-Shrinks s header (byte ∷ bytes) c = kept refl refl

  stop_all-Shrinks :
      (sessions : List Session) (c d : Context Handler Callback)
      → d.next_session_id ≡ c.next_session_id
      → d.sessions ≡ []
      → Shrinks c (stop_all sessions d)
  unfolding stop_all stop_session
  stop_all-Shrinks [] c d n e = cleared n e
  stop_all-Shrinks (s ∷ sessions) c d n e = stop_all-Shrinks sessions c (stop_session s d) n e

  guarded-Shrinks :
      (done : Bool) (c d : Context Handler Callback)
      → Shrinks c d
      → Shrinks c (if done then c else d)
  guarded-Shrinks true c d h = kept refl refl
  guarded-Shrinks false c d h = h

  pub stop-Shrinks : (c : Context Handler Callback) → Shrinks c (stop c)
  unfolding stop
  stop-Shrinks c = guarded-Shrinks c.stop_requested c _ (stop_all-Shrinks c.sessions c _ refl refl)

  pub start-Shrinks : (c : Context Handler Callback) → Shrinks c (start c)
  unfolding start
  start-Shrinks c = elim (Bool-cases (c.managed_reactor && not c.reactor_running)) [
    | inl first ↦ rw (first, start) (kept refl refl)
    | inr before ↦ rw (before, start) (kept refl refl)
  ]

  module _ (send_error : ℕ → Option Error) where
    pub send_or_drop-Shrinks :
        (s : Session) (frame : Frame) (c : Context Handler Callback)
        → Shrinks c (send_or_drop send_error s frame c)
    unfolding send_or_drop handle_session_error remove_session
    send_or_drop-Shrinks s frame c = elim (Option-cases (send_error c.sends)) [
      | inl fine ↦ rw (fine, send_or_drop) (kept refl refl)
      | inr (e, broken) ↦ rw (broken, send_or_drop) (removed s.id refl refl)
    ]

    pub respond-Shrinks :
        (alive : Bool) (i : Invocation Handler) (response : Response) (c : Context Handler Callback)
        → Shrinks c (respond send_error alive i response c)
    unfolding respond send_rpc_response
    respond-Shrinks true i response c = send_or_drop-Shrinks i.session _ c
    respond-Shrinks false i response c = kept refl refl

    respond_all-Shrinks :
        (i : Invocation Handler) (responses : List Response) (c : Context Handler Callback)
        → Shrinks c (respond_all send_error i responses c)
    unfolding respond_all
    respond_all-Shrinks i [] c = kept refl refl
    respond_all-Shrinks i (response ∷ more) c =
        both (respond-Shrinks true i response c) (respond_all-Shrinks i more _)

    module _ (answers : List (Invocation Handler) → List Response) where
      handler-Shrinks :
          (s : Session) (stream_id : ℕ) (request : Request) (o : Option Handler)
          (c : Context Handler Callback)
          → Shrinks c (call_handler send_error answers s stream_id request o c)
      unfolding call_handler send_rpc_response
      handler-Shrinks s stream_id request none c = send_or_drop-Shrinks s _ c
      handler-Shrinks s stream_id request (some h) c =
          let i : Invocation Handler = record {
            handler = h;
            request = request;
            session = s;
            stream_id = stream_id;
          } in
          both {b = with_call i c} (kept refl refl)
            (respond_all-Shrinks i (answers (with_call i c).invocations) (with_call i c))

      module _ (registry : Registry Handler) where
        request-Shrinks :
            (s : Session) (stream_id : ℕ) (r : Result ParsedRequest) (c : Context Handler Callback)
            → Shrinks c (server_request send_error answers registry s stream_id r c)
        unfolding server_request send_rpc_response
        request-Shrinks s stream_id (ok parsed) c =
            handler-Shrinks s stream_id parsed.request
              (find_handler parsed.request.interface_id registry) c
        request-Shrinks s stream_id (err e) c = send_or_drop-Shrinks s _ c
        request-Shrinks s stream_id (fault x) c = kept refl refl

        data-Shrinks :
            (kind : Kind) (s : Session) (frame : Frame) (c : Context Handler Callback)
            → Shrinks c (handle_data send_error answers registry kind s frame c)
        unfolding handle_data handle_server_data handle_client_data
        data-Shrinks server s frame c =
            request-Shrinks s frame.header.stream_id (parse_rpc_request frame.payload) c
        data-Shrinks client s frame c =
            response-Shrinks frame.header.stream_id (parse_rpc_response frame.payload) c

        pub typed-Shrinks :
            (t : FrameType) (s : Session) (frame : Frame) (c : Context Handler Callback)
            → Shrinks c (handle_typed send_error answers registry t s frame c)
        unfolding handle_typed handle_ping handle_goodbye stop_session remove_session
        typed-Shrinks ping s frame c = send_or_drop-Shrinks s _ c
        typed-Shrinks settings s frame c = settings-Shrinks s frame.header frame.payload c
        typed-Shrinks goodbye s frame c = removed s.id refl refl
        typed-Shrinks cancel s frame c = kept refl refl
        typed-Shrinks error s frame c = kept refl refl
        typed-Shrinks data_frame s frame c = data-Shrinks s.kind s frame c
