-- ===== src/Runtime/Context/Examples.antt =====
-- A server with one handler and a client with one call, and the theorems at them.
use hasten.Common.{ℕ, List, ◌≡◌, refl, [], ◌∷◌, false, true, Option, none, some, All, ◌==◌, arith}
use hasten.Runtime.Result.{Error}
use hasten.Runtime.Varint.{encode_varint}
use hasten.Runtime.Frame.{Frame, new_header, ping}
use hasten.Runtime.Rpc.{find, hb1, application_error, Response, Registry, find_handler}
use hasten.Runtime.Wire.{ParsedRequest, build_response_payload}
use hasten.Runtime.Wire.RoundTrip.{WellFormed, request_bytes}
use hasten.Runtime.Context.{
  client, server, Session, Context, Invocation, reply_frame, handle_client_data, handle_goodbye,
}
use hasten.Runtime.Context.Lifecycle.{new_context, new_session, push_session, start}
use hasten.Runtime.Context.Reactor.{
  handle_frame, handle_server_data, respond_all, run, poll, processed, waiting,
}
use hasten.Runtime.Context.Replies.{Replies}
use hasten.Runtime.Context.Drain.{handle_all, run-poll-drain}
use hasten.Runtime.Context.Requests.{Attended, wanted_call, handle_server_data-Attended}
use hasten.Runtime.Context.Responses.{Retired, handle_client_data-Retired}
use hasten.Runtime.Context.Stopping.{running_at, handle_goodbye-ends}
use hasten.Runtime.Context.Sessions.Shrinks.{Distinct}
use hasten.Runtime.Context.Sessions.{Reachable, made, numbered, pushed, running, Reachable-Distinct}
use hasten.Runtime.Context.RoundTrip.{request_frame, Answered, call-response}

abbrev no_error : ℕ → Option Error
no_error n = none

-- The handler answers later.
abbrev no_answer : List (Invocation ℕ) → List Response
no_answer calls = []

abbrev one_handler : Registry ℕ
one_handler = (300, 90) ∷ []

abbrev fresh : Context ℕ ℕ
fresh = record {
  dispatcher = record { next_id = 2; handlers = (1, 60) ∷ [] };
  stop_requested = false;
  reactor_running = false;
  managed_reactor = true;
  frame_queue = [];
  sessions = [];
  states = [];
  listeners = [];
  next_session_id = 1;
  sends = 0;
  outbox = [];
  invocations = [];
  scheduled = [];
}

abbrev at_server : Session
at_server = record { id = 4; kind = server }

abbrev at_client : Session
at_client = record { id = 7; kind = client }

abbrev echo_request : ParsedRequest
echo_request = record {
  request = record {
    module_id = 1;
    interface_id = 300;
    method_id = 2;
    encoding = hb1;
    payload = 7 ∷ 8 ∷ [];
  };
  request_id = 1;
}

echo_WellFormed : WellFormed echo_request
echo_WellFormed = record {
  module_u64 = omega arith;
  interface_u64 = omega arith;
  method_u64 = omega arith;
  encoding_hb1 = refl;
  request_u64 = omega arith;
}

echo_bytes : request_bytes echo_request ≡ 1 ∷ 0xac ∷ 2 ∷ 2 ∷ 0 ∷ 1 ∷ 7 ∷ 8 ∷ []
unfolding request_bytes encode_varint
echo_bytes = refl

abbrev failure : Response
failure = record { status = application_error; body = 1 ∷ 2 ∷ [] }

failure_bytes : build_response_payload failure.status failure.body ≡ 0 ∷ 1 ∷ 1 ∷ 2 ∷ []
unfolding build_response_payload encode_varint
failure_bytes = refl

found : find_handler 300 one_handler ≡ some 90
unfolding find_handler find
found = refl

waits : find fresh.dispatcher.handlers 1 ≡ some 60
unfolding find
waits = refl

abbrev invocation : Invocation ℕ
invocation = record {
  handler = 90;
  request = echo_request.request;
  session = at_server;
  stream_id = 1;
}

call-response_example :
    let called =
      handle_frame no_error no_answer one_handler at_server
        (request_frame new_header 1 echo_request)
        fresh in
    (called.invocations ≡ invocation ∷ [])
    × ((respond_all no_error invocation (failure ∷ []) called).outbox
        ≡ (4, reply_frame 1 failure) ∷ [])
    × Answered 1 60 failure fresh
        (handle_frame no_error no_answer one_handler at_client (reply_frame 1 failure) fresh)
call-response_example =
    call-response no_error no_answer one_handler 4 7 new_header 1 echo_request 90 60 failure
      (failure ∷ []) fresh fresh echo_WellFormed (rw echo_bytes (omega arith)) found refl refl refl
      (rw failure_bytes (omega arith)) waits

-- The handler answers before it returns.
abbrev at_once : List (Invocation ℕ) → List Response
at_once calls = failure ∷ []

answered_at_once :
    (handle_frame no_error at_once one_handler at_server
      (request_frame new_header 1 echo_request)
      fresh).outbox
    ≡ (4, reply_frame 1 failure) ∷ []
unfolding respond_all
answered_at_once =
    (call-response no_error at_once one_handler 4 7 new_header 1 echo_request 90 60 failure [] fresh
      fresh echo_WellFormed (rw echo_bytes (omega arith)) found refl refl refl
      (rw failure_bytes (omega arith)) waits).1

abbrev junk : Frame
junk = record { header = record new_header { stream_id = 9 }; payload = 200 ∷ [] }

handle_server_data-Attended_example :
    Attended at_once
      (wanted_call one_handler (request_frame new_header 1 echo_request).payload)
      at_server
      1
      fresh
      (handle_server_data no_error at_once one_handler at_server
        (request_frame new_header 1 echo_request)
        fresh)
handle_server_data-Attended_example =
    handle_server_data-Attended no_error at_once one_handler at_server
      (request_frame new_header 1 echo_request) fresh

handle_client_data-Retired_example : Retired 9 fresh (handle_client_data at_client junk fresh)
handle_client_data-Retired_example = handle_client_data-Retired at_client junk fresh

abbrev busy : Context ℕ ℕ
busy = record fresh {
  frame_queue =
      record { session = at_server; frame = junk }
      ∷ record {
        session = at_client;
        frame = record { header = record new_header { type = ping }; payload = [] };
      }
      ∷ [];
  sessions = at_server ∷ at_client ∷ [];
}

run-poll-drain_example :
    let after = handle_all no_error no_answer one_handler busy.frame_queue busy in
    (poll no_error no_answer one_handler busy ≡ processed 2 after)
    × (run no_error no_answer one_handler busy ≡ waiting 2 after)
    × (after.frame_queue ≡ [])
run-poll-drain_example = run-poll-drain no_error no_answer one_handler busy

session_ended :
    (running_at 4 (handle_goodbye at_server junk busy).states ≡ false)
    × All (λ t. (t.id == 4) ≡ false) (handle_goodbye at_server junk busy).sessions
session_ended = handle_goodbye-ends at_server junk busy

-- Two threads have made a session each, and the second one is put into the list first.
abbrev client_one : Session
client_one = record { id = 1; kind = client }

abbrev server_two : Session
server_two = record { id = 2; kind = server }

abbrev both_numbered : Context ℕ ℕ
both_numbered = (new_session server (new_session client (new_context true)).1).1

abbrev two_sessions : Context ℕ ℕ
two_sessions = push_session client_one (push_session server_two both_numbered)

two_sessions-listed : two_sessions.sessions ≡ server_two ∷ client_one ∷ []
unfolding new_context new_session push_session
two_sessions-listed = refl

two_sessions-Reachable : Reachable no_error no_answer one_handler [] two_sessions
unfolding new_context new_session
two_sessions-Reachable = pushed [] client_one [] (
    pushed [] server_two (client_one ∷ [])
      (numbered server (omega arith) (numbered client (omega arith) (made true))))

Reachable-Distinct_example : Distinct [] (start two_sessions)
Reachable-Distinct_example =
    Reachable-Distinct no_error no_answer one_handler (running two_sessions-Reachable)
