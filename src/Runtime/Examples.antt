-- ===== src/Runtime/Examples.antt =====
-- A request, a response, and a few calls of a dispatcher, and the theorems at them.
use hasten.Common.{ℕ, ◌≤◌, ◌≡◌, ◌≢◌, refl, List, [], ◌∷◌, some, arith}
use hasten.Runtime.Result.{ok}
use hasten.Runtime.Varint.{encode_varint}
use hasten.Runtime.Payload.Laws.{source_at}
use hasten.Runtime.Hb1.Reader
use hasten.Runtime.Rpc.{
  find, Response, Registry, hb1, application_error, find_handler, register_handler,
}
use hasten.Runtime.Rpc.Laws.{find_handler-register_handler}
use hasten.Runtime.Wire.{
  read_varint, ParsedRequest, parse_rpc_request, build_response_payload, parse_rpc_response,
}
use hasten.Runtime.Wire.Agreement.{Agree, readers_Agree}
use hasten.Runtime.Wire.RoundTrip.{
  WellFormed, request_bytes, parse_rpc_request-request_bytes,
  parse_rpc_response-build_response_payload,
}
use hasten.Runtime.Dispatcher.{make_dispatcher}
use hasten.Runtime.Dispatcher.Histories.{
  Call, open_call, close_call, set_call, take_call, Ascending, opened, takes, sets, takes_at_most,
  opened-Ascending,
}

abbrev echo_request : ParsedRequest
echo_request = record {
  request = record {
    module_id = 1;
    interface_id = 300;
    method_id = 2;
    encoding = hb1;
    payload = 7 ∷ 8 ∷ [];
  };
  request_id = 5;
}

echo_bytes : request_bytes echo_request ≡ 1 ∷ 0xac ∷ 2 ∷ 2 ∷ 0 ∷ 5 ∷ 7 ∷ 8 ∷ []
unfolding request_bytes encode_varint
echo_bytes = refl

echo_WellFormed : WellFormed echo_request
echo_WellFormed = record {
  module_u64 = omega arith;
  interface_u64 = omega arith;
  method_u64 = omega arith;
  encoding_hb1 = refl;
  request_u64 = omega arith;
}

parse_rpc_request-request_bytes_example :
    parse_rpc_request (request_bytes echo_request) ≡ ok echo_request
parse_rpc_request-request_bytes_example =
    parse_rpc_request-request_bytes echo_request echo_WellFormed (rw echo_bytes (omega arith))

abbrev failure : Response
failure = record { status = application_error; body = 1 ∷ 2 ∷ [] }

failure_bytes : build_response_payload failure.status failure.body ≡ 0 ∷ 1 ∷ 1 ∷ 2 ∷ []
unfolding build_response_payload encode_varint
failure_bytes = refl

parse_rpc_response-build_response_payload_example :
    parse_rpc_response (build_response_payload application_error (1 ∷ 2 ∷ [])) ≡ ok failure
parse_rpc_response-build_response_payload_example =
    parse_rpc_response-build_response_payload failure refl (rw failure_bytes (omega arith))

readers_Agree_example :
    Agree
      (9 ∷ 0xac ∷ 2 ∷ 5 ∷ [])
      (read_varint (9 ∷ 0xac ∷ 2 ∷ 5 ∷ []) 1)
      (Reader.read_varint (source_at (9 ∷ []) (0xac ∷ 2 ∷ 5 ∷ [])))
readers_Agree_example = readers_Agree (9 ∷ []) (0xac ∷ 2 ∷ 5 ∷ []) (omega arith)

abbrev registry : Registry ℕ
registry = (1, 10) ∷ (3, 30) ∷ []

handler_found :
    (find_handler {Handler = ℕ} 3 (register_handler 3 40 registry) ≡ some 40)
    × ((other : ℕ)
        → other ≢ 3
        → find_handler {Handler = ℕ} other (register_handler 3 40 registry)
          ≡ find_handler other registry)
handler_found = find_handler-register_handler registry 3 40

-- Two streams; the handler of the first is taken twice.
abbrev calls : List (Call ℕ)
calls = open_call ∷ set_call 1 50 ∷ open_call ∷ take_call 1 ∷ take_call 1 ∷ close_call 2 ∷ []

takes_at_most_example : takes 1 calls make_dispatcher ≤ 1
unfolding sets find
takes_at_most_example = takes_at_most 1 calls make_dispatcher

opened-Ascending_example : Ascending 1 (opened calls make_dispatcher)
opened-Ascending_example = opened-Ascending calls make_dispatcher (omega arith)
