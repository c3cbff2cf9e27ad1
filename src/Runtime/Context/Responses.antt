-- ===== src/Runtime/Context/Responses.antt =====
-- What a data frame does at a client, whatever is in it.
use hasten.Common.{
  ℕ, ◌+◌, ◌≤◌, ◌≡◌, refl, [], ◌∷◌, Option, none, some, Option-cases, inl, inr, length,
  length-append, arith,
}
use hasten.Runtime.Result.{Result, ok, err, fault, IsDefined}
use hasten.Runtime.Frame.{Frame}
use hasten.Runtime.Rpc.{find, Response}
use hasten.Runtime.Rpc.Laws.{find-erase}
use hasten.Runtime.Wire.{parse_rpc_response}
use hasten.Runtime.Wire.Total.{parse_rpc_response-IsDefined}
use hasten.Runtime.Dispatcher.{SimpleDispatcher, take_response_handler, close_stream}
use hasten.Runtime.Context.{
  Session, Context, schedule_callback, client_response, handle_client_data,
}

-- No callback waits on the stream, and one more at most was scheduled.
pub record Retired {Handler Callback : Type 0} (stream_id : ℕ)
    (before after : Context Handler Callback) : Type 0 where
  pub gone : find after.dispatcher.handlers stream_id ≡ none
  pub once : length after.scheduled ≤ length before.scheduled + 1

taken_gone :
    {Callback : Type 0} (stream_id : ℕ) (d : SimpleDispatcher Callback)
    → find (take_response_handler stream_id d).1.handlers stream_id ≡ none
unfolding take_response_handler
taken_gone stream_id d = elim (Option-cases (find d.handlers stream_id)) [
  | inl free ↦ rw (free, take_response_handler) free
  | inr (cb, waits) ↦ rw (waits, take_response_handler) (find-erase d.handlers stream_id)
]

module _ {Handler Callback : Type 0} where
  callback-Retired :
      (stream_id : ℕ) (o : Option Callback) (response : Response) (b c : Context Handler Callback)
      → find b.dispatcher.handlers stream_id ≡ none
      → b.scheduled ≡ c.scheduled
      → Retired stream_id c (schedule_callback o response b)
  unfolding schedule_callback
  callback-Retired stream_id none response b c g e = record { gone = g; once = rw e (omega arith) }
  callback-Retired stream_id (some cb) response b c g e = record {
    gone = g;
    once = rw e (omega (arith, length-append c.scheduled ((cb, response) ∷ [])));
  }

  response-Retired :
      (stream_id : ℕ) (r : Result Response) (c : Context Handler Callback)
      → IsDefined r
      → Retired stream_id c (client_response stream_id r c)
  unfolding client_response close_stream
  response-Retired stream_id (ok response) c h =
      callback-Retired stream_id (take_response_handler stream_id c.dispatcher).0 response _ c
        (taken_gone stream_id c.dispatcher) refl
  response-Retired stream_id (err e) c h = record {
    gone = find-erase c.dispatcher.handlers stream_id;
    once = omega arith;
  }
  response-Retired stream_id (fault x) c h = absurd h

  -- After any data frame at a client, parsed or not, no callback waits on its stream, and at most
  -- one more was scheduled.
  pub handle_client_data-Retired :
      (s : Session) (frame : Frame) (c : Context Handler Callback)
      → Retired frame.header.stream_id c (handle_client_data s frame c)
  unfolding handle_client_data
  handle_client_data-Retired s frame c =
      response-Retired frame.header.stream_id (parse_rpc_response frame.payload) c
        (parse_rpc_response-IsDefined frame.payload)
