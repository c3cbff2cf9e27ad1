-- ===== src/Runtime/Dispatcher.antt =====
-- `SimpleDispatcher` of src/runtime/uds.cpp: the ids of streams, and the handlers that wait for the
-- responses on them. Each operation holds the mutex or is one atomic step, so that the operations
-- of all threads come in some order.
pub mod Histories
use hasten.Common.{ℕ, ◌+◌, ◌%◌, ◌^◌, List, [], Option, none, some}
use hasten.Runtime.Rpc.{find, assign, erase}

pub record SimpleDispatcher {ℓ} (Responder : Type ℓ) : Type ℓ where
  pub next_id : ℕ  -- uint64_t
  pub handlers : List (ℕ × Responder)

abbrev pub make_dispatcher {ℓ} : {Responder : Type ℓ} → SimpleDispatcher Responder
make_dispatcher = record { next_id = 1; handlers = [] }

module _ {ℓ} {Responder : Type ℓ} where
  unfoldable pub open_stream : SimpleDispatcher Responder → ℕ × SimpleDispatcher Responder
  open_stream d = (d.next_id, record d { next_id = (d.next_id + 1) % 2 ^ 64 })

  unfoldable pub close_stream : ℕ → SimpleDispatcher Responder → SimpleDispatcher Responder
  close_stream stream_id d = record d { handlers = erase d.handlers stream_id }

  unfoldable pub set_response_handler :
      ℕ → Responder → SimpleDispatcher Responder → SimpleDispatcher Responder
  set_response_handler stream_id handler d = record d {
    handlers = assign d.handlers stream_id handler;
  }

  unfoldable pub take_response_handler :
      ℕ → SimpleDispatcher Responder → Option Responder × SimpleDispatcher Responder
  take_response_handler stream_id d = elim (find d.handlers stream_id) [
    | none ↦ (none, d)
    | some handler ↦ (some handler, record d { handlers = erase d.handlers stream_id })
  ]
