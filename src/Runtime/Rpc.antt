-- ===== src/Runtime/Rpc.antt =====
-- src/runtime/include/hasten/runtime/rpc.hpp and src/runtime/rpc.cpp: requests, responses and the
-- registry of handlers by interface.
pub mod Laws
use hasten.Common.{ℕ, List, [], ◌∷◌, Option, none, some, ◌==◌, if◌then◌else◌}

-- `Encoding`, whose one enumerator is 0. A cast gives it any value.
pub data Encoding : Type 0 where
  hb1 : Encoding
  other_encoding : ℕ → Encoding

abbrev pub encoding_id : Encoding → ℕ
encoding_id hb1 = 0
encoding_id (other_encoding n) = n

-- A cast of a byte to `Encoding`.
abbrev pub encoding_of : ℕ → Encoding
encoding_of byte = if byte == 0 then hb1 else other_encoding byte

-- `Status`, with a byte below it. A cast gives it any value.
pub data Status : Type 0 where
  ok application_error invalid_request not_found internal_error : Status
  other_status : ℕ → Status

abbrev pub status_byte : Status → ℕ
status_byte ok = 0
status_byte application_error = 1
status_byte invalid_request = 2
status_byte not_found = 3
status_byte internal_error = 4
status_byte (other_status n) = n

-- `static_cast<Status>(byte)`
abbrev pub status_of : ℕ → Status
status_of byte =
    if byte == 0
    then ok
    else if byte == 1
    then application_error
    else if byte == 2
    then invalid_request
    else if byte == 3
    then not_found
    else if byte == 4
    then internal_error
    else other_status byte

-- The span `payload` is all of `payload_storage`.
pub record Request : Type 0 where
  pub module_id : ℕ  -- uint64_t
  pub interface_id : ℕ  -- uint64_t
  pub method_id : ℕ  -- uint64_t
  pub encoding : Encoding
  pub payload : List ℕ

pub record Response : Type 0 where
  pub status : Status
  pub body : List ℕ

module _ {ℓ} {Handler : Type ℓ} where
  -- The map of the registry and of the dispatcher, a key at most once.
  unfoldable pub find : List (ℕ × Handler) → ℕ → Option Handler
  find [] id = none
  find ((key, handler) ∷ handlers) id =
      let later = find handlers id in if key == id then some handler else later

  -- `handlers_[id] = handler`
  unfoldable pub assign : List (ℕ × Handler) → ℕ → Handler → List (ℕ × Handler)
  assign [] id handler = (id, handler) ∷ []
  assign ((key, old) ∷ handlers) id handler =
      let later = assign handlers id handler in
      if key == id then (key, handler) ∷ handlers else (key, old) ∷ later

  unfoldable pub erase : List (ℕ × Handler) → ℕ → List (ℕ × Handler)
  erase [] id = []
  erase ((key, old) ∷ handlers) id =
      let later = erase handlers id in if key == id then later else (key, old) ∷ later

-- The registry, a handler for an interface.
abbrev pub Registry {ℓ} : Type ℓ → Type ℓ
Registry Handler = List (ℕ × Handler)

unfoldable pub register_handler {ℓ} :
    {Handler : Type ℓ} → ℕ → Handler → Registry Handler → Registry Handler
register_handler interface_id handler registry = assign registry interface_id handler

unfoldable pub find_handler {ℓ} : {Handler : Type ℓ} → ℕ → Registry Handler → Option Handler
find_handler interface_id registry = find registry interface_id
