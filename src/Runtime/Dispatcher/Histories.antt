-- ===== src/Runtime/Dispatcher/Histories.antt =====
-- The operations of the dispatcher in any order.
use hasten.Common.{
  ℕ, ◌+◌, ◌%◌, ◌^◌, ◌≤◌, ◌<◌, ◌≡◌, List, [], ◌∷◌, Option, none, some, length, ◌==◌, if◌then◌else◌,
  arith,
}
use hasten.Runtime.Rpc.{find}
use hasten.Runtime.Rpc.Laws.{find-assign, find-assign_other, find-erase, find-erase_other}
use hasten.Runtime.Dispatcher.{
  SimpleDispatcher, open_stream, close_stream, set_response_handler, take_response_handler,
}

pub data Call {ℓ} (Responder : Type ℓ) : Type ℓ where
  open_call : Call Responder
  close_call : ℕ → Call Responder
  set_call : ℕ → Responder → Call Responder
  take_call : ℕ → Call Responder

-- The numbers start at `n` or above, and each is above the one before it.
abbrev pub Ascending : ℕ → List ℕ → Type 0
Ascending n [] = Unit {0}
Ascending n (i ∷ ids) = n ≤ i × Ascending (i + 1) ids

module _ {ℓ} {Responder : Type ℓ} where
  abbrev pub after : Call Responder → SimpleDispatcher Responder → SimpleDispatcher Responder
  after open_call d = (open_stream d).1
  after (close_call id) d = close_stream id d
  after (set_call id h) d = set_response_handler id h d
  after (take_call id) d = (take_response_handler id d).1

  -- The ids that the calls of a history open.
  unfoldable pub opened : List (Call Responder) → SimpleDispatcher Responder → List ℕ
  opened [] d = []
  opened (open_call ∷ calls) d = (open_stream d).0 ∷ opened calls (after open_call d)
  opened (close_call id ∷ calls) d = opened calls (after (close_call id) d)
  opened (set_call id h ∷ calls) d = opened calls (after (set_call id h) d)
  opened (take_call id ∷ calls) d = opened calls (after (take_call id) d)

  abbrev pub count_some : Option Responder → ℕ
  count_some none = 0
  count_some (some h) = 1

  -- How often a call of a history takes a handler for the id.
  unfoldable pub takes : ℕ → List (Call Responder) → SimpleDispatcher Responder → ℕ
  takes id [] d = 0
  takes id (take_call i ∷ calls) d =
      (if i == id then count_some (take_response_handler i d).0 else 0)
      + takes id calls (after (take_call i) d)
  takes id (c ∷ calls) d = takes id calls (after c d)

  -- How often a handler is set for it.
  unfoldable pub sets : ℕ → List (Call Responder) → ℕ
  sets id [] = 0
  sets id (set_call i h ∷ calls) = (if i == id then 1 else 0) + sets id calls
  sets id (c ∷ calls) = sets id calls

  abbrev waiting : ℕ → SimpleDispatcher Responder → ℕ
  waiting id d = count_some (find d.handlers id)

  waiting-close_stream :
      (i id : ℕ) (d : SimpleDispatcher Responder) → waiting id (close_stream i d) ≤ waiting id d
  unfolding close_stream
  waiting-close_stream i id d =
      ground (arith, find-erase d.handlers id, find-erase_other d.handlers i id)

  waiting-set_response_handler :
      (i id : ℕ) (h : Responder) (d : SimpleDispatcher Responder)
      → waiting id (set_response_handler i h d) ≤ (if i == id then 1 else 0) + waiting id d
  unfolding set_response_handler
  waiting-set_response_handler i id h d =
      ground (arith, find-assign d.handlers id h, find-assign_other d.handlers i id h)

  waiting-take_response_handler :
      (i id : ℕ) (d : SimpleDispatcher Responder)
      → (if i == id then count_some (take_response_handler i d).0 else 0)
          + waiting id (take_response_handler i d).1
        ≤ waiting id d
  unfolding take_response_handler
  waiting-take_response_handler i id d =
      ground (arith, find-erase d.handlers id, find-erase_other d.handlers i id)

  same_counter :
      (i : ℕ) (d : SimpleDispatcher Responder) → (take_response_handler i d).1.next_id ≡ d.next_id
  unfolding take_response_handler
  same_counter i d = ground arith

  -- Whatever the order of the calls, no more handlers are taken for an id than were set for it or
  -- waited for it at the start.
  pub takes_at_most :
      (id : ℕ) (calls : List (Call Responder)) (d : SimpleDispatcher Responder)
      → takes id calls d ≤ sets id calls + waiting id d
  unfolding takes sets open_stream
  takes_at_most id [] d = omega arith
  takes_at_most id (open_call ∷ calls) d = omega (arith, takes_at_most id calls (after open_call d))
  takes_at_most id (close_call i ∷ calls) d =
      omega (arith, waiting-close_stream i id d, takes_at_most id calls (close_stream i d))
  takes_at_most id (set_call i h ∷ calls) d = omega (
    arith,
    waiting-set_response_handler i id h d,
    takes_at_most id calls (set_response_handler i h d),
  )
  takes_at_most id (take_call i ∷ calls) d = omega (
    arith,
    waiting-take_response_handler i id d,
    takes_at_most id calls (take_response_handler i d).1,
  )

  -- As long as the counter does not wrap, every stream that is opened has an id above those opened
  -- before it, whatever calls come between.
  pub opened-Ascending :
      (calls : List (Call Responder)) (d : SimpleDispatcher Responder)
      → d.next_id + length calls < 2 ^ 64
      → Ascending d.next_id (opened calls d)
  unfolding opened open_stream close_stream set_response_handler
  opened-Ascending [] d h = tt
  opened-Ascending (open_call ∷ calls) d h =
      let no_wrap : (d.next_id + 1) % 2 ^ 64 ≡ d.next_id + 1 = omega arith in
      (
        omega arith,
        rw no_wrap (rw no_wrap at (opened-Ascending calls (after open_call d) (omega arith))),
      )
  opened-Ascending (close_call i ∷ calls) d h =
      opened-Ascending calls (after (close_call i) d) (omega arith)
  opened-Ascending (set_call i f ∷ calls) d h =
      opened-Ascending calls (after (set_call i f) d) (omega arith)
  opened-Ascending (take_call i ∷ calls) d h =
      rw (same_counter i d) at
        (opened-Ascending calls (after (take_call i) d) (rw (same_counter i d) (omega arith)))
