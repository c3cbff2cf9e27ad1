-- ===== src/Runtime/Context/Connections.antt =====
-- How sessions come about in src/runtime/context.cpp: `connect`, `listen`, and the loop of the thread
-- that accepts.
use hasten.Common.{String, ℕ, List, [], ◌∷◌, Bool, true, false, not, ◌&&◌, ◌||◌, Option}
use hasten.Runtime.Result.{ok, err, fault, Error}
use hasten.Runtime.Uds.Sockets.{SocketCalls, Process, Outcome, returned, thrown, Server, accept}
use hasten.Runtime.Uds.Sockets
use hasten.Runtime.Context.{Context, client, server}
use hasten.Runtime.Context.Lifecycle.{add_session}
use hasten.Runtime.Context.Lifecycle

-- What a thread loads and what the system answers in a round of `accept_loop`: whether the listener
-- runs and the context is asked to stop, and both again after an error.
pub record AcceptRound : Type 0 where
  pub listener_running : Bool
  pub stopping : Bool
  pub calls : SocketCalls
  pub listener_running_again : Bool
  pub stopping_again : Bool

-- How the loop ends: it has ended, it waits in `accept`, or an exception has left the thread, which
-- ends the program.
pub data Accepted (Handler Callback : Type 0) : Type 0 where
  accept_ended accept_waits : Context Handler Callback → Process → Accepted Handler Callback
  terminated : String → Accepted Handler Callback

module _ {Handler Callback : Type 0} (message : ℕ → String) (send_error : ℕ → Option Error) where
  unfoldable pub connect :
      SocketCalls
      → List ℕ
      → Context Handler Callback
      → Process
      → Outcome (Unit {0}) × Context Handler Callback × Process
  connect calls path c p =
      let (outcome, p') = Sockets.connect message calls path p in
      elim outcome [
        | returned (ok channel) ↦ (returned (ok tt), add_session send_error client c, p')
        | returned (err e) ↦ (returned (err e), c, p')
        | returned (fault x) ↦ (returned (fault x), c, p')
        | thrown what ↦ (thrown what, c, p')
      ]

  -- `name` is the path as the context keeps it.
  unfoldable pub listen :
      SocketCalls
      → List ℕ
      → String
      → Context Handler Callback
      → Process
      → Outcome Server × Context Handler Callback × Process
  listen calls path name c p =
      let (outcome, p') = Sockets.listen message calls path p in
      elim outcome [
        | returned (ok socket) ↦ (returned (ok socket), Lifecycle.listen name c, p')
        | returned (err e) ↦ (returned (err e), c, p')
        | returned (fault x) ↦ (returned (fault x), c, p')
        | thrown what ↦ (thrown what, c, p')
      ]

  unfoldable pub accept_loop :
      Server → List AcceptRound → Context Handler Callback → Process → Accepted Handler Callback
  accept_loop s [] c p = accept_waits c p
  accept_loop s (round ∷ rounds) c p = elim (round.listener_running && not round.stopping) [
    | false ↦ accept_ended c p
    | true ↦
        let (outcome, p') = accept message round.calls s p in
        elim outcome [
          | returned (ok channel) ↦ accept_loop s rounds (add_session send_error server c) p'
          | returned (err e) ↦ elim (not round.listener_running_again || round.stopping_again) [
            | true ↦ accept_ended c p'
            | false ↦ accept_loop s rounds c p'
          ]
          | returned (fault x) ↦ accept_ended c p'
          | thrown what ↦ terminated what
        ]
  ]
