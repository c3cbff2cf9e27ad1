-- ===== src/Runtime/Context/Stopping.antt =====
-- What `stop` and a GOODBYE frame leave behind.
use hasten.Common.{
  ℕ, ◌≡◌, refl, List, [], ◌∷◌, Bool, true, false, Option, none, some, ◌==◌, Bool-cases, inl, inr,
  All, arith,
}
use hasten.Runtime.Frame.{Frame}
use hasten.Runtime.Rpc.{find}
use hasten.Runtime.Context.{
  Session, SessionState, Context, update_state, stopped, without, stop_session, remove_session,
  handle_goodbye,
}

abbrev is_running : Option SessionState → Bool
is_running none = false
is_running (some s) = s.running

-- Whether the session with the id runs.
abbrev pub running_at : ℕ → List (ℕ × SessionState) → Bool
running_at id states = is_running (find states id)

stopped-running : (s : SessionState) → (stopped s).running ≡ false
unfolding stopped
stopped-running s = ground arith

running_at-update :
    (states : List (ℕ × SessionState)) (id : ℕ)
    → running_at id (update_state states id stopped) ≡ false
unfolding update_state find
running_at-update [] id = refl
running_at-update ((key, s) ∷ states) id =
    ground (arith, running_at-update states id, stopped-running s)

without-None :
    (id : ℕ) (sessions : List Session) → All (λ t. (t.id == id) ≡ false) (without id sessions)
unfolding without
without-None id [] = tt
without-None id (s ∷ sessions) = elim (Bool-cases (s.id == id)) [
  | inl gone ↦ rw (gone, without) (without-None id sessions)
  | inr kept ↦ rw (kept, without) (kept, without-None id sessions)
]

-- The sessions are out of the list and do not run, and the listeners are closed.
pub record Halted {Handler Callback : Type 0} (before after : Context Handler Callback)
    : Type 0 where
  pub no_sessions : after.sessions ≡ []
  pub none_runs : All (λ s. running_at s.id after.states ≡ false) before.sessions
  pub none_listens : All (λ l. (l.running ≡ false) × (l.server_closed ≡ true)) after.listeners
  pub requested : after.stop_requested ≡ true

module _ {Handler Callback : Type 0} where
  -- A GOODBYE frame ends its session: the session does not run, and it is not in the list.
  pub handle_goodbye-ends :
      (s : Session) (frame : Frame) (c : Context Handler Callback)
      → let after = handle_goodbye s frame c in
        (running_at s.id after.states ≡ false) × All (λ t. (t.id == s.id) ≡ false) after.sessions
  unfolding handle_goodbye stop_session remove_session
  handle_goodbye-ends s frame c = (running_at-update c.states s.id, without-None s.id c.sessions)
