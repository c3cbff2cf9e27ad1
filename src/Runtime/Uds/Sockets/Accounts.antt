-- ===== src/Runtime/Uds/Sockets/Accounts.antt =====
-- What becomes of the descriptors that a call opens.
use Prim.Native.String.{String}
use hasten.Common.{
  ℕ, ◌≡◌, refl, ◌⊎◌, inl, inr, List, [], ◌∷◌, ◌++◌, Bool, true, false, Option, none, some, leb,
  ==_refl, length,
}
use hasten.Runtime.Result.{ok, err, Error}
use hasten.Runtime.Uds.{UdsChannel}
use hasten.Runtime.Uds.Sockets.{
  Answer, fails, gives, SocketCalls, Process, Outcome, returned, thrown, sun_path_size, without_fd,
  close_fd, make_address, checked_address, Server, created_socket, create_socket, new_channel,
  wrap_fd, or_close, connect, new_server, unlink, listen, accept,
}

-- After a success what was with_open belongs to the value; after an error nothing is left open, unless
-- there is an excuse, and then one descriptor is. An exception takes a reason, and leaves one too.
pub data Accounts {A : Type 0} (owned : A → List ℕ) (excuse reason : Type 0) (before : Process)
    : Outcome A × Process → Type 0 where
  owns :
      (a : A) (after : Process)
      → after.open_fds ≡ owned a ++ before.open_fds
      → Accounts owned excuse reason before (returned (ok a), after)
  gave_back :
      (e : Error) (after : Process)
      → after.open_fds ≡ before.open_fds
      → Accounts owned excuse reason before (returned (err e), after)
  leaked :
      (e : Error) (fd : ℕ) (after : Process)
      → excuse
      → after.open_fds ≡ fd ∷ before.open_fds
      → Accounts owned excuse reason before (returned (err e), after)
  threw :
      (what : String) (fd : ℕ) (after : Process)
      → reason
      → after.open_fds ≡ fd ∷ before.open_fds
      → Accounts owned excuse reason before (thrown what, after)

abbrev pub channel_fds : UdsChannel → List ℕ
channel_fds c = elim c.fd [ none ↦ c.wake_fd ∷ [] | some fd ↦ c.wake_fd ∷ fd ∷ [] ]

abbrev pub server_fds : Server → List ℕ
server_fds server = elim server.server_fd [ none ↦ [] | some fd ↦ fd ∷ [] ]

abbrev pub TooLong : List ℕ → Type 0
TooLong path = leb sun_path_size (length path) ≡ true

abbrev pub EventfdFails : SocketCalls → Type 0
EventfdFails calls = (errno : ℕ) × (calls.eventfd 0 ≡ fails errno)

module _ (message : ℕ → String) (calls : SocketCalls) where
  closed_head :
      (fd : ℕ) (p : Process)
      → (close_fd fd (record p { open_fds = fd ∷ p.open_fds })).open_fds ≡ p.open_fds
  unfolding close_fd without_fd
  closed_head fd p = rw (==_refl fd) refl

  Accounts-connect :
      (path : List ℕ) (p : Process)
      → Accounts channel_fds (TooLong path ⊎ EventfdFails calls) ⊥ p (connect message calls path p)
  unfolding connect create_socket created_socket make_address checked_address or_close wrap_fd
      new_channel
  Accounts-connect path p =
      by_calls calls.socket calls.connects (calls.eventfd 0) (leb sun_path_size (length path)) refl
        refl refl refl
    where
      by_calls :
          (socket : Answer) (connects : Option ℕ) (wake : Answer) (long : Bool)
          → calls.socket ≡ socket
          → calls.connects ≡ connects
          → calls.eventfd 0 ≡ wake
          → leb sun_path_size (length path) ≡ long
          → Accounts channel_fds
              (TooLong path ⊎ EventfdFails calls)
              ⊥
              p
              (connect message calls path p)
      by_calls (fails e) c w l hs hc hw hl = rw (hs, connect) (gave_back _ _ refl)
      by_calls (gives fd) c w true hs hc hw hl =
          rw (hs, hl, connect) (leaked _ fd _ (inl refl) refl)
      by_calls (gives fd) (some e) w false hs hc hw hl =
          rw (hs, hl, hc, connect) (gave_back _ _ (closed_head fd p))
      by_calls (gives fd) none (fails e) false hs hc hw hl =
          rw (hs, hl, hc, hw, connect) (leaked _ fd _ (inr (e, refl)) refl)
      by_calls (gives fd) none (gives wake) false hs hc hw hl =
          rw (hs, hl, hc, hw, connect) (owns _ _ refl)

  Accounts-listen :
      (path : List ℕ) (p : Process)
      → Accounts server_fds (TooLong path) ⊥ p (listen message calls path p)
  unfolding listen create_socket created_socket make_address checked_address or_close new_server
      unlink
  Accounts-listen path p =
      by_calls calls.socket calls.bind calls.start_listening (leb sun_path_size (length path)) refl
        refl refl refl
    where
      by_calls :
          (socket : Answer) (bind listens : Option ℕ) (long : Bool)
          → calls.socket ≡ socket
          → calls.bind ≡ bind
          → calls.start_listening ≡ listens
          → leb sun_path_size (length path) ≡ long
          → Accounts server_fds (TooLong path) ⊥ p (listen message calls path p)
      by_calls (fails e) b l long hs hb hl hp = rw (hs, listen) (gave_back _ _ refl)
      by_calls (gives fd) b l true hs hb hl hp = rw (hs, hp, listen) (leaked _ fd _ refl refl)
      by_calls (gives fd) (some e) l false hs hb hl hp =
          rw (hs, hp, hb, listen)
            (gave_back _ _ (closed_head fd (record p { unlinked = path ∷ p.unlinked })))
      by_calls (gives fd) none (some e) false hs hb hl hp =
          rw (hs, hp, hb, hl, listen)
            (gave_back _ _ (closed_head fd (record p { unlinked = path ∷ p.unlinked })))
      by_calls (gives fd) none none false hs hb hl hp = rw (hs, hp, hb, hl, listen) (owns _ _ refl)

  Accounts-accept :
      (server : Server) (p : Process)
      → Accounts channel_fds ⊥ (EventfdFails calls) p (accept message calls server p)
  unfolding accept wrap_fd new_channel
  Accounts-accept server p =
      by_calls server.server_fd calls.accepts (calls.eventfd 0) refl refl refl
    where
      by_calls :
          (fd : Option ℕ) (accepted wake : Answer)
          → server.server_fd ≡ fd
          → calls.accepts ≡ accepted
          → calls.eventfd 0 ≡ wake
          → Accounts channel_fds ⊥ (EventfdFails calls) p (accept message calls server p)
      by_calls none a w hf ha hw = rw (hf, accept) (gave_back _ _ refl)
      by_calls (some fd) (fails e) w hf ha hw = rw (hf, ha, accept) (gave_back _ _ refl)
      by_calls (some fd) (gives client) (fails e) hf ha hw =
          rw (hf, ha, hw, accept) (threw _ client _ (e, refl) refl)
      by_calls (some fd) (gives client) (gives wake) hf ha hw =
          rw (hf, ha, hw, accept) (owns _ _ refl)

  -- After a success of connect, listen or accept, the descriptors that it with_open are those of the
  -- channel or of the server; after an error all are closed that it with_open, unless the path is too
  -- long, or eventfd fails in connect, when the socket may stay open. Only accept throws, and only
  -- where eventfd fails, and then the socket stays open.
  pub connect-Accounts :
      (path : List ℕ) (server : Server) (p : Process)
      → Accounts channel_fds (TooLong path ⊎ EventfdFails calls) ⊥ p (connect message calls path p)
        × Accounts server_fds (TooLong path) ⊥ p (listen message calls path p)
        × Accounts channel_fds ⊥ (EventfdFails calls) p (accept message calls server p)
  connect-Accounts path server p =
      (Accounts-connect path p, Accounts-listen path p, Accounts-accept server p)
