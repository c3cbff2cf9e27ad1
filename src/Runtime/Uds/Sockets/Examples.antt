-- ===== src/Runtime/Uds/Sockets/Examples.antt =====
-- A connection whose eventfd fails, and one that is made and destroyed.
use Prim.Native.String.{String}
use hasten.Common.{ℕ, ◌≡◌, refl, ◌⊎◌, [], ◌∷◌, none, some}
use hasten.Runtime.Result.{unexpected_result, transport_error}
use hasten.Runtime.Uds.{make_errno_error}
use hasten.Runtime.Uds.Sockets.{
  fails, gives, pair_fails, SocketCalls, Process, returned, create_socket, created_socket,
  make_address, checked_address, wrap_fd, new_channel, or_close, connect, listen, accept, Server,
  destroy_channel, close_fd, without_fd,
}
use hasten.Runtime.Uds.Sockets.Accounts.{
  Accounts, channel_fds, server_fds, TooLong, EventfdFails, connect-Accounts,
}

abbrev no_message : ℕ → String
no_message errno = "?"

abbrev working : SocketCalls
working = record {
  socket = gives 5;
  bind = none;
  start_listening = none;
  connects = none;
  accepts = gives 7;
  eventfd = λ n. gives 6;
  pair = pair_fails 24;
}

abbrev no_eventfd : SocketCalls
no_eventfd = record working { eventfd = λ n. fails 24 }

abbrev process : Process
process = record { open_fds = 2 ∷ []; unlinked = [] }

abbrev server : Server
server = record { server_fd = some 4; server_path = 0x61 ∷ [] }

-- The socket stays open.
left_open : connect no_message no_eventfd (0x61 ∷ []) process ≡ (
  returned (unexpected_result transport_error "eventfd: ?"),
  record { open_fds = 5 ∷ 2 ∷ []; unlinked = [] },
)
unfolding connect create_socket created_socket make_address checked_address or_close wrap_fd
    new_channel make_errno_error
left_open = refl

destroyed :
    destroy_channel
      record { fd = some 5; wake_fd = 6; wake_count = 0; closed = [] }
      (record { open_fds = 6 ∷ 5 ∷ 2 ∷ []; unlinked = [] })
    ≡ process
unfolding destroy_channel close_fd without_fd
destroyed = refl

connect-Accounts_example :
    Accounts channel_fds
      (TooLong (0x61 ∷ []) ⊎ EventfdFails no_eventfd)
      ⊥
      process
      (connect no_message no_eventfd (0x61 ∷ []) process)
    × Accounts server_fds
        (TooLong (0x61 ∷ []))
        ⊥
        process
        (listen no_message no_eventfd (0x61 ∷ []) process)
    × Accounts channel_fds ⊥
        (EventfdFails no_eventfd)
        process
        (accept no_message no_eventfd server process)
connect-Accounts_example = connect-Accounts no_message no_eventfd (0x61 ∷ []) server process
