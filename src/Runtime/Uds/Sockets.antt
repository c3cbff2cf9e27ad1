-- ===== src/Runtime/Uds/Sockets.antt =====
-- The calls of src/runtime/uds.cpp that make sockets and give them back. What the system answers to
-- each call is a parameter. The process keeps the descriptors that are open, the last one first.
mod Accounts
mod Examples
use Prim.Native.String as String
use Prim.Native.String.{String}
use hasten.Common.{
  ℕ, List, [], ◌∷◌, Bool, true, false, Option, none, some, leb, ◌==◌, if◌then◌else◌, length,
}
use hasten.Runtime.Result.{Result, ok, err, fault, unexpected_result, transport_error}
use hasten.Runtime.Uds.{UdsChannel, make_errno_error}

-- -1 with its errno, or a descriptor.
pub data Answer : Type 0 where
  fails gives : ℕ → Answer

pub data PairAnswer : Type 0 where
  pair_fails : ℕ → PairAnswer
  gives_both : ℕ → ℕ → PairAnswer

-- What the system answers to each call: an error of `bind`, `listen` and `connect` is its errno.
-- The calls of `eventfd` are numbered.
pub record SocketCalls : Type 0 where
  pub socket : Answer
  pub bind : Option ℕ
  pub start_listening : Option ℕ
  pub connects : Option ℕ
  pub accepts : Answer
  pub eventfd : ℕ → Answer
  pub pair : PairAnswer

pub record Process : Type 0 where
  pub open_fds : List ℕ
  pub unlinked : List (List ℕ)

-- A result, or an exception with what it exception_text.
pub data Outcome {ℓ} (A : Type ℓ) : Type ℓ where
  returned : Result A → Outcome A
  thrown : String → Outcome A

abbrev pub Calling {ℓ} : Type ℓ → Type ℓ
Calling A = Process → Outcome A × Process

infixl 5 ◌>>=◌
abbrev pub ◌>>=◌ {ℓ κ} : {A : Type ℓ} {B : Type κ} → Calling A → (A → Calling B) → Calling B
◌>>=◌ call next p =
    let (outcome, p') = call p in
    elim outcome [
      | returned (ok a) ↦ next a p'
      | returned (err e) ↦ (returned (err e), p')
      | returned (fault x) ↦ (returned (fault x), p')
      | thrown what ↦ (thrown what, p')
    ]

-- `catch (const std::exception& ex)`
abbrev pub catching {ℓ} : {A : Type ℓ} → Calling A → Calling A
catching call p =
    let (outcome, p') = call p in
    elim outcome [
      | returned r ↦ (returned r, p')
      | thrown what ↦ (returned (unexpected_result transport_error what), p')
    ]

abbrev pub with_open : ℕ → Process → Process
with_open fd p = record p { open_fds = fd ∷ p.open_fds }

unfoldable pub without_fd : ℕ → List ℕ → List ℕ
without_fd fd [] = []
without_fd fd (other ∷ fds) =
    let later = without_fd fd fds in if other == fd then fds else other ∷ later

-- `::close`
unfoldable pub close_fd : ℕ → Process → Process
unfolding without_fd
close_fd fd p = record p { open_fds = without_fd fd p.open_fds }

-- The size of `sun_path`.
abbrev pub sun_path_size : ℕ
sun_path_size = 108

-- `path.size() >= sizeof(addr.sun_path)`
checked_address : Bool → List ℕ → Calling (List ℕ)
checked_address true path p = (thrown "Unix socket path too long", p)
checked_address false path p = (returned (ok path), p)

unfoldable pub make_address : List ℕ → Calling (List ℕ)
unfolding checked_address
make_address path = checked_address (leb sun_path_size (length path)) path

-- `Server`
pub record Server : Type 0 where
  pub server_fd : Option ℕ
  pub server_path : List ℕ

unfoldable pub close_server : Server → Process → Server × Process
close_server server p = elim server.server_fd [
  | none ↦ (server, p)
  | some old ↦ (record server { server_fd = none }, close_fd old p)
]

-- `~Server`
unfoldable pub destroy_server : Server → Process → Process
destroy_server server p =
    let (server', p') = close_server server p in
    elim server'.server_path [
      | [] ↦ p'
      | byte ∷ bytes ↦ record p' { unlinked = (byte ∷ bytes) ∷ p'.unlinked }
    ]

-- `~UdsChannel`
unfoldable pub destroy_channel : UdsChannel → Process → Process
destroy_channel c p = close_fd c.wake_fd (elim c.fd [ none ↦ p | some old ↦ close_fd old p ])

module _ (message : ℕ → String) (calls : SocketCalls) where
  -- What a `std::system_error` exception_text.
  abbrev pub exception_text : String → ℕ → String
  exception_text what errno = (make_errno_error message what errno).message

  created_socket : Answer → Calling ℕ
  created_socket (fails errno) p = (thrown (exception_text "socket" errno), p)
  created_socket (gives fd) p = (returned (ok fd), with_open fd p)

  unfoldable pub create_socket : Calling ℕ
  unfolding created_socket
  create_socket = created_socket calls.socket

  -- The constructor of the channel.
  new_channel : ℕ → Answer → Calling UdsChannel
  new_channel fd (fails errno) p = (thrown (exception_text "eventfd" errno), p)
  new_channel fd (gives wake) p = (
    returned (ok record { fd = some fd; wake_fd = wake; wake_count = 0; closed = [] }),
    with_open wake p,
  )

  -- The descriptor is not negative wherever this is called.
  unfoldable pub wrap_fd : ℕ → ℕ → Calling UdsChannel
  unfolding new_channel
  wrap_fd n fd = new_channel fd (calls.eventfd n)

  -- An errno of a call: the socket is closed and the error returned.
  unfoldable pub or_close {ℓ} : {A : Type ℓ} → String → Option ℕ → ℕ → Calling A → Calling A
  or_close what none fd next p = next p
  or_close what (some errno) fd next p =
      (returned (err (make_errno_error message what errno)), close_fd fd p)

  unfoldable pub connect : List ℕ → Calling UdsChannel
  connect path = catching (
      create_socket >>= λ fd.
      make_address path >>= λ address. or_close "connect" calls.connects fd (wrap_fd 0 fd))

  unfoldable pub new_server : ℕ → List ℕ → Calling Server
  new_server fd path p = (returned (ok record { server_fd = some fd; server_path = path }), p)

  unfoldable pub unlink : List ℕ → Calling (Unit {0})
  unlink path p = (returned (ok tt), record p { unlinked = path ∷ p.unlinked })

  unfoldable pub listen : List ℕ → Calling Server
  listen path = catching (
      create_socket >>= λ fd. make_address path >>= λ address. unlink path >>= λ done.
      or_close "bind" calls.bind fd
        (or_close "listen" calls.start_listening fd (new_server fd path)))

  -- `Server::accept`
  unfoldable pub accept : Server → Calling UdsChannel
  accept server p = elim server.server_fd [
    | none ↦ (returned (unexpected_result transport_error "Server socket closed"), p)
    | some fd ↦ elim calls.accepts [
      | fails errno ↦ (returned (err (make_errno_error message "accept" errno)), p)
      | gives client_fd ↦ wrap_fd 0 client_fd (with_open client_fd p)
    ]
  ]

  -- The second channel of a pair. If it cannot be made, the first one is destroyed.
  unfoldable pub second_of_pair : UdsChannel → ℕ → Calling (UdsChannel × UdsChannel)
  second_of_pair first fd p =
      let (outcome, p') = wrap_fd 1 fd p in
      elim outcome [
        | returned (ok second) ↦ (returned (ok (first, second)), p')
        | returned (err e) ↦ (returned (err e), destroy_channel first p')
        | returned (fault x) ↦ (returned (fault x), p')
        | thrown what ↦ (thrown what, destroy_channel first p')
      ]

  unfoldable pub socket_pair : Calling (UdsChannel × UdsChannel)
  socket_pair p = elim calls.pair [
    | pair_fails errno ↦ (returned (err (make_errno_error message "socketpair" errno)), p)
    | gives_both a b ↦
        (wrap_fd 0 a >>= λ first. second_of_pair first b) (with_open b (with_open a p))
  ]
