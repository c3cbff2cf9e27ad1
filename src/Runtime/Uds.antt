-- ===== src/Runtime/Uds.antt =====
-- `UdsChannel` of src/runtime/uds.cpp: frames over a socket. What the system answers to each call
-- is a script, one entry a call of write, and one a round of poll and read. A call that the script
-- does not answer waits.
pub mod Writing
pub mod Sockets
pub mod Reading
pub mod Serving
pub mod Taking
pub mod Sending
pub mod RoundTrip
mod Examples
use Prim.Native.String
use hasten.Common.{
  String, ℕ, zero, suc, ◌+◌, ◌-◌, ◌%◌, ◌^◌, List, [], ◌∷◌, ◌++◌, Bool, not, Option, none, some, ltb,
  ◌==◌, if◌then◌else◌, length, take, drop,
}
use hasten.Runtime.Result.{
  Result, ok, err, fault, Error, errno_code, unexpected_result, transport_error, cancelled,
}
use hasten.Runtime.Frame.{Frame, FrameHeader, frame_header_size, encode_header, decode_header}

-- `errno` for a call that a signal interrupted.
abbrev pub eintr : ℕ
eintr = 4

-- What `write` answers: -1 with its errno, or that it took at most so many bytes.
pub data WriteCall : Type 0 where
  write_failed : ℕ → WriteCall
  wrote : ℕ → WriteCall

-- What `read` answers: -1 with its errno, or at most so many of the bytes that have come. With none
-- there the peer has closed the connection.
pub data ReadCall : Type 0 where
  read_failed : ℕ → ReadCall
  got : ℕ → ReadCall

-- What `poll` answers: -1 with its errno, or the events, POLLIN of the wake descriptor, POLLERR or
-- POLLNVAL of the socket, POLLIN or POLLHUP of it; then `errno`, and what `read` answers in this
-- round.
pub data PollCall : Type 0 where
  poll_failed : ℕ → PollCall
  polled : Bool → Bool → Bool → ℕ → ReadCall → PollCall

pub record Kernel : Type 0 where
  pub writes : List WriteCall
  pub polls : List PollCall
  pub sent : List ℕ  -- the bytes taken from this side
  pub incoming : List ℕ  -- the bytes from the other side

pub data Io {ℓ} (A : Type ℓ) : Type ℓ where
  returns : Result A → Kernel → Io A
  waits : Io A

infixl 5 ◌on_ok◌
abbrev pub ◌on_ok◌ {ℓ κ} : {A : Type ℓ} {B : Type κ} → Io A → (A → Kernel → Io B) → Io B
returns (ok a) k on_ok f = f a k
returns (err e) k on_ok f = returns (err e) k
returns (fault x) k on_ok f = returns (fault x) k
waits on_ok f = waits

-- `fd_` is -1 once it is closed. `wake_fd_` counts in an eventfd.
pub record UdsChannel : Type 0 where
  pub fd : Option ℕ
  pub wake_fd : ℕ
  pub wake_count : ℕ
  pub closed : List ℕ  -- the descriptors given to `::close`

unfoldable pub close : UdsChannel → UdsChannel
close c = elim c.fd [
  | none ↦ record c { wake_count = c.wake_count + 1 }
  | some old ↦ record c { fd = none; wake_count = c.wake_count + 1; closed = old ∷ c.closed }
]

-- `std::error_code::message` of the generic category.
module _ (message : ℕ → String) where
  unfoldable pub make_errno_error : String → ℕ → Error
  make_errno_error prefix errno = record {
    code = errno_code errno;
    message = String.◌++◌ (String.◌++◌ prefix ": ") (message errno);
  }

  -- The loop of `write_full`, on the bytes that are left.
  unfoldable pub write_full : List WriteCall → List ℕ → Kernel → Io (Unit {0})
  write_full [] [] k = returns (ok tt) (record k { writes = [] })
  write_full (call ∷ calls) [] k = returns (ok tt) (record k { writes = call ∷ calls })
  write_full [] (byte ∷ bytes) k = waits
  write_full (write_failed errno ∷ calls) (byte ∷ bytes) k =
      let again = write_full calls (byte ∷ bytes) k in
      if errno == eintr
      then again
      else returns (err (make_errno_error "write" errno)) (record k { writes = calls })
  write_full (wrote n ∷ calls) (byte ∷ bytes) k =
      write_full calls (drop n (byte ∷ bytes)) (record k { sent = k.sent ++ take n (byte ∷ bytes) })

  -- The loop of `read_full`, with how many bytes are left to read and those read so far.
  unfoldable pub read_full : List PollCall → ℕ → List ℕ → Kernel → Io (List ℕ)
  read_full polls zero bytes k = returns (ok bytes) (record k { polls = polls })
  read_full [] (suc left) bytes k = waits
  read_full (poll_failed errno ∷ polls) (suc left) bytes k =
      let again = read_full polls (suc left) bytes k in
      if errno == eintr
      then again
      else returns (err (make_errno_error "poll" errno)) (record k { polls = polls })
  read_full (polled wake broken ready errno answer ∷ polls) (suc left) bytes k =
      let again = read_full polls (suc left) bytes k in
      let k' = record k { polls = polls } in
      if wake
      then returns (unexpected_result cancelled "Channel closed") k'
      else if broken
      then returns (err (make_errno_error "poll" errno)) k'
      else if not ready
      then again
      else elim answer [
        | read_failed e ↦ if e == eintr then again else returns (err (make_errno_error "read" e)) k'
        | got n ↦
            (let chunk = take n (take (suc left) k.incoming) in
              let further =
                read_full polls (suc left - length chunk) (bytes ++ chunk)
                  (record k { incoming = drop (length chunk) k.incoming }) in
              if length chunk == 0
              then returns (unexpected_result transport_error "peer closed connection") k'
              else further)
      ]

  send_payload : List ℕ → Kernel → Io (Unit {0})
  send_payload [] k = returns (ok tt) k
  send_payload (byte ∷ bytes) k = write_full k.writes (byte ∷ bytes) k

  -- `UdsChannel::send`
  unfoldable pub send : UdsChannel → Frame → Kernel → Io (Unit {0})
  unfolding send_payload
  send c frame k = elim c.fd [
    | none ↦ returns (unexpected_result transport_error "Invalid channel file descriptor") k
    | some fd ↦
        if ltb (2 ^ 32 - 1) (length frame.payload)
        then returns (unexpected_result transport_error "Frame payload too large") k
        else (returns
              (encode_header (record frame.header { length = length frame.payload % 2 ^ 32 })) k
            on_ok (λ header k1. write_full k1.writes header k1)
            on_ok (λ done k2. send_payload frame.payload k2))
  ]

  receive_payload : FrameHeader → Kernel → Io Frame
  receive_payload header k =
      if ltb 0 header.length
      then (read_full k.polls header.length [] k
          on_ok (λ bytes k'. returns (ok (record { header = header; payload = bytes })) k'))
      else returns (ok (record { header = header; payload = [] })) k

  -- `UdsChannel::receive`
  unfoldable pub receive : UdsChannel → Kernel → Io Frame
  unfolding receive_payload
  receive c k = elim c.fd [
    | none ↦ returns (unexpected_result transport_error "Invalid channel file descriptor") k
    | some fd ↦
        (read_full k.polls frame_header_size [] k
          on_ok (λ buffer k1. returns (decode_header buffer) k1)
          on_ok (λ header k2. receive_payload header k2))
  ]
