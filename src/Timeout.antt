-- ===== src/Timeout.antt =====
-- Receiving with a timeout (chapter06/timeout.c): the six ways of `recv_with_timeout`, the choice of
-- one by `main`, and the socket's settings that they change. The environment is a list of rounds, a
-- round being what the system calls of one pass through the loop give.
use network_program.Prelude.{
  ℕ, zero, suc, ◌+◌, ◌-◌, ◌*◌, ◌/◌, ◌%◌, ◌^◌, ◌≤◌, ◌<◌, min, ◌≡◌, refl, sym, ap, ◌∙◌, ◌≢◌, ◌↔◌, ◌⊎◌,
  inl, inr, Bool, true, false, not, ◌&&◌, ◌||◌, Option, none, some, List, [], ◌∷◌, ◌++◌, map,
  append_assoc, append-nil, arith, ltb, leb, ◌==◌, if◌then◌else◌, ltb→lt, lt→ltb, ltb→ge, ge→ltb,
  ==→eq, eq→==, ==→ne, ne→==, tests, Bool-cases, Option-cases, length, get_elem?, set, take, drop,
  replicate, All, length-append, length-snoc, length-set, length-take, length-drop,
  length-replicate, take-append-drop, take-append, drop-append, take-append_ge, drop-append_ge,
  take-append_le, drop-append_le, take-take, set-append, All-snoc, All-append, map-snoc,
  get_elem?-append, get_elem?-take, take-store, take-set, take-set_ge, take-nil, drop-nil,
  get_elem?-set_self, get_elem?-set_ne, get_elem?-lt, Run, done, blocked, fault, ◌>>=◌, write,
  write-lt, write-ge, Ret, minus_one, count, Errno, eintr, eagain, other,
}
pub mod Mode

-- What `recv(soc, buf, bufsize, flag)` gives: -1 with `errno`, or bytes, none at the end of file.
pub data Recv : Type 0 where
  failed : Errno → Recv
  received : List ℕ → Recv

-- The value returned, and the bytes stored in `buf`.
pub record Recvd : Type 0 where
  pub rv : Ret
  pub stored : List ℕ

abbrev pub timeout_sec : ℕ
timeout_sec = 10

abbrev pub error : Recvd
error = record { rv = minus_one; stored = [] }

abbrev pub got : List ℕ → Recvd
got bs = record { rv = count (length bs); stored = bs }

-- `if ((len = recv(...)) == -1) { rv = -1; } else { rv = len; } end = 1;`
abbrev pub take_recv : Recv → Recvd
take_recv (failed e) = error
take_recv (received bs) = got bs

-- A pass of the polling loops: the seconds since the start, and what the calls give.
pub record NonblockingRound : Type 0 where
  pub elapsed : ℕ
  pub recv : Recv

unfoldable pub nonblocking_loop : List NonblockingRound → Run Recvd
nonblocking_loop [] = blocked
nonblocking_loop (r ∷ rs) =
    let again = nonblocking_loop rs in
    elim r.recv [
      | failed e ↦ elim e [
        | eagain ↦ if ltb timeout_sec r.elapsed then done error else again
        | eintr ↦ done error
        | other ↦ done error
      ]
      | received bs ↦ done (got bs)
    ]

-- `select`, `poll` and `epoll_wait`: -1, 0, or ready. `flagged` is the test of the answer,
-- `FD_ISSET(soc, &mask)`, `revents & (POLLIN|POLLERR)` or `events & (EPOLLIN|EPOLLERR)`.
pub data Wait : Type 0 where
  wait_failed : Errno → Wait
  timed_out : (flagged : Bool) → Recv → Wait
  ready : (flagged : Bool) → Recv → Wait

is_eintr : Errno → Bool
is_eintr eintr = true
is_eintr eagain = false
is_eintr other = false

-- `case 0` falls through into `default`: a set flag makes the call receive after a timeout.
unfoldable pub select_loop : List Wait → Run Recvd
unfolding is_eintr
select_loop [] = blocked
select_loop (wait_failed e ∷ ws) = if is_eintr e then select_loop ws else done error
select_loop (timed_out flagged r ∷ ws) = if flagged then done (take_recv r) else done error
select_loop (ready flagged r ∷ ws) = if flagged then done (take_recv r) else select_loop ws

unfoldable pub poll_loop : List Wait → Run Recvd
unfolding is_eintr
poll_loop [] = blocked
poll_loop (wait_failed e ∷ ws) = if is_eintr e then poll_loop ws else done error
poll_loop (timed_out flagged r ∷ ws) = done error
poll_loop (ready flagged r ∷ ws) = if flagged then done (take_recv r) else poll_loop ws

unfoldable pub epoll_loop : List Wait → Run Recvd
unfolding is_eintr
epoll_loop [] = blocked
epoll_loop (wait_failed e ∷ ws) = if is_eintr e then epoll_loop ws else done error
epoll_loop (timed_out flagged r ∷ ws) = done error
epoll_loop (ready flagged r ∷ ws) = if flagged then done (take_recv r) else epoll_loop ws

-- One pass of the ioctl loop: FIONREAD gives the number of bytes that wait, at the end of file and on a
-- broken connection 0.
pub record IoctlRound : Type 0 where
  pub elapsed : ℕ
  pub ioctl_ok : Bool
  pub fionread : ℕ
  pub recv : Recv

-- `nread` is a `ssize_t` of 64 bits that is not initialised. FIONREAD stores an `int`, the lower 32
-- bits on a little-endian host; a call that fails stores nothing.
abbrev pub store_nread : ℕ → IoctlRound → ℕ
store_nread nread r = if r.ioctl_ok then nread / 2 ^ 32 * 2 ^ 32 + r.fionread % 2 ^ 32 else nread

-- `nread > 0` of the signed number.
abbrev pub is_positive : ℕ → Bool
is_positive nread = ltb 0 nread && ltb nread (2 ^ 63)

unfoldable pub ioctl_loop : ℕ → List IoctlRound → Run Recvd
ioctl_loop nread [] = blocked
ioctl_loop nread (r ∷ rs) =
    let again = ioctl_loop (store_nread nread r) rs in
    if ltb timeout_sec r.elapsed
    then done error
    else if is_positive (store_nread nread r)
    then done (take_recv r.recv)
    else if r.ioctl_ok
    then again
    else done error

-- `recv` under SO_RCVTIMEO.
unfoldable pub setsockopt_loop : List Recv → Run Recvd
unfolding is_eintr
setsockopt_loop [] = blocked
setsockopt_loop (failed e ∷ rs) = if is_eintr e then setsockopt_loop rs else done error
setsockopt_loop (received bs ∷ rs) = done (got bs)
