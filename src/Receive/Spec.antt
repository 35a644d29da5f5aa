-- ===== src/Receive/Spec.antt =====
-- What a receive with a timeout promises, and that all six ways keep the promise.
use network_program.Prelude.{
  ℕ, suc, ◌+◌, ◌-◌, ◌*◌, ◌/◌, ◌%◌, ◌^◌, ◌≤◌, ◌<◌, min, ◌≡◌, refl, ◌≢◌, true, false, List, [], ◌∷◌,
  ◌++◌, map, arith, lt→ltb, ge→ltb, length, All, Run, done, blocked, ◌>>=◌, count, eintr, eagain,
  other,
}
use network_program.Timeout.{
  Recv, failed, received, Recvd, error, got, timeout_sec, NonblockingRound, nonblocking_loop, Wait,
  wait_failed, timed_out, ready, select_loop, poll_loop, epoll_loop, IoctlRound, ioctl_loop,
  setsockopt_loop,
}
use network_program.Timeout.Mode.{Mode, unset, nonblocking, select, poll, epoll, ioctl, setsockopt}
use network_program.Receive.{Socket, Fcntl, Calls, recv_with_timeout}

-- What happens at a socket, one thing after the other: nothing yet, some seconds after the start;
-- the timeout, so many seconds late; the connection breaks; bytes arrive, none for the end of file.
pub data Event : Type 0 where
  quiet : ℕ → Event
  timeout : ℕ → Event
  broken : Event
  arrival : List ℕ → Event

-- The first event that is not quiet decides.
unfoldable pub expected : List Event → Run Recvd
expected [] = blocked
expected (quiet t ∷ es) = expected es
expected (timeout t ∷ es) = done error
expected (broken ∷ es) = done error
expected (arrival bs ∷ es) = done (got bs)

-- The same events as the system calls of each way show them.
nonblocking_round : Event → NonblockingRound
nonblocking_round (quiet t) = record { elapsed = min t timeout_sec; recv = failed eagain }
nonblocking_round (timeout t) = record { elapsed = suc (timeout_sec + t); recv = failed eagain }
nonblocking_round broken = record { elapsed = 0; recv = failed other }
nonblocking_round (arrival bs) = record { elapsed = 0; recv = received bs }

wait_of : Event → Wait
wait_of (quiet t) = wait_failed eintr
wait_of (timeout t) = timed_out false (failed eagain)
wait_of broken = ready true (failed other)
wait_of (arrival bs) = ready true (received bs)

-- At the end of file and on a broken connection FIONREAD gives 0 as it does when nothing has come; this way
-- sees both as quiet.
ioctl_round : Event → IoctlRound
ioctl_round (quiet t) = record {
  elapsed = min t timeout_sec;
  ioctl_ok = true;
  fionread = 0;
  recv = failed eagain;
}
ioctl_round (timeout t) = record {
  elapsed = suc (timeout_sec + t);
  ioctl_ok = true;
  fionread = 0;
  recv = failed eagain;
}
ioctl_round broken = record { elapsed = 0; ioctl_ok = true; fionread = 0; recv = failed other }
ioctl_round (arrival bs) = record {
  elapsed = 0;
  ioctl_ok = true;
  fionread = length bs;
  recv = received bs;
}

recv_of : Event → Recv
recv_of (quiet t) = failed eintr
recv_of (timeout t) = failed eagain
recv_of broken = failed other
recv_of (arrival bs) = received bs

nonblocking_loop-expected :
    (es : List Event) → nonblocking_loop (map nonblocking_round es) ≡ expected es
unfolding nonblocking_loop nonblocking_round expected
nonblocking_loop-expected [] = refl
nonblocking_loop-expected (quiet t ∷ es) = ground (arith, nonblocking_loop-expected es)
nonblocking_loop-expected (timeout t ∷ es) = ground arith
nonblocking_loop-expected (broken ∷ es) = refl
nonblocking_loop-expected (arrival bs ∷ es) = refl

select_loop-expected : (es : List Event) → select_loop (map wait_of es) ≡ expected es
unfolding select_loop wait_of expected
select_loop-expected [] = refl
select_loop-expected (quiet t ∷ es) = select_loop-expected es
select_loop-expected (timeout t ∷ es) = refl
select_loop-expected (broken ∷ es) = refl
select_loop-expected (arrival bs ∷ es) = refl

poll_loop-expected : (es : List Event) → poll_loop (map wait_of es) ≡ expected es
unfolding poll_loop wait_of expected
poll_loop-expected [] = refl
poll_loop-expected (quiet t ∷ es) = poll_loop-expected es
poll_loop-expected (timeout t ∷ es) = refl
poll_loop-expected (broken ∷ es) = refl
poll_loop-expected (arrival bs ∷ es) = refl

epoll_loop-expected : (es : List Event) → epoll_loop (map wait_of es) ≡ expected es
unfolding epoll_loop wait_of expected
epoll_loop-expected [] = refl
epoll_loop-expected (quiet t ∷ es) = epoll_loop-expected es
epoll_loop-expected (timeout t ∷ es) = refl
epoll_loop-expected (broken ∷ es) = refl
epoll_loop-expected (arrival bs ∷ es) = refl

-- What FIONREAD shows: no end of file, no broken connection, and no more bytes than an `int` holds.
abbrev pub IsShown : Event → Type 0
IsShown (quiet t) = Unit
IsShown (timeout t) = Unit
IsShown broken = ⊥
IsShown (arrival bs) = (0 < length bs) × (length bs < 2 ^ 31)

ioctl_loop-expected :
    (nread : ℕ) (es : List Event)
    → nread < 2 ^ 32
    → All IsShown es
    → ioctl_loop nread (map ioctl_round es) ≡ expected es
unfolding ioctl_loop ioctl_round expected
ioctl_loop-expected nread [] low h = refl
ioctl_loop-expected nread (quiet t ∷ es) low h =
    let zero_now : nread / 2 ^ 32 * 2 ^ 32 + 0 % 2 ^ 32 ≡ 0 = omega arith in
    rw (zero_now, ge→ltb timeout_sec (min t timeout_sec) (ground arith))
      (ioctl_loop-expected 0 es (omega arith) h.1)
ioctl_loop-expected nread (timeout t ∷ es) low h = ground arith
ioctl_loop-expected nread (broken ∷ es) low h = absurd h.0
ioctl_loop-expected nread (arrival bs ∷ es) low h =
    let now : nread / 2 ^ 32 * 2 ^ 32 + length bs % 2 ^ 32 ≡ length bs = omega (arith, h.0) in
    rw (now, lt→ltb 0 (length bs) h.0.0, lt→ltb (length bs) (2 ^ 63) (omega (arith, h.0.1))) refl

setsockopt_loop-expected : (es : List Event) → setsockopt_loop (map recv_of es) ≡ expected es
unfolding setsockopt_loop recv_of expected
setsockopt_loop-expected [] = refl
setsockopt_loop-expected (quiet t ∷ es) = setsockopt_loop-expected es
setsockopt_loop-expected (timeout t ∷ es) = refl
setsockopt_loop-expected (broken ∷ es) = refl
setsockopt_loop-expected (arrival bs ∷ es) = refl

works : Fcntl
works = record { getfl_ok = true; setfl_ok = true }

-- The system calls of one receive during which `es` happens, and none that changes a setting fails;
-- `nread` is what stood in that variable.
pub calls_of : ℕ → List Event → Calls
unfolding works
calls_of nread es = record {
  unblocks = works;
  blocks = works;
  epoll_create_ok = true;
  epoll_add_ok = true;
  set_timeo_ok = true;
  reset_timeo_ok = true;
  nonblocking_rounds = map nonblocking_round es;
  waits = map wait_of es;
  nread = nread;
  ioctl_rounds = map ioctl_round es;
  recvs = map recv_of es;
}

-- A blocking socket with no timeout of its own, as `accept` returns it.
abbrev pub accepted : ℕ → Socket
accepted n = record { nonblock = false; rcvtimeo = 0; epolls = n }

-- On a socket as `accept` returns it, in each of the six modes and while the calls that change settings
-- succeed, `recv_with_timeout` returns what the first event that is not quiet decides: the bytes and
-- their number on an arrival, -1 on a timeout or a broken connection. In the ioctl mode, the upper half
-- of the variable that FIONREAD stores into must happen to be 0, no end of file and no broken
-- connection must be among the events, and fewer than 2^31 bytes arrive at once. The socket's settings
-- are as before.
pub recv_with_timeout-expected :
    (m : Mode) (nread : ℕ) (es : List Event) (n : ℕ)
    → m ≢ unset
    → (m ≡ ioctl → (nread < 2 ^ 32) × All IsShown es)
    → recv_with_timeout m (calls_of nread es) (accepted n)
      ≡ (expected es >>= λ r. done (r, accepted n))
unfolding recv_with_timeout calls_of
recv_with_timeout-expected unset nread es n set_up seen = absurd (set_up refl)
recv_with_timeout-expected nonblocking nread es n set_up seen = rw (nonblocking_loop-expected es)
recv_with_timeout-expected select nread es n set_up seen = rw (select_loop-expected es)
recv_with_timeout-expected poll nread es n set_up seen = rw (poll_loop-expected es)
recv_with_timeout-expected epoll nread es n set_up seen =
    let e : suc n - 1 ≡ n = omega arith in rw (epoll_loop-expected es, e)
recv_with_timeout-expected ioctl nread es n set_up seen =
    let (low, shown) = seen refl in rw (ioctl_loop-expected nread es low shown)
recv_with_timeout-expected setsockopt nread es n set_up seen = rw (setsockopt_loop-expected es)

ioctl_quiet :
    (nread : ℕ) (before : List ℕ) (t : ℕ)
    → nread < 2 ^ 32
    → ioctl_loop nread (map ioctl_round (map quiet before ++ timeout t ∷ [])) ≡ done error
unfolding ioctl_loop ioctl_round
ioctl_quiet nread [] t low = ground arith
ioctl_quiet nread (b ∷ before) t low =
    let zero_now : nread / 2 ^ 32 * 2 ^ 32 + 0 % 2 ^ 32 ≡ 0 = omega arith in
    rw (zero_now, ge→ltb timeout_sec (min b timeout_sec) (ground arith))
      (ioctl_quiet 0 before t (omega arith))

-- In the ioctl mode the end of file goes by unnoticed, even where the upper half of `nread` is 0: where
-- the client closes the connection and nothing follows but quiet until the timeout, `recv_with_timeout`
-- returns -1 in that mode, and the number 0, for the end of file, in the mode that sets SO_RCVTIMEO.
pub ioctl_misses_eof :
    (nread : ℕ) (before : List ℕ) (t n : ℕ)
    → nread < 2 ^ 32
    → (recv_with_timeout ioctl
          (calls_of nread (arrival [] ∷ (map quiet before ++ timeout t ∷ [])))
          (accepted n)
        ≡ done (error, accepted n))
      × (recv_with_timeout setsockopt
            (calls_of nread (arrival [] ∷ (map quiet before ++ timeout t ∷ [])))
            (accepted n)
          ≡ done (record { rv = count 0; stored = [] }, accepted n))
unfolding recv_with_timeout calls_of ioctl_loop ioctl_round setsockopt_loop recv_of
ioctl_misses_eof nread before t n low =
    let zero_now : nread / 2 ^ 32 * 2 ^ 32 + 0 % 2 ^ 32 ≡ 0 = omega arith in
    (rw (zero_now, ioctl_quiet 0 before t (omega arith)) refl, refl)

-- What stood in the upper half of `nread` stays there: with a bit of it set, and not the sign, the
-- ioctl mode calls `recv` although nothing waits.
ioctl_reads_junk :
    (nread : ℕ) (es : List Event)
    → 2 ^ 32 ≤ nread
    → nread < 2 ^ 63
    → ioctl_loop nread (map ioctl_round (quiet 0 ∷ es)) ≡ done error
unfolding ioctl_loop ioctl_round
ioctl_reads_junk nread es high low =
    let n = nread / 2 ^ 32 * 2 ^ 32 + 0 % 2 ^ 32 in
    rw (lt→ltb 0 n (omega arith), lt→ltb n (2 ^ 63) (omega arith)) refl
