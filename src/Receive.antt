-- ===== src/Receive.antt =====
-- `recv_with_timeout` (chapter06/timeout.c) around the loops of `Timeout`: what each way changes at
-- the socket, and how `g_mode` selects one.
pub mod Spec
pub mod Restores
use network_program.Prelude.{
  ℕ, zero, suc, ◌+◌, ◌-◌, ◌*◌, ◌/◌, ◌%◌, ◌^◌, ◌≤◌, ◌<◌, min, ◌≡◌, refl, sym, ap, ◌∙◌, ◌≢◌, ◌↔◌, ◌⊎◌,
  inl, inr, Bool, true, false, not, ◌&&◌, ◌||◌, Option, none, some, List, [], ◌∷◌, ◌++◌, map,
  append_assoc, append-nil, arith, ltb, leb, ◌==◌, if◌then◌else◌, ltb→lt, lt→ltb, ltb→ge, ge→ltb,
  ==→eq, eq→==, ==→ne, ne→==, tests, Bool-cases, Option-cases, length, get_elem?, set, take, drop,
  replicate, All, length-append, length-snoc, length-set, length-take, length-drop,
  length-replicate, take-append-drop, take-append, drop-append, take-append_ge, drop-append_ge,
  take-append_le, drop-append_le, take-take, set-append, All-snoc, All-append, map-snoc,
  get_elem?-append, get_elem?-take, take-store, take-set, take-set_ge, take-nil, drop-nil,
  get_elem?-set_self, get_elem?-set_ne, get_elem?-lt, Run, done, blocked, fault, ◌>>=◌, write,
  write-lt, write-ge, Ret, minus_one, count, Errno, eintr, eagain, other,
}
use network_program.Timeout.{
  Recv, Recvd, error, timeout_sec, NonblockingRound, nonblocking_loop, Wait, select_loop, poll_loop,
  epoll_loop, IoctlRound, ioctl_loop, setsockopt_loop,
}
use network_program.Timeout.Mode.{Mode, unset, nonblocking, select, poll, epoll, ioctl, setsockopt}

-- What outlives a call: O_NONBLOCK, the seconds of SO_RCVTIMEO, and the epoll descriptors that the
-- process has open.
pub record Socket : Type 0 where
  pub nonblock : Bool
  pub rcvtimeo : ℕ
  pub epolls : ℕ

-- Whether `fcntl(fd, F_GETFL, 0)` and `fcntl(fd, F_SETFL, ...)` succeed.
pub record Fcntl : Type 0 where
  pub getfl_ok : Bool
  pub setfl_ok : Bool

-- A failed F_SETFL is not noticed.
unfoldable pub set_block : Fcntl → Socket → ℕ → Ret × Socket
set_block f s flag =
    if f.getfl_ok
    then if flag == 0
      then (count 0, if f.setfl_ok then record s { nonblock = true } else s)
      else if flag == 1
      then (count 0, if f.setfl_ok then record s { nonblock = false } else s)
      else (count 0, s)
    else (minus_one, s)

-- What the system calls of one call of `recv_with_timeout` give.
pub record Calls : Type 0 where
  pub unblocks : Fcntl
  pub blocks : Fcntl
  pub epoll_create_ok : Bool
  pub epoll_add_ok : Bool
  pub set_timeo_ok : Bool
  pub reset_timeo_ok : Bool
  pub nonblocking_rounds : List NonblockingRound
  pub waits : List Wait
  -- what `nread` holds before the first FIONREAD
  pub nread : ℕ
  pub ioctl_rounds : List IoctlRound
  pub recvs : List Recv

unfoldable pub recv_with_timeout_by_nonblocking : Calls → Socket → Run (Recvd × Socket)
unfolding set_block
recv_with_timeout_by_nonblocking c s =
    let (_, s') = set_block c.unblocks s 0 in
    nonblocking_loop c.nonblocking_rounds >>= λ r. done (r, (set_block c.blocks s' 1).1)

unfoldable pub recv_with_timeout_by_select : Calls → Socket → Run (Recvd × Socket)
recv_with_timeout_by_select c s = select_loop c.waits >>= λ r. done (r, s)

unfoldable pub recv_with_timeout_by_poll : Calls → Socket → Run (Recvd × Socket)
recv_with_timeout_by_poll c s = poll_loop c.waits >>= λ r. done (r, s)

open_epoll : Socket → Socket
open_epoll s = record s { epolls = suc s.epolls }

close_epoll : Socket → Socket
close_epoll s = record s { epolls = s.epolls - 1 }

-- A failed EPOLL_CTL_DEL is only reported.
unfoldable pub recv_with_timeout_by_epoll : Calls → Socket → Run (Recvd × Socket)
unfolding open_epoll close_epoll
recv_with_timeout_by_epoll c s =
    if c.epoll_create_ok
    then if c.epoll_add_ok
      then (epoll_loop c.waits >>= λ r. done (r, close_epoll (open_epoll s)))
      else done (error, close_epoll (open_epoll s))
    else done (error, s)

unfoldable pub recv_with_timeout_by_ioctl : Calls → Socket → Run (Recvd × Socket)
recv_with_timeout_by_ioctl c s = ioctl_loop c.nread c.ioctl_rounds >>= λ r. done (r, s)

unfoldable pub recv_with_timeout_by_setsockopt : Calls → Socket → Run (Recvd × Socket)
recv_with_timeout_by_setsockopt c s =
    if c.set_timeo_ok
    then (setsockopt_loop c.recvs >>= λ r.
        done (r, record s { rcvtimeo = if c.reset_timeo_ok then 0 else timeout_sec }))
    else done (error, s)

unfoldable pub recv_with_timeout : Mode → Calls → Socket → Run (Recvd × Socket)
unfolding recv_with_timeout_by_nonblocking recv_with_timeout_by_select recv_with_timeout_by_poll
    recv_with_timeout_by_epoll recv_with_timeout_by_ioctl recv_with_timeout_by_setsockopt
recv_with_timeout nonblocking c s = recv_with_timeout_by_nonblocking c s
recv_with_timeout select c s = recv_with_timeout_by_select c s
recv_with_timeout poll c s = recv_with_timeout_by_poll c s
recv_with_timeout epoll c s = recv_with_timeout_by_epoll c s
recv_with_timeout ioctl c s = recv_with_timeout_by_ioctl c s
recv_with_timeout setsockopt c s = recv_with_timeout_by_setsockopt c s
recv_with_timeout unset c s = done (error, s)
