-- ===== src/Receive/Restores.antt =====
-- What `recv_with_timeout` leaves behind at the socket, on every path that returns.
use network_program.Prelude.{◌≡◌, true, false, arith, done}
use network_program.Timeout.{Recvd}
use network_program.Timeout.Mode.{Mode, unset, nonblocking, select, poll, epoll, ioctl, setsockopt}
use network_program.Receive.{Socket, Calls, recv_with_timeout}

-- What the next user of the socket relies on.
pub record Restored (c : Calls) (s s' : Socket) : Type 0 where
  pub epolls_same : s'.epolls ≡ s.epolls
  pub blocking :
      c.blocks.getfl_ok ≡ true → c.blocks.setfl_ok ≡ true → s.nonblock ≡ false → s'.nonblock ≡ false
  pub no_timeout : c.reset_timeo_ok ≡ true → s.rcvtimeo ≡ 0 → s'.rcvtimeo ≡ 0

-- In every mode, whatever the system calls give, a call of `recv_with_timeout` that returns has
-- closed the epoll descriptor that it opened; a socket that was blocking is blocking again unless
-- the two `fcntl` calls at the end fail, and one without SO_RCVTIMEO is without it again unless
-- the last `setsockopt` fails.
pub recv_with_timeout-Restored :
    (m : Mode) (c : Calls) (s s' : Socket) (r : Recvd)
    → recv_with_timeout m c s ≡ done (r, s')
    → Restored c s s'
unfolding recv_with_timeout
recv_with_timeout-Restored unset c s s' r e = ground arith
recv_with_timeout-Restored nonblocking c s s' r e = ground arith
recv_with_timeout-Restored select c s s' r e = ground arith
recv_with_timeout-Restored poll c s s' r e = ground arith
recv_with_timeout-Restored epoll c s s' r e = ground arith
recv_with_timeout-Restored ioctl c s s' r e = ground arith
recv_with_timeout-Restored setsockopt c s s' r e = ground arith
