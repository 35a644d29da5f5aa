-- ===== src/Timeout/Mode.antt =====
-- The mode: which way of receiving `main` chooses, by the first byte of its second argument.
pub mod Letter
use network_program.Prelude.{ℕ, ◌-◌, ◌&&◌, Option, none, some, leb, ◌==◌, if◌then◌else◌}

-- `g_mode`, with the values that the program gives it.
pub data Mode : Type 0 where
  unset nonblocking select poll epoll ioctl setsockopt : Mode

-- C's `toupper` on ASCII.
unfoldable pub to_upper : ℕ → ℕ
to_upper c = if leb b'a' c && leb c b'z' then c - 32 else c

-- `none`: "mode error", and the program ends with EX_USAGE.
unfoldable pub mode_of_arg : ℕ → Option Mode
unfolding to_upper
mode_of_arg c =
    if to_upper c == b'N'
    then some nonblocking
    else if to_upper c == b'S'
    then some select
    else if to_upper c == b'P'
    then some poll
    else if to_upper c == b'E'
    then some epoll
    else if to_upper c == b'I'
    then some ioctl
    else if to_upper c == b'O'
    then some setsockopt
    else none
