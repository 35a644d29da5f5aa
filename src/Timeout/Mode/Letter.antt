-- ===== src/Timeout/Mode/Letter.antt =====
-- Which letters choose which mode.
use network_program.Prelude.{
  ℕ, ◌≡◌, refl, sym, ap, ◌∙◌, ◌≢◌, Bool, true, false, Option, none, some, ◌==◌, if◌then◌else◌,
  ==→eq,
}
use network_program.Timeout.Mode.{
  Mode, unset, nonblocking, select, poll, epoll, ioctl, setsockopt, to_upper, mode_of_arg,
}

-- The letter that the usage text has for a mode.
abbrev pub letter : Mode → ℕ
letter unset = 0
letter nonblocking = b'N'
letter select = b'S'
letter poll = b'P'
letter epoll = b'E'
letter ioctl = b'I'
letter setsockopt = b'O'

-- Of six tests in a row, the one that chose.
mode_by_tests : (n s p e i o : Bool) → Option Mode
mode_by_tests n s p e i o =
    if n
    then some nonblocking
    else if s
    then some select
    else if p
    then some poll
    else if e
    then some epoll
    else if i
    then some ioctl
    else if o
    then some setsockopt
    else none

test_of : Mode → (n s p e i o : Bool) → Bool
test_of unset n s p e i o = false
test_of nonblocking n s p e i o = n
test_of select n s p e i o = s
test_of poll n s p e i o = p
test_of epoll n s p e i o = e
test_of ioctl n s p e i o = i
test_of setsockopt n s p e i o = o

from_some : Mode → Option Mode → Mode
from_some d none = d
from_some d (some m) = m

test_of-mode_by_tests :
    (n s p e i o : Bool) (m : Mode)
    → mode_by_tests n s p e i o ≡ some m
    → test_of m n s p e i o ≡ true
unfolding mode_by_tests test_of from_some
test_of-mode_by_tests true s p e i o m h = rw (← ap (from_some unset) h) refl
test_of-mode_by_tests false true p e i o m h = rw (← ap (from_some unset) h) refl
test_of-mode_by_tests false false true e i o m h = rw (← ap (from_some unset) h) refl
test_of-mode_by_tests false false false true i o m h = rw (← ap (from_some unset) h) refl
test_of-mode_by_tests false false false false true o m h = rw (← ap (from_some unset) h) refl
test_of-mode_by_tests false false false false false true m h = rw (← ap (from_some unset) h) refl
test_of-mode_by_tests false false false false false false m h = absurd (cc h)

mode_of_arg-tests :
    (c : ℕ)
    → mode_of_arg c
      ≡ mode_by_tests
          (to_upper c == b'N')
          (to_upper c == b'S')
          (to_upper c == b'P')
          (to_upper c == b'E')
          (to_upper c == b'I')
          (to_upper c == b'O')
unfolding mode_of_arg mode_by_tests
mode_of_arg-tests c = refl

letter_of_test :
    (c : ℕ) (m : Mode)
    → test_of m (c == b'N') (c == b'S') (c == b'P') (c == b'E') (c == b'I') (c == b'O') ≡ true
    → (c ≡ letter m) × (m ≢ unset)
unfolding test_of
letter_of_test c unset h = absurd (cc h)
letter_of_test c nonblocking h = (==→eq c b'N' h, λ p. cc)
letter_of_test c select h = (==→eq c b'S' h, λ p. cc)
letter_of_test c poll h = (==→eq c b'P' h, λ p. cc)
letter_of_test c epoll h = (==→eq c b'E' h, λ p. cc)
letter_of_test c ioctl h = (==→eq c b'I' h, λ p. cc)
letter_of_test c setsockopt h = (==→eq c b'O' h, λ p. cc)

-- The mode that `main` chooses is one of the six, and the argument begins with that mode's letter in the
-- usage text, small or capital: N, S, P, E, I or O.
pub mode_of_arg-letter :
    (c : ℕ) (m : Mode) → mode_of_arg c ≡ some m → (to_upper c ≡ letter m) × (m ≢ unset)
mode_of_arg-letter c m h = letter_of_test (to_upper c) m (
    test_of-mode_by_tests (to_upper c == b'N') (to_upper c == b'S') (to_upper c == b'P')
      (to_upper c == b'E') (to_upper c == b'I') (to_upper c == b'O') m
      (sym (mode_of_arg-tests c) ∙ h))
