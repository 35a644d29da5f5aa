-- ===== src/Tests/Receiving.antt =====
-- Receiving with a timeout at small inputs.
use network_program.Prelude.{◌≡◌, refl, ◌≢◌, some, List, [], ◌∷◌, done, ◌>>=◌, count}
use network_program.Timeout.Mode.{poll, epoll, ioctl, unset, mode_of_arg}
use network_program.Receive.{recv_with_timeout}
use network_program.Receive.Spec.{
  Event, quiet, timeout, arrival, expected, calls_of, accepted, recv_with_timeout-expected,
}

abbrev late_hello : List Event
late_hello = quiet 3 ∷ arrival (b'h' ∷ b'i' ∷ []) ∷ timeout 0 ∷ []

epoll≢unset : epoll ≢ unset
epoll≢unset e = cc

epoll≢ioctl : epoll ≢ ioctl
epoll≢ioctl e = cc

recv_with_timeout-expected_example :
    recv_with_timeout epoll (calls_of 7 late_hello) (accepted 0)
    ≡ (expected late_hello >>= λ r. done (r, accepted 0))
recv_with_timeout-expected_example =
    recv_with_timeout-expected epoll 7 late_hello 0 epoll≢unset (λ e. absurd (epoll≢ioctl e))

late_hello_arrives : expected late_hello ≡ done (record { rv = count 2; stored = b'h' ∷ b'i' ∷ [] })
unfolding expected
late_hello_arrives = refl

small_p : mode_of_arg b'p' ≡ some poll
unfolding mode_of_arg
small_p = refl
