-- ===== src/Tests/Datagrams.antt =====
-- Runs of the UDP programs of chapter09.
use network_program.Prelude.{
  ℕ, ◌+◌, ◌≡◌, refl, inr, true, false, none, some, List, [], ◌∷◌, ltb→lt, length, map, replicate,
  minus_one, count,
}
use network_program.Http.{str}
use network_program.Echo.{buf_size, waiting, over, overrun}
use network_program.Udp.{
  Calls, udp_server_socket, udp_server_socket_mcast, Datagram, answer_loop, strtok, target, Lookup,
  get_sockaddr_info, Event, quiet, ready, stops, client_loop,
}
use network_program.Udp.Replies.{answers, answer_loop-answers}
use network_program.Udp.Played.{played}
use network_program.Udp.Typed.{
  addressed, unaddressed, end_of_input, Turn, nothing, turn, event_of, meant, client_loop-meant,
}

abbrev cells : List ℕ
cells = replicate buf_size 0

abbrev hello : Datagram
hello = record { from = 7; rv = count 6; stored = str "hello\n"; send_ok = true }

-- A datagram without a byte, from another address.
abbrev empty : Datagram
empty = record { from = 8; rv = count 0; stored = []; send_ok = true }

t_answers :
    answers (hello ∷ empty ∷ [])
    ≡ record { sent = (7, str "hello:OK\r\n") ∷ (8, str ":OK\r\n") ∷ []; ending = waiting }
unfolding answers
t_answers = refl

t_failed :
    answer_loop cells (record hello { rv = minus_one } ∷ hello ∷ [])
    ≡ record { sent = []; ending = overrun }
unfolding answer_loop
t_failed = refl

abbrev joined : Calls
joined = record {
  getaddrinfo_ok = true;
  getnameinfo_ok = true;
  socket = some 3;
  setsockopt_ok = true;
  bind_ok = true;
  membership_ok = false;
}

t_socket : (udp_server_socket joined []).rv ≡ some 3
unfolding udp_server_socket
t_socket = refl

-- The group cannot be joined, and the socket is closed.
t_not_joined : udp_server_socket_mcast joined [] ≡ record { rv = none; opened = []; frees = 1 }
unfolding udp_server_socket_mcast
t_not_joined = refl

abbrev typed : List ℕ
typed = str "a.jp:70\n"

t_target : target typed ≡ some (str "a.jp", str "70")
unfolding target strtok
t_target = refl

-- Without a port there is no target.
t_no_port : target (str "a.jp\n") ≡ none
unfolding target strtok
t_no_port = refl

abbrev lookup : List ℕ → List ℕ → Lookup
lookup hostnm portnm = record {
  address = some (length hostnm + length portnm);
  getnameinfo_ok = true;
}

abbrev events : List Event
events =
    quiet
    ∷ ready none (some (record { line = typed; eof = false; send_ok = true }))
    ∷ ready (some (record { rv = count 3; stored = str "ok\n" })) none
    ∷ ready none (some (record { line = []; eof = true; send_ok = true }))
    ∷ []

t_played :
    played lookup events
    ≡ record { shown = str "ok\n" ∷ []; sent = (6, typed) ∷ []; next = stops over }
unfolding played target strtok get_sockaddr_info
t_played = refl

answer_loop-answers_example : answer_loop cells (hello ∷ empty ∷ []) ≡ answers (hello ∷ empty ∷ [])
answer_loop-answers_example =
    answer_loop-answers cells (hello ∷ empty ∷ []) refl
      ((refl, ltb→lt 6 512 refl), ((refl, ltb→lt 0 512 refl), tt))

abbrev turns : List Turn
turns =
    nothing
    ∷ turn none (some (addressed (str "a.jp") (str "70") true))
    ∷ turn (some (record { rv = count 3; stored = str "ok\n" }))
        (some (unaddressed (str "no\n") true))
    ∷ turn none (some (end_of_input []))
    ∷ []

client_loop-meant_example : client_loop lookup cells (map event_of turns) ≡ meant lookup turns
client_loop-meant_example = client_loop-meant lookup cells turns refl (
  tt,
  (
    (
      tt,
      record {
        host_pos = ltb→lt 0 4 refl;
        host_clean = (λ e. cc, (λ e. cc, (λ e. cc, (λ e. cc, tt))));
        host_non_nul = (λ e. cc, (λ e. cc, (λ e. cc, (λ e. cc, tt))));
        port_pos = ltb→lt 0 2 refl;
        port_clean = ((λ e. cc, λ e. cc), ((λ e. cc, λ e. cc), tt));
        port_non_nul = (λ e. cc, (λ e. cc, tt));
        fits = ltb→lt 8 512 refl;
      },
    ),
    (
      (
        inr (refl, ltb→lt 3 512 refl),
        (
          (λ e. cc, (λ e. cc, (λ e. cc, tt))),
          (λ e. cc, (λ e. cc, (λ e. cc, tt))),
          ltb→lt 3 512 refl,
        ),
      ),
      ((tt, ltb→lt 0 512 refl), tt),
    ),
  ),
)
