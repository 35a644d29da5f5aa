-- ===== src/Tests/Servers.antt =====
-- The accept thread at small inputs.
use network_program.Prelude.{◌≡◌, refl, inl, inr, true, false, none, some, List, [], ◌∷◌, arith}
use network_program.Sender.{init, received}
use network_program.Server.{
  Calls, server_socket, Loop, server_ready, client_ready, Wait, timed_out, ready, accept_loop,
}
use network_program.Server.Children.{
  IsCounted, WaitsCanOccur, StaysCounted, accept_loop-StaysCounted,
}

-- `setsockopt` fails.
abbrev no_reuse : Calls
no_reuse = record {
  getaddrinfo_ok = true;
  getnameinfo_ok = true;
  socket = some 3;
  setsockopt_ok = false;
  bind_ok = true;
  listen_ok = true;
}

closes_and_frees :
    server_socket no_reuse (2 ∷ []) ≡ record { rv = none; opened = 2 ∷ []; frees = 1 }
unfolding server_socket
closes_and_frees = refl

abbrev start : Loop
start = record {
  child_count = 0;
  watched = [];
  opened = [];
  acc = none;
  queues = λ i. init [];
  epoll_open = true;
}

start-IsCounted : IsCounted start
start-IsCounted = record { counted = refl; all_watched = refl; below = omega arith; epoll = refl }

-- Two connections come, and the first one goes.
abbrev waits : List Wait
waits =
    ready (server_ready (some 5) true ∷ [])
    ∷ timed_out
    ∷ ready (server_ready (some 6) true ∷ client_ready 5 (received []) true ∷ [])
    ∷ []

waits-WaitsCanOccur : WaitsCanOccur start waits
unfolding accept_loop
waits-WaitsCanOccur = ((tt, tt), ((tt, (inr (inl refl), tt)), tt))

accept_loop-StaysCounted_example : StaysCounted (accept_loop start waits)
accept_loop-StaysCounted_example =
    accept_loop-StaysCounted start waits start-IsCounted waits-WaitsCanOccur

abbrev two_children : Loop
two_children = record {
  child_count = 2;
  watched = 6 ∷ 5 ∷ [];
  opened = 6 ∷ 5 ∷ [];
  acc = some 6;
  queues = λ i. init [];
  epoll_open = true;
}
