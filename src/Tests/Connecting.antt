-- ===== src/Tests/Connecting.antt =====
-- Connecting with a limit of time, at small inputs.
use network_program.Prelude.{◌≡◌, refl, true, false, none, some, [], ◌∷◌, done, eintr}
use network_program.Receive.{Socket, Fcntl}
use network_program.Connect.{
  in_progress, wait_failed, timed_out, ready, Calls, Client, client_socket_with_timeout,
}
use network_program.Connect.Leaves.{IsLeft, client_socket_with_timeout-Outcome}

abbrev works : Fcntl
works = record { getfl_ok = true; setfl_ok = true }

-- A signal, and then the connection is there.
abbrev slow : Calls
slow = record {
  getaddrinfo_ok = true;
  getnameinfo_ok = true;
  socket = some 3;
  timed = true;
  unblocks = works;
  connect = in_progress;
  waits = wait_failed eintr ∷ ready true false (some 0) ∷ [];
  blocks = works;
}

abbrev fresh_socket : Socket
fresh_socket = record { nonblock = false; rcvtimeo = 0; epolls = 0 }

returns_socket :
    client_socket_with_timeout slow fresh_socket []
    ≡ done (record { rv = some 3; state = fresh_socket; opened = 3 ∷ []; frees = 1 })
unfolding client_socket_with_timeout
returns_socket = refl

closes_on_timeout :
    client_socket_with_timeout (record slow { waits = timed_out ∷ [] }) fresh_socket []
    ≡ done (record {
      rv = none;
      state = record fresh_socket { nonblock = true };
      opened = [];
      frees = 1;
    })
unfolding client_socket_with_timeout
closes_on_timeout = refl

client_socket_with_timeout-Outcome_example :
    (r : Client) × (client_socket_with_timeout slow fresh_socket [] ≡ done r) × IsLeft [] 3 true r
client_socket_with_timeout-Outcome_example = client_socket_with_timeout-Outcome slow fresh_socket []
