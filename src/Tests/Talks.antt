-- ===== src/Tests/Talks.antt =====
-- Runs of the TCP clients.
use network_program.Prelude.{
  ℕ, ◌≡◌, refl, inr, true, false, none, some, List, [], ◌∷◌, ltb→lt, replicate, All, done, count,
}
use network_program.Http.{str}
use network_program.Echo.{buf_size}
use network_program.Certificate.{post_connection_check}
use network_program.Udp.Played.{Fits}
use network_program.Udp.{Event, quiet, ready}
use network_program.Chat.{on_eof, on_error, stops, talk_loop}
use network_program.Chat.Talk.{talked, talk_loop-talked}
use network_program.Ssl.{Calls, check_peer}
use network_program.Ssl.Client.{
  Left, fails, client_ctx, send_recv_loop, IsGuarded, client_loop-IsGuarded,
}

abbrev cells : List ℕ
cells = replicate buf_size 0

abbrev events : List Event
events =
    quiet
    ∷ ready none (some (record { line = str "hi\n"; eof = false; send_ok = true }))
    ∷ ready (some (record { rv = count 7; stored = str "hi:OK\r\n" })) none
    ∷ ready (some (record { rv = count 0; stored = [] })) none
    ∷ []

t_talked :
    talked events
    ≡ record { shown = str "hi:OK\r\n" ∷ []; sent = str "hi\n" ∷ []; next = stops on_eof }
unfolding talked
t_talked = refl

-- A send that fails ends the loop.
t_refused :
    talked (ready none (some (record { line = str "hi\n"; eof = false; send_ok = false })) ∷ events)
    ≡ record { shown = []; sent = []; next = stops on_error }
unfolding talked
t_refused = refl

abbrev host : List ℕ
host = str "a.jp"

abbrev calls : Calls
calls = record {
  new_ok = true;
  accept_ok = true;
  cert = some (record { extensions = []; common_name = some (str "*.jp") });
  verify_ok = true;
  received_shutdown = true;
}

t_checked : check_peer host true calls ≡ done true
unfolding check_peer post_connection_check
t_checked = refl

t_unverified : send_recv_loop host true (record calls { verify_ok = false }) [] [] ≡ done (fails 1)
unfolding send_recv_loop check_peer post_connection_check
t_unverified = refl

t_no_paths :
    client_ctx false true
      (record {
        use_certificate_ok = false;
        use_private_key_ok = false;
        load_verify_ok = true;
        set_cipher_ok = true;
      })
      false
    ≡ none
unfolding client_ctx
t_no_paths = refl

fits : All Fits events
fits = (
  tt,
  (
    (tt, ltb→lt 3 512 refl),
    ((inr (refl, ltb→lt 7 512 refl), tt), ((inr (refl, ltb→lt 0 512 refl), tt), tt)),
  ),
)

talk_loop-talked_example : talk_loop cells events ≡ talked events
talk_loop-talked_example = talk_loop-talked cells events refl fits

client_loop-IsGuarded_example :
    (l : Left) × (send_recv_loop host true calls cells events ≡ done l)
    × IsGuarded host true calls events l
client_loop-IsGuarded_example =
    client_loop-IsGuarded host true calls cells events true refl fits t_checked
