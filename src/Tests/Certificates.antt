-- ===== src/Tests/Certificates.antt =====
-- Runs of the certificate check of chapter11/ssl-server.c.
use network_program.Prelude.{
  ℕ, ◌≡◌, refl, ◌↔◌, ◌⊎◌, inr, true, false, none, some, List, [], ◌∷◌, ltb→lt, replicate, done,
  fault, count,
}
use network_program.Http.{str}
use network_program.Certificate.{
  like_check_ignorecase, Extension, Cert, post_connection_check, verify_result, application_error,
}
use network_program.Certificate.Like.{like_check_ignorecase-Matches}
use network_program.Certificate.Matching.{Matches, IsEnd}
use network_program.Certificate.Accepts.{HasAltName, IsCommonName, post_connection_check-Accepted}
use network_program.Echo.{buf_size, Round}
use network_program.Echo.Reply.{dialogue}
use network_program.Ssl.{client_fqdn, Calls, Served, fails, check_peer, server_ctx, send_recv_loop}
use network_program.Ssl.Guard.{IsGuarded, send_recv_loop-IsGuarded}

abbrev www : List ℕ
www = str "www.a.jp"

t_like : like_check_ignorecase www (str "*.A.jp") ≡ done true
unfolding like_check_ignorecase
t_like = refl

t_question : like_check_ignorecase www (str "www.?.jp") ≡ done true
unfolding like_check_ignorecase
t_question = refl

t_unlike : like_check_ignorecase www (str "*.b.jp") ≡ done false
unfolding like_check_ignorecase
t_unlike = refl

-- The star's loop steps over the NUL of an empty string.
t_past : like_check_ignorecase [] (str "*a") ≡ fault
unfolding like_check_ignorecase
t_past = refl

abbrev alt : List ℕ → Extension
alt value = record { is_alt_name = true; method_ok = true; values = (str "DNS", value) ∷ [] }

-- A certificate for other hosts, without a commonName.
abbrev other_host : Cert
other_host = record { extensions = alt (str "b.jp") ∷ []; common_name = none }

t_other_host : post_connection_check (some www) (some other_host) ≡ done verify_result
unfolding post_connection_check
t_other_host = refl

-- An empty commonName is not looked at either.
t_empty_name :
    post_connection_check (some www) (some (record other_host { common_name = some [] }))
    ≡ done verify_result
unfolding post_connection_check
t_empty_name = refl

-- The certificate's own pattern is not one.
abbrev wild : Cert
wild = record { extensions = alt (str "*.a.jp") ∷ []; common_name = some (str "a.jp") }

t_wild : post_connection_check (some www) (some wild) ≡ done application_error
unfolding post_connection_check
t_wild = refl

abbrev right : Cert
right = record { extensions = alt www ∷ []; common_name = none }

like_check_ignorecase-Matches_example :
    ((like_check_ignorecase www (str "*.a.jp") ≡ done true) ↔ Matches (str "*.a.jp") www)
    × ((like_check_ignorecase www (str "*.a.jp") ≡ fault)
        → (t : List ℕ) → IsEnd t www
        → ¬ Matches (str "*.a.jp") t)
like_check_ignorecase-Matches_example = like_check_ignorecase-Matches (str "*.a.jp") www

post_connection_check-Accepted_example :
    HasAltName www right.extensions ⊎ IsCommonName www right.common_name
unfolding post_connection_check
post_connection_check-Accepted_example = post_connection_check-Accepted www right refl

abbrev client : Cert
client = record { extensions = alt (str "pc.localdomain") ∷ []; common_name = none }

abbrev calls : Calls
calls = record {
  new_ok = true;
  accept_ok = true;
  cert = some client;
  verify_ok = true;
  received_shutdown = true;
}

abbrev cells : List ℕ
cells = replicate buf_size 0

abbrev rounds : List Round
rounds =
    record { rv = count 3; stored = str "hi\n"; send_ok = true }
    ∷ record { rv = count 0; stored = []; send_ok = true }
    ∷ []

t_checked : check_peer client_fqdn true calls ≡ done true
unfolding check_peer post_connection_check
t_checked = refl

-- A value without a byte makes the check of the server read past its end.
t_empty_value :
    check_peer client_fqdn true
      (record calls { cert = some (record { extensions = alt [] ∷ []; common_name = none }) })
    ≡ fault
unfolding check_peer post_connection_check
t_empty_value = refl

t_no_cert : send_recv_loop true (record calls { cert = none }) [] rounds ≡ done (fails 1)
unfolding send_recv_loop post_connection_check
t_no_cert = refl

t_replies : (dialogue rounds).sent ≡ str "hi:OK\r\n" ∷ []
unfolding dialogue
t_replies = refl

t_ctx :
    server_ctx true (record {
      use_certificate_ok = true;
      use_private_key_ok = true;
      load_verify_ok = true;
      set_cipher_ok = true;
    })
    ≡ some (record { verifies_peer = true })
unfolding server_ctx
t_ctx = refl

send_recv_loop-IsGuarded_example :
    (s : Served) × (send_recv_loop true calls cells rounds ≡ done s) × IsGuarded true calls rounds s
send_recv_loop-IsGuarded_example =
    send_recv_loop-IsGuarded true calls cells rounds true refl
      (inr (refl, ltb→lt 3 512 refl), (inr (refl, ltb→lt 0 512 refl), tt)) t_checked
