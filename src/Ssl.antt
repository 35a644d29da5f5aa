-- ===== src/Ssl.antt =====
-- The server of chapter11/ssl-server.c: `server_ctx` and `send_recv_loop`. `checks` is the macro
-- CHECK_CLIENT_CERT; what OpenSSL gives is an argument. The dialogue is the one of Echo, over SSL_read and
-- SSL_write, where a negative value stands for -1.
pub mod Guard
pub mod Client
use network_program.Prelude.{
  ℕ, ◌*◌, Bool, true, false, not, ◌&&◌, Option, none, some, List, [], if◌then◌else◌, Run, done,
  fault, ◌>>=◌, Ret, minus_one, count,
}
use network_program.Http.{str}
use network_program.Certificate.{
  Cert, Verdict, application_error, verify_result, post_connection_check,
}
use network_program.Echo.{Round, Ending, waiting, over, overrun, Dialogue}
use network_program.Echo as Echo

-- CLIENT_FQDN
abbrev pub client_fqdn : List ℕ
client_fqdn = str "*.localdomain"

pub record CtxCalls : Type 0 where
  pub use_certificate_ok : Bool
  pub use_private_key_ok : Bool
  pub load_verify_ok : Bool
  pub set_cipher_ok : Bool

-- A context, and whether the peer has to show a certificate to it.
pub record Ctx : Type 0 where
  pub verifies_peer : Bool

-- none for NULL; the context made before is then not freed.
unfoldable pub server_ctx : Bool → CtxCalls → Option Ctx
server_ctx checks c =
    if not c.use_certificate_ok
    then none
    else if not c.use_private_key_ok
    then none
    else if checks && not c.load_verify_ok
    then none
    else if not c.set_cipher_ok
    then none
    else some (record { verifies_peer = checks })

-- What the calls give: SSL_new, SSL_accept, the peer's certificate, SSL_get_verify_result, and at the end
-- whether SSL_get_shutdown has SSL_RECEIVED_SHUTDOWN.
pub record Calls : Type 0 where
  pub new_ok : Bool
  pub accept_ok : Bool
  pub cert : Option Cert
  pub verify_ok : Bool
  pub received_shutdown : Bool

-- How the connection is ended: not at all, by SSL_shutdown or by SSL_clear.
pub data Closing : Type 0 where
  not_reached shut_down cleared : Closing

-- `rv` is none while the loop goes on, and `frees` counts the calls of SSL_free.
pub record Served : Type 0 where
  pub rv : Option Ret
  pub sent : List (List ℕ)
  pub closing : Closing
  pub frees : ℕ

abbrev pub fails : ℕ → Served
fails frees = record { rv = some minus_one; sent = []; closing = not_reached; frees = frees }

-- Behind the loop.
abbrev pub end_dialogue : Bool → Dialogue → Run Served
end_dialogue received_shutdown d = elim d.ending [
  | waiting ↦ done (record { rv = none; sent = d.sent; closing = not_reached; frees = 0 })
  | overrun ↦ fault
  | over ↦ done (record {
    rv = some (count 0);
    sent = d.sent;
    closing = if received_shutdown then shut_down else cleared;
    frees = 1;
  })
]

-- Whether `post_connection_check` gave X509_V_OK.
abbrev pub is_ok : Verdict → Bool → Bool
is_ok application_error verify_ok = false
is_ok verify_result verify_ok = verify_ok

-- `checks` is CHECK_CLIENT_CERT, and CHECK_SERVER_CERT in chapter11/ssl-client.c.
unfoldable pub check_peer : List ℕ → Bool → Calls → Run Bool
check_peer host checks c =
    if checks
    then (post_connection_check (some host) c.cert >>= λ v. done (is_ok v c.verify_ok))
    else done true

unfoldable pub send_recv_loop : Bool → Calls → List ℕ → List Round → Run Served
unfolding check_peer
send_recv_loop checks c buf rs =
    if not c.new_ok
    then done (fails 0)
    else if not c.accept_ok
    then done (fails 1)
    else check_peer client_fqdn checks c >>= λ ok.
        (if ok
          then end_dialogue c.received_shutdown (Echo.send_recv_loop buf rs)
          else done (fails 1))
