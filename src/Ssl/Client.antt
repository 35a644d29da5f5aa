-- ===== src/Ssl/Client.antt =====
-- `client_ctx`, `send_recv_loop` and the loop's end in chapter11/ssl-client.c, over the dialogue of Chat.
use network_program.Prelude.{
  ℕ, ◌≡◌, refl, ap, ◌∙◌, ◌⊎◌, inl, inr, Bool, true, false, not, ◌&&◌, Option, none, some, List, [],
  ◌∷◌, ◌==◌, if◌then◌else◌, Bool-cases, length, All, Run, done, blocked, fault, ◌>>=◌, Ret,
  minus_one, count,
}
use network_program.Echo.{buf_size}
use network_program.Udp.{Event, quiet, ready, Arrival, Key}
use network_program.Udp.Played.{Fits}
use network_program.Chat.{
  End, waiting, on_error, on_eof, overrun, Next, goes_on, stops, Talked, talk_loop,
}
use network_program.Chat.Talk.{talked, unless, ends_at, ends_with, talk_loop-talked}
use network_program.Ssl.{CtxCalls, Ctx, Calls, Closing, not_reached, shut_down, cleared, check_peer}
use network_program.Ssl.Guard.{IsTrusted, check_peer-IsTrusted}

-- `client_certs` is CHECK_CLIENT_CERT and `server_certs` CHECK_SERVER_CERT; none is NULL, and the context
-- made before is then not freed.
unfoldable pub client_ctx : Bool → Bool → CtxCalls → Bool → Option Ctx
client_ctx client_certs server_certs c default_paths_ok =
    if client_certs && not c.use_certificate_ok
    then none
    else if client_certs && not c.use_private_key_ok
    then none
    else if server_certs && not c.load_verify_ok
    then none
    else if server_certs && not default_paths_ok
    then none
    else if not c.set_cipher_ok
    then none
    else some (record { verifies_peer = server_certs })

-- `rv` is none while the loop goes on.
pub record Left : Type 0 where
  pub rv : Option Ret
  pub shown : List (List ℕ)
  pub sent : List (List ℕ)
  pub closing : Closing
  pub frees : ℕ

abbrev pub fails : ℕ → Left
fails frees = record {
  rv = some minus_one;
  shown = [];
  sent = [];
  closing = not_reached;
  frees = frees;
}

-- Behind the loop: SSL_shutdown at an end of file, else SSL_clear.
abbrev pub leaves : List (List ℕ) → List (List ℕ) → Next → Run Left
leaves shown sent (goes_on buf) = blocked
leaves shown sent (stops waiting) =
    done (record { rv = none; shown = shown; sent = sent; closing = not_reached; frees = 0 })
leaves shown sent (stops on_error) =
    done (record { rv = some (count 0); shown = shown; sent = sent; closing = cleared; frees = 1 })
leaves shown sent (stops on_eof) =
    done
      (record { rv = some (count 0); shown = shown; sent = sent; closing = shut_down; frees = 1 })
leaves shown sent (stops overrun) = fault

-- `accept_ok` is what SSL_connect gives, and `g_server_fqdn` the host that was asked for.
unfoldable pub send_recv_loop : List ℕ → Bool → Calls → List ℕ → List Event → Run Left
unfolding talk_loop
send_recv_loop g_server_fqdn checks c buf es =
    let t = talk_loop buf es in
    if not c.new_ok
    then done (fails 0)
    else if not c.accept_ok
    then done (fails 1)
    else check_peer g_server_fqdn checks c >>= λ ok.
        (if ok then leaves t.shown t.sent t.next else done (fails 1))

-- SSL_free is called once behind a successful SSL_new; and what was sent are the lines typed, to a server
-- that is trusted where there is a check.
abbrev pub IsGuarded : List ℕ → Bool → Calls → List Event → Left → Type 0
IsGuarded host checks c es l =
    ((l.rv ≡ none) ⊎ (l.frees ≡ (if c.new_ok then 1 else 0)))
    × ((l.sent ≡ [])
        ⊎ ((l.sent ≡ (talked es).sent) × ((checks ≡ false) ⊎ IsTrusted host c.cert c.verify_ok)))

-- A loop that has stopped inside of its array.
abbrev IsSafe : Next → Type 0
IsSafe (goes_on buf) = ⊥
IsSafe (stops waiting) = Unit
IsSafe (stops on_error) = Unit
IsSafe (stops on_eof) = Unit
IsSafe (stops overrun) = ⊥

abbrev IsSafeEnd : Option End → Type 0
IsSafeEnd none = Unit
IsSafeEnd (some e) = IsSafe (stops e)

unless-IsSafe :
    (first last : Option End) (a : Option Arrival) (rest : Talked)
    → IsSafeEnd first
    → IsSafeEnd last
    → IsSafe rest.next
    → IsSafe (unless first last a rest).next
unless-IsSafe (some e) last a rest f l safe = f
unless-IsSafe none (some e) a rest f l safe = l
unless-IsSafe none none a rest f l safe = safe

received-IsSafeEnd :
    (rv : Ret) (stored : List ℕ) → IsSafeEnd (ends_at (some (record { rv = rv; stored = stored })))
received-IsSafeEnd minus_one stored = tt
received-IsSafeEnd (count len) stored = elim (Bool-cases (len == 0)) [
  | inl eof ↦ rw eof tt
  | inr more ↦ rw more tt
]

ends_at-IsSafeEnd : (a : Option Arrival) → IsSafeEnd (ends_at a)
ends_at-IsSafeEnd none = tt
ends_at-IsSafeEnd (some a) = received-IsSafeEnd a.rv a.stored

typed-IsSafeEnd :
    (line : List ℕ) (eof send_ok : Bool)
    → IsSafeEnd (ends_with (some (record { line = line; eof = eof; send_ok = send_ok })))
typed-IsSafeEnd line true send_ok = tt
typed-IsSafeEnd line false true = tt
typed-IsSafeEnd line false false = tt

ends_with-IsSafeEnd : (k : Option Key) → IsSafeEnd (ends_with k)
ends_with-IsSafeEnd none = tt
ends_with-IsSafeEnd (some k) = typed-IsSafeEnd k.line k.eof k.send_ok

talked-IsSafe : (es : List Event) → IsSafe (talked es).next
unfolding talked
talked-IsSafe [] = tt
talked-IsSafe (quiet ∷ es) = talked-IsSafe es
talked-IsSafe (ready a k ∷ es) =
    unless-IsSafe (ends_at a) (ends_with k) a _ (ends_at-IsSafeEnd a) (ends_with-IsSafeEnd k)
      (talked-IsSafe es)

leaves-done :
    (shown sent : List (List ℕ)) (n : Next)
    → IsSafe n
    → (l : Left) × (leaves shown sent n ≡ done l)
      × (l.sent ≡ sent)
      × ((l.rv ≡ none) ⊎ (l.frees ≡ 1))
leaves-done shown sent (goes_on buf) safe = absurd safe
leaves-done shown sent (stops waiting) safe = (_, refl, refl, inl refl)
leaves-done shown sent (stops on_error) safe = (_, refl, refl, inr refl)
leaves-done shown sent (stops on_eof) safe = (_, refl, refl, inr refl)
leaves-done shown sent (stops overrun) safe = absurd safe

-- Unless `post_connection_check` reads past the end of a string, `send_recv_loop` writes nothing outside of
-- its array while each SSL_read stores fewer than 512 bytes and each line is one that `fgets` stores;
-- where it returns, SSL_free has been called once if SSL_new succeeded and else not at all; and if
-- anything is sent, it is the lines typed, and with CHECK_SERVER_CERT the server has a certificate that
-- OpenSSL accepts and that names the host asked for by a value of a subjectAltName or by its commonName,
-- or has no commonName or an empty one.
pub client_loop-IsGuarded :
    (host : List ℕ) (checks : Bool) (c : Calls) (buf : List ℕ) (es : List Event) (ok : Bool)
    → length buf ≡ buf_size
    → All Fits es
    → check_peer host checks c ≡ done ok
    → (l : Left) × (send_recv_loop host checks c buf es ≡ done l) × IsGuarded host checks c es l
unfolding send_recv_loop
client_loop-IsGuarded host checks c buf es ok size h checked = elim (Bool-cases c.new_ok) [
  | inr no_ssl ↦ (fails 0, rw no_ssl refl, (inr (rw no_ssl refl), inl refl))
  | inl ssl ↦ elim (Bool-cases c.accept_ok) [
    | inr refused ↦ (fails 1, rw (ssl, refused) refl, (inr (rw ssl refl), inl refl))
    | inl accepts ↦ elim (Bool-cases ok) [
      | inr not_ok ↦
          (fails 1, rw (checked, ssl, accepts, not_ok) refl, (inr (rw ssl refl), inl refl))
      | inl is ↦
          let t = talked es in
          let (l, runs, sent, freed) = leaves-done t.shown t.sent t.next (talked-IsSafe es) in
          (
            l,
            rw (checked, ssl, accepts, is, talk_loop-talked buf es size h) runs,
            (rw ssl freed, inr (sent, check_peer-IsTrusted host checks c (checked ∙ ap done is))),
          )
    ]
  ]
]
