-- ===== src/Ssl/Guard.antt =====
-- Whom the server of chapter11/ssl-server.c serves, and what it leaves behind.
use network_program.Prelude.{
  ℕ, ◌≡◌, refl, sym, ap, ◌∙◌, ◌≢◌, ◌⊎◌, inl, inr, Bool, true, false, Option, none, some, List, [],
  ◌∷◌, ◌==◌, if◌then◌else◌, Bool-cases, length, All, Run, done, blocked, fault, ◌>>=◌, Ret,
  minus_one, count,
}
use network_program.Certificate.{
  Cert, Verdict, application_error, verify_result, post_connection_check,
}
use network_program.Certificate.Accepts.{HasAltName, IsCommonName, post_connection_check-Accepted}
use network_program.Echo.{Ending, buf_size, Round, waiting, over, overrun}
use network_program.Echo.Reply.{reply_to, Fits, dialogue, send_recv_loop-dialogue}
use network_program.Ssl.{
  client_fqdn, Calls, Served, fails, end_dialogue, is_ok, check_peer, send_recv_loop,
}

-- The certificate is there, OpenSSL has nothing against it, and it names the client in one of its ways.
abbrev pub IsTrusted : List ℕ → Option Cert → Bool → Type 0
IsTrusted host cert verify_ok =
    (held : Cert) × (cert ≡ some held)
    × (verify_ok ≡ true)
    × (HasAltName host held.extensions ⊎ IsCommonName host held.common_name)

is_ok-cases :
    (m : Run Verdict) (verify_ok : Bool)
    → (m >>= λ v. done (is_ok v verify_ok)) ≡ done true
    → (m ≡ done verify_result) × (verify_ok ≡ true)
is_ok-cases (done verify_result) true h = (refl, refl)
is_ok-cases (done verify_result) false h = absurd (cc)
is_ok-cases (done application_error) verify_ok h = absurd (cc)
is_ok-cases blocked verify_ok h = absurd (cc)
is_ok-cases fault verify_ok h = absurd (cc)

no_cert : (host : List ℕ) → post_connection_check (some host) none ≡ done application_error
unfolding post_connection_check
no_cert host = refl

check_cert-IsTrusted :
    (host : List ℕ) (cert : Option Cert) (verify_ok : Bool)
    → (post_connection_check (some host) cert >>= λ v. done (is_ok v verify_ok)) ≡ done true
    → IsTrusted host cert verify_ok
check_cert-IsTrusted host none verify_ok h =
    let (accepted, _) = is_ok-cases (post_connection_check (some host) none) verify_ok h in
    absurd (cc (sym (no_cert host) ∙ accepted))
check_cert-IsTrusted host (some cert) verify_ok h =
    let (accepted, ok) = is_ok-cases (post_connection_check (some host) (some cert)) verify_ok h in
    (cert, refl, ok, post_connection_check-Accepted host cert accepted)

pub check_peer-IsTrusted :
    (host : List ℕ) (checks : Bool) (c : Calls)
    → check_peer host checks c ≡ done true
    → (checks ≡ false) ⊎ IsTrusted host c.cert c.verify_ok
unfolding check_peer
check_peer-IsTrusted host false c h = inl refl
check_peer-IsTrusted host true c h = inr (check_cert-IsTrusted host c.cert c.verify_ok h)

-- SSL_free is called once behind a successful SSL_new; and what was sent are the replies of the dialogue,
-- to a client that is trusted where there is a check.
abbrev pub IsGuarded : Bool → Calls → List Round → Served → Type 0
IsGuarded checks c rs s =
    ((s.rv ≡ none) ⊎ (s.frees ≡ (if c.new_ok then 1 else 0)))
    × ((s.sent ≡ [])
        ⊎ ((s.sent ≡ (dialogue rs).sent)
            × ((checks ≡ false) ⊎ IsTrusted client_fqdn c.cert c.verify_ok)))

dialogue_ends-round :
    (rv : Ret) (stored : List ℕ) (send_ok : Bool) (rs : List Round)
    → (dialogue rs).ending ≢ overrun
    → let r : Round = record { rv = rv; stored = stored; send_ok = send_ok } in
      (dialogue (r ∷ rs)).ending ≢ overrun
unfolding dialogue
dialogue_ends-round minus_one stored send_ok rs ne = λ e. cc e
dialogue_ends-round (count len) stored send_ok rs ne = elim (Bool-cases (len == 0)) [
  | inl eof ↦ rw eof (λ e. cc e)
  | inr more ↦
      rw more
        (elim send_ok
          as (λ ok.
            (if ok
              then record (dialogue rs) { sent = reply_to stored ∷ (dialogue rs).sent }
              else record { sent = reply_to stored ∷ []; ending = over }).ending
            ≢ overrun) [ true ↦ ne | false ↦ λ e. cc e ])
]

dialogue_ends : (rs : List Round) → (dialogue rs).ending ≢ overrun
unfolding dialogue
dialogue_ends [] e = cc e
dialogue_ends (r ∷ rs) e = dialogue_ends-round r.rv r.stored r.send_ok rs (dialogue_ends rs) e

end_by :
    (received_shutdown : Bool) (sent : List (List ℕ)) (ending : Ending)
    → ending ≢ overrun
    → (s : Served) × (end_dialogue received_shutdown (record { sent = sent; ending = ending })
        ≡ done s)
      × (s.sent ≡ sent)
      × ((s.rv ≡ none) ⊎ (s.frees ≡ 1))
end_by received_shutdown sent waiting ne = (_, refl, refl, inl refl)
end_by received_shutdown sent over ne = (_, refl, refl, inr refl)
end_by received_shutdown sent overrun ne = absurd (ne refl)

-- Unless `post_connection_check` reads past the end of a string, `send_recv_loop` writes nothing outside of
-- its array while each SSL_read stores fewer than 512 bytes; where it returns, SSL_free has been called
-- once if SSL_new succeeded and else not at all; and if anything is sent, it is the replies of the
-- dialogue, and with CHECK_CLIENT_CERT the client has a certificate that OpenSSL accepts and that names
-- the client by a value of a subjectAltName or by its commonName, or has no commonName or an empty one.
pub send_recv_loop-IsGuarded :
    (checks : Bool) (c : Calls) (buf : List ℕ) (rs : List Round) (ok : Bool)
    → length buf ≡ buf_size
    → All Fits rs
    → check_peer client_fqdn checks c ≡ done ok
    → (s : Served) × (send_recv_loop checks c buf rs ≡ done s) × IsGuarded checks c rs s
unfolding send_recv_loop
send_recv_loop-IsGuarded checks c buf rs ok size h checked = elim (Bool-cases c.new_ok) [
  | inr no_ssl ↦ (fails 0, rw no_ssl refl, (inr (rw no_ssl refl), inl refl))
  | inl ssl ↦ elim (Bool-cases c.accept_ok) [
    | inr no_accept ↦ (fails 1, rw (ssl, no_accept) refl, (inr (rw ssl refl), inl refl))
    | inl accepts ↦ elim (Bool-cases ok) [
      | inr not_ok ↦
          (fails 1, rw (ssl, accepts, checked, not_ok) refl, (inr (rw ssl refl), inl refl))
      | inl is ↦
          let d = dialogue rs in
          let (s, runs, sent, freed) =
            end_by c.received_shutdown d.sent d.ending (dialogue_ends rs) in
          (
            s,
            rw (ssl, accepts, checked, is, send_recv_loop-dialogue buf rs size h) runs,
            (
              rw ssl freed,
              inr (sent, check_peer-IsTrusted client_fqdn checks c (checked ∙ ap done is)),
            ),
          )
    ]
  ]
]
