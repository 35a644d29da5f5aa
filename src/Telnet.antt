-- ===== src/Telnet.antt =====
-- The telnet clients: `recv_data`, `recv_loop` and `send_thread` of chapter05/telnet5.c,
-- `send_recv_loop` of chapter05/telnet1.c, which calls the same `recv_data`, and `send_recv_loop` of
-- chapter05/telnet3.c, which calls it on a socket that does not block. What the n-th `send` gives is a
-- function.
pub mod Items
pub mod Waits
pub mod Nonblocking
use network_program.Prelude.{
  ℕ, zero, suc, ◌+◌, ◌-◌, ◌*◌, ◌/◌, ◌%◌, ◌^◌, ◌≤◌, ◌<◌, min, ◌≡◌, refl, sym, ap, ◌∙◌, ◌≢◌, ◌↔◌, ◌⊎◌,
  inl, inr, Bool, true, false, not, ◌&&◌, ◌||◌, Option, none, some, List, [], ◌∷◌, ◌++◌, map,
  append_assoc, append-nil, arith, ltb, leb, ◌==◌, if◌then◌else◌, ltb→lt, lt→ltb, ltb→ge, ge→ltb,
  ==→eq, eq→==, ==→ne, ne→==, tests, Bool-cases, Option-cases, length, get_elem?, set, take, drop,
  replicate, All, length-append, length-snoc, length-set, length-take, length-drop,
  length-replicate, take-append-drop, take-append, drop-append, take-append_ge, drop-append_ge,
  take-append_le, drop-append_le, take-take, set-append, All-snoc, All-append, map-snoc,
  get_elem?-append, get_elem?-take, take-store, take-set, take-set_ge, take-nil, drop-nil,
  get_elem?-set_self, get_elem?-set_ne, get_elem?-lt, Run, done, blocked, fault, ◌>>=◌, write,
  write-lt, write-ge, Ret, minus_one, count, Errno, eintr, eagain, other,
}

-- What `recv` of one byte gives.
pub data Recv : Type 0 where
  byte : ℕ → Recv
  at_end : Recv
  failed : Errno → Recv

-- What the n-th `send` gives: none if it succeeds.
abbrev pub Sends : Type 0
Sends = ℕ → Option Errno

abbrev pub iac : ℕ
iac = 255

abbrev pub wont : ℕ
wont = 252

-- The screen, what was given to `send`, and `errno`.
pub record Client : Type 0 where
  pub screen : List ℕ
  pub sent : List (List ℕ)
  pub errno : Errno

-- `recv(g_soc, &c, 1, 0)`: what it returns, `c`, and what comes next. With nothing left it waits.
abbrev pub recv : ℕ → List Recv → Run (Ret × ℕ × List Recv)
recv c [] = blocked
recv c (byte b ∷ rs) = done (count 1, b, rs)
recv c (at_end ∷ rs) = done (count 0, c, rs)
recv c (failed e ∷ rs) = done (minus_one, c, rs)

-- A failed call sets `errno`, and no other does.
abbrev pub errno_of : Errno → List Recv → Errno
errno_of e (failed e' ∷ rs) = e'
errno_of e rs = e

-- `send` of some bytes.
abbrev pub send : Sends → List ℕ → Client → Bool × Client
send ok bs t =
    let t' = record t { sent = t.sent ++ bs ∷ [] } in
    elim (ok (length t.sent)) [ none ↦ (true, t') | some e ↦ (false, record t' { errno = e }) ]

abbrev pub is_minus_one : Ret → Bool
is_minus_one minus_one = true
is_minus_one (count n) = false

abbrev pub not_positive : Ret → Bool
not_positive minus_one = true
not_positive (count n) = n == 0

-- `recv`, with `errno`.
unfoldable pub recv_next : ℕ → Client → List Recv → Run (Ret × ℕ × Client × List Recv)
recv_next c t rs =
    recv c rs >>= λ (r, c', rs'). done (r, c', record t { errno = errno_of t.errno rs }, rs')

-- `snprintf(buf, sizeof(buf), "%c%c%c", IAC, WONT, c); send(g_soc, buf, 3, 0)`
abbrev pub refuse : Sends → ℕ → Client → List Recv → Run (Bool × Client × List Recv)
refuse ok c t rs = let (go, t') = send ok (iac ∷ wont ∷ c ∷ []) t in done (go, t', rs)

-- Whether it returns 0. The first `recv` stores into a `c` that is not looked at unless it is stored.
unfoldable pub recv_data : Sends → Client → List Recv → Run (Bool × Client × List Recv)
unfolding recv_next
recv_data ok t rs = recv_next 0 t rs >>= λ (r, c, t', rs').
    (if not_positive r
      then done (false, t', rs')
      else if c == iac
      then (recv_next c t' rs' >>= λ (r', c', t'', rs'').
          (if is_minus_one r'
            then done (false, t'', rs'')
            else (recv_next c' t'' rs'' >>= λ (r'', c'', t''', rs''').
                (if is_minus_one r''
                  then done (false, t''', rs''')
                  else refuse ok c'' t''' rs'''))))
      else done (true, record t' { screen = t'.screen ++ c ∷ [] }, rs'))

-- The loop of telnet5.c over `recv_data`, which ends where that returns -1. Each pass takes at least one
-- result of `recv`; the fuel counts the passes.
unfoldable pub recv_loop : ℕ → Sends → Client → List Recv → Run (Client × List Recv)
unfolding recv_data
recv_loop zero ok t rs = blocked
recv_loop (suc fuel) ok t rs =
    let rest = λ (t' : Client) (rs' : List Recv). recv_loop fuel ok t' rs' in
    recv_data ok t rs >>= λ (go, t', rs'). (if go then rest t' rs' else done (t', rs'))

-- `c = getchar()` as the byte that is sent: EOF is -1.
abbrev pub key_byte : Option ℕ → ℕ
key_byte none = 255
key_byte (some k) = k

abbrev pub send_key : Sends → Option ℕ → Client → Bool × Client
send_key ok key t = send ok (key_byte key ∷ []) t

-- The thread of telnet5.c that sends: in each pass `g_end`, and what `getchar` gives.
unfoldable pub send_thread : Sends → Client → List (Bool × Option ℕ) → Client
send_thread ok t [] = t
send_thread ok t ((g_end, key) ∷ keys) =
    let (go, t') = send_key ok key t in
    let rest = send_thread ok t' keys in if g_end then t else if go then rest else t'

-- What `select` gives: an error, a timeout, or whether the socket is ready, and a key if one was typed.
pub data Wait : Type 0 where
  wait_failed : Errno → Wait
  timed_out : Wait
  ready : Bool → Option (Option ℕ) → Wait

abbrev pub is_eintr : Errno → Bool
is_eintr eintr = true
is_eintr eagain = false
is_eintr other = false

-- Whether `g_end` is still 0 behind the part of a pass that looks at the keyboard.
abbrev pub on_keyboard : Sends → Option (Option ℕ) → Client → Bool × Client
on_keyboard ok none t = (true, t)
on_keyboard ok (some key) t = send_key ok key t

-- What a pass of telnet1.c does, and whether it leaves `g_end` at 0.
unfoldable pub serve_wait : Sends → Client → List Recv → Wait → Run (Bool × Client × List Recv)
unfolding recv_data
serve_wait ok t rs (wait_failed e) = done (is_eintr e, t, rs)
serve_wait ok t rs timed_out = done (true, t, rs)
serve_wait ok t rs (ready socket key) =
    (if socket then recv_data ok t rs else done (true, t, rs)) >>= λ (go, t', rs').
    (if go
      then (let (go', t'') = on_keyboard ok key t' in done (go', t'', rs'))
      else done (false, t', rs'))

-- A pass with `if (g_end)` at its end. `signalled` says whether `sig_term_handler` has run by then, for
-- one of the four signals that are caught, and set `g_end`.
unfoldable pub on_wait : Sends → Client → List Recv → Wait × Bool → Run (Bool × Client × List Recv)
unfolding serve_wait
on_wait ok t rs (w, signalled) =
    serve_wait ok t rs w >>= λ (go, t', rs'). done (go && not signalled, t', rs')

-- The loop of telnet1.c as far as the waits given: whether it goes on, and what is left to receive.
unfoldable pub send_recv_loop :
    Sends → Client → List Recv → List (Wait × Bool) → Run (Bool × Client × List Recv)
unfolding on_wait
send_recv_loop ok t rs [] = done (true, t, rs)
send_recv_loop ok t rs (w ∷ ws) =
    let rest = λ (t' : Client) (rs' : List Recv). send_recv_loop ok t' rs' ws in
    on_wait ok t rs w >>= λ (go, t', rs'). (if go then rest t' rs' else done (false, t', rs'))

abbrev pub is_eagain : Errno → Bool
is_eagain eagain = true
is_eagain eintr = false
is_eagain other = false

-- One pass of telnet3.c: the socket first, then the keyboard, which gives `none` for no key, for EOF, and
-- for the byte 255, which is the same `char`.
unfoldable pub on_pass : Sends → Client → List Recv → Option ℕ → Run (Bool × Client × List Recv)
unfolding recv_data
on_pass ok t rs key = recv_data ok t rs >>= λ (got, t', rs').
    (if got || is_eagain t'.errno
      then elim key [
        | none ↦ done (true, t', rs')
        | some k ↦
            let (go, t'') = send_key ok (some k) t' in done (go || is_eagain t''.errno, t'', rs')
      ]
      else done (false, t', rs'))

-- The loop of telnet3.c as far as the keys given.
unfoldable pub nonblocking_loop :
    Sends → Client → List Recv → List (Option ℕ) → Run (Bool × Client × List Recv)
unfolding on_pass
nonblocking_loop ok t rs [] = done (true, t, rs)
nonblocking_loop ok t rs (key ∷ keys) =
    let rest = λ (t' : Client) (rs' : List Recv). nonblocking_loop ok t' rs' keys in
    on_pass ok t rs key >>= λ (go, t', rs'). (if go then rest t' rs' else done (false, t', rs'))
