-- ===== src/Chat.antt =====
-- The dialogue of the TCP clients between keyboard and server: `send_recv_loop` of
-- chapter04/client-timeout.c (chapter01/client.c has the same text), and the one of
-- chapter11/ssl-client.c, which tells the two ways apart in which it ends.
pub mod Talk
use network_program.Prelude.{
  ℕ, ◌+◌, Option, none, some, List, [], ◌∷◌, ◌++◌, ◌==◌, if◌then◌else◌, Run, done, blocked, fault,
  write, minus_one, count,
}
use network_program.CString.{text}
use network_program.Echo.{receive_into}
use network_program.Udp.{Arrival, Key, Event, quiet, ready}

-- How the loop ends: not yet, with `end` set to 1 or 2 (the former for an error, the latter for an end of
-- file), or by a write outside of `buf`. chapter04/client-timeout.c has `end` at 1 in both cases.
pub data End : Type 0 where
  waiting on_error on_eof overrun : End

pub data Next : Type 0 where
  goes_on : List ℕ → Next
  stops : End → Next

pub record Talked : Type 0 where
  pub shown : List (List ℕ)
  pub sent : List (List ℕ)
  pub next : Next

abbrev pub stays : List ℕ → Talked
stays buf = record { shown = []; sent = []; next = goes_on buf }

abbrev pub ends : End → Talked
ends e = record { shown = []; sent = []; next = stops e }

abbrev pub shows : Run (List ℕ) → Talked
shows (done buf) = record { shown = text buf ∷ []; sent = []; next = goes_on buf }
shows blocked = ends waiting
shows fault = ends overrun

unfoldable pub on_socket : List ℕ → Option Arrival → Talked
on_socket buf none = stays buf
on_socket buf (some a) = elim a.rv [
  | minus_one ↦ ends on_error
  | count len ↦ if len == 0 then ends on_eof else shows (write (receive_into buf a.stored) len 0)
]

-- `fgets` stores the line and a NUL; what is sent is `buf` up to its NUL.
unfoldable pub on_keyboard : List ℕ → Option Key → Talked
on_keyboard buf none = stays buf
on_keyboard buf (some k) =
    let buf' = receive_into buf (k.line ++ 0 ∷ []) in
    if k.eof
    then ends on_eof
    else if k.send_ok
    then record { shown = []; sent = text buf' ∷ []; next = goes_on buf' }
    else ends on_error

abbrev pub followed_by : Talked → (List ℕ → Talked) → Talked
followed_by p rest = elim p.next [
  | goes_on buf ↦ record {
    shown = p.shown ++ (rest buf).shown;
    sent = p.sent ++ (rest buf).sent;
    next = (rest buf).next;
  }
  | stops e ↦ p
]

unfoldable pub pass : List ℕ → Event → Talked
unfolding on_socket on_keyboard
pass buf quiet = stays buf
pass buf (ready a k) = followed_by (on_socket buf a) (λ b. on_keyboard b k)

unfoldable pub talk_loop : List ℕ → List Event → Talked
unfolding pass
talk_loop buf [] = ends waiting
talk_loop buf (e ∷ es) = followed_by (pass buf e) (λ b. talk_loop b es)
