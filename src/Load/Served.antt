-- ===== src/Load/Served.antt =====
-- The load client of chapter05/testclient.c with the echo servers at the other end.
use network_program.Prelude.{
  ℕ, zero, suc, ◌+◌, ◌-◌, ◌≤◌, ◌<◌, ◌≡◌, refl, ap, ◌∙◌, inr, true, some, List, [], ◌∷◌, ◌++◌, map,
  arith, lt→ltb, ge→ltb, eq→==, ne→==, length, All, length-append, length-take, done, count,
}
use mathlib.Core.Path.{subst}
use network_program.CString.{text}
use network_program.CString.Text.{NonNul, NonNul-text, before_crlf}
use network_program.Http.{equal_text}
use network_program.Http.Number.{decimal}
use network_program.Http.Read.Fields.{text-NonNul}
use network_program.Echo.{buf_size, ok_suffix, Round}
use network_program.Echo as Echo
use network_program.Echo.Reply.{reply_to, make_reply_lem, Fits, dialogue, send_recv_loop-dialogue}
use network_program.Udp.Arrays.{write-receive_into}
use network_program.Load.{send_count, numbered, Exchange, exchange, waiting, succeeded, load_loop}

-- What the server gets for `k` lines behind the first `n`, each in one piece.
abbrev pub rounds : List ℕ → ℕ → ℕ → List Round
rounds self n zero = []
rounds self n (suc k) =
    let line = numbered self (n + 1) in
    record { rv = count (length line); stored = line; send_ok = true } ∷ rounds self (n + 1) k

-- A reply as the client receives it, in one piece.
abbrev pub answered : List ℕ → Exchange
answered reply = record { send_ok = true; rv = count (length reply); stored = reply }

equal_text_refl : (s : List ℕ) → equal_text s s ≡ true
unfolding equal_text
equal_text_refl [] = refl
equal_text_refl (x ∷ s) = rw (eq→== x x refl, equal_text_refl s) refl

length-numbered :
    (self : List ℕ) (n : ℕ) → (0 < length (numbered self n)) × (length (numbered self n) < buf_size)
length-numbered self n =
    let rest = decimal n ++ (b'\n' ∷ []) in
    let all = length-append self (b':' ∷ rest) in
    let cut = length-take (buf_size - 1) (self ++ (b':' ∷ rest)) in
    (omega (arith, all, cut), omega (arith, all, cut))

length-reply_to :
    (line : List ℕ) → (0 < length (reply_to line)) × (length (reply_to line) < buf_size)
length-reply_to line =
    let all = length-append (before_crlf (text line)) ok_suffix in
    let cut = length-take (buf_size - 1) (before_crlf (text line) ++ ok_suffix) in
    (omega (arith, all, cut), omega (arith, all, cut))

exchange-reply_to :
    (line buf rbuf : List ℕ)
    → length line < buf_size
    → length buf ≡ buf_size
    → length rbuf ≡ buf_size
    → (b : List ℕ) × (r : List ℕ) × (exchange line buf rbuf (answered (reply_to line))
        ≡ done (some (b, r)))
      × (length b ≡ buf_size)
      × (length r ≡ buf_size)
unfolding exchange
exchange-reply_to line buf rbuf lt size rsize =
    let reply = reply_to line in
    let (expected, makes, is, size') = make_reply_lem buf line size lt in
    let (pos, short) = length-reply_to line in
    let (got, stores, same, rsize') = write-receive_into rbuf reply rsize short in
    let whole : text reply ≡ reply = text-NonNul reply (subst NonNul is (NonNul-text expected)) in
    (
      expected,
      got,
      rw
          (
            ne→== (length reply) 0 (omega arith),
            stores,
            makes,
            is,
            same,
            whole,
            equal_text_refl reply,
          )
          refl,
      size',
      rsize',
    )

rounds-Fits : (self : List ℕ) (n k : ℕ) → All Fits (rounds self n k)
rounds-Fits self n zero = tt
rounds-Fits self n (suc k) =
    (inr (refl, (length-numbered self (n + 1)).1), rounds-Fits self (n + 1) k)

-- The replies to the `k` lines behind the first `n`.
abbrev pub replies : List ℕ → ℕ → ℕ → List (List ℕ)
replies self n zero = []
replies self n (suc k) = reply_to (numbered self (n + 1)) ∷ replies self (n + 1) k

dialogue-rounds : (self : List ℕ) (n k : ℕ) → (dialogue (rounds self n k)).sent ≡ replies self n k
unfolding dialogue
dialogue-rounds self n zero = refl
dialogue-rounds self n (suc k) =
    let (pos, lt) = length-numbered self (n + 1) in
    rw (ne→== (length (numbered self (n + 1))) 0 (omega arith), dialogue-rounds self (n + 1) k) refl

load_loop-waits :
    (self : List ℕ) (n k : ℕ) (buf rbuf : List ℕ)
    → length buf ≡ buf_size
    → length rbuf ≡ buf_size
    → n + k ≤ send_count
    → load_loop self n buf rbuf (map answered (replies self n k)) ≡ done waiting
unfolding load_loop
load_loop-waits self n zero buf rbuf size rsize few = refl
load_loop-waits self n (suc k) buf rbuf size rsize few =
    let line = numbered self (n + 1) in
    let (b, r, runs, size', rsize') =
      exchange-reply_to line buf rbuf (length-numbered self (n + 1)).1 size rsize in
    rw (runs, ge→ltb send_count (n + 1) (omega arith))
      (load_loop-waits self (n + 1) k b r size' rsize' (omega arith))

load_loop-replies :
    (self : List ℕ) (n k : ℕ) (buf rbuf : List ℕ)
    → length buf ≡ buf_size
    → length rbuf ≡ buf_size
    → n + k ≡ send_count
    → load_loop self n buf rbuf (map answered (replies self n (suc k))) ≡ done succeeded
unfolding load_loop
load_loop-replies self n zero buf rbuf size rsize last =
    let line = numbered self (n + 1) in
    let (b, r, runs, _, _) =
      exchange-reply_to line buf rbuf (length-numbered self (n + 1)).1 size rsize in
    rw (runs, lt→ltb send_count (n + 1) (omega arith)) refl
load_loop-replies self n (suc k) buf rbuf size rsize last =
    let line = numbered self (n + 1) in
    let (b, r, runs, size', rsize') =
      exchange-reply_to line buf rbuf (length-numbered self (n + 1)).1 size rsize in
    rw (runs, ge→ltb send_count (n + 1) (omega arith))
      (load_loop-replies self (n + 1) k b r size' rsize' (omega arith))

-- The load client and an echo server agree: where the client's 51 lines, however its thread number is
-- printed, reach the server each in one piece, the server sends for each the line's text up to its
-- first CR or LF, followed by ":OK" and CR LF, in at most 511 bytes; and where these replies reach the
-- client each in one piece, the client finds every one to be the expected one, writes nothing outside
-- of its arrays, and returns 0 behind the 51st. While it has got at most 50 of them it waits for the
-- next.
pub load_loop-send_recv_loop :
    (self buf rbuf sbuf : List ℕ) (k : ℕ)
    → length buf ≡ buf_size
    → length rbuf ≡ buf_size
    → length sbuf ≡ buf_size
    → k ≤ send_count
    → ((Echo.send_recv_loop sbuf (rounds self 0 (send_count + 1))).sent
        ≡ replies self 0 (send_count + 1))
      × (load_loop self 0 buf rbuf
            (map answered (Echo.send_recv_loop sbuf (rounds self 0 (send_count + 1))).sent)
          ≡ done succeeded)
      × (load_loop self 0 buf rbuf (map answered (replies self 0 k)) ≡ done waiting)
load_loop-send_recv_loop self buf rbuf sbuf k size rsize ssize few =
    let n = send_count + 1 in
    let sent : (Echo.send_recv_loop sbuf (rounds self 0 n)).sent ≡ replies self 0 n =
      ap (λ d. d.sent) (send_recv_loop-dialogue sbuf (rounds self 0 n) ssize (rounds-Fits self 0 n))
      ∙ dialogue-rounds self 0 n in
    (
      sent,
      rw sent (load_loop-replies self 0 send_count buf rbuf size rsize (omega arith)),
      load_loop-waits self 0 k buf rbuf size rsize (omega arith),
    )
