-- ===== src/Udp/Replies.antt =====
-- The answers of `send_recv_loop` of chapter09/u-server.c.
use network_program.Prelude.{
  ℕ, ◌<◌, ◌≡◌, refl, List, [], ◌∷◌, if◌then◌else◌, length, All, minus_one, count,
}
use network_program.Echo.{buf_size, waiting, over, overrun}
use network_program.Echo.Reply.{reply_to, make_reply_lem}
use network_program.Udp.{Datagram, Answers, ends_by, answer_loop}

-- The answers by the replies alone, each to the sender of the datagram.
unfoldable pub answers : List Datagram → Answers
answers [] = ends_by waiting
answers (d ∷ ds) =
    let rest = answers ds in
    if d.send_ok
    then record rest { sent = (d.from, reply_to d.stored) ∷ rest.sent }
    else ends_by over

-- A datagram of fewer bytes than the array holds.
abbrev pub Fits : Datagram → Type 0
Fits d = (d.rv ≡ count (length d.stored)) × (length d.stored < buf_size)

-- While each `recvfrom` succeeds and stores fewer than 512 bytes, the server never writes outside of its
-- array, and sends to each sender in turn the reply to his datagram: its text up to the first CR or LF,
-- followed by ":OK" and CR LF, in at most 511 bytes; an empty datagram is answered too. The loop is over
-- at the first failed `sendto`, and not before.
pub answer_loop-answers :
    (buf : List ℕ) (ds : List Datagram)
    → length buf ≡ buf_size
    → All Fits ds
    → answer_loop buf ds ≡ answers ds
unfolding answer_loop answers
answer_loop-answers buf [] size h = refl
answer_loop-answers buf (d ∷ ds) size ((len, lt), h) =
    let (buf', runs, sent, size') = make_reply_lem buf d.stored size lt in
    rw (len, runs, sent, answer_loop-answers buf' ds size' h)

-- A failed `recvfrom` makes the server write in front of its array.
pub answer_loop_failed :
    (buf : List ℕ) (d : Datagram) (ds : List Datagram)
    → d.rv ≡ minus_one
    → (answer_loop buf (d ∷ ds)).ending ≡ overrun
unfolding answer_loop
answer_loop_failed buf d ds failed = rw failed
