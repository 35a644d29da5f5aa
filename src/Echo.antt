-- ===== src/Echo.antt =====
-- The echo dialogue of the servers: `send_recv_loop` of chapter06/timeout.c (the same text stands in
-- the servers of chapters 03 and 05). What is received is cut at the end of its line, ":OK\r\n" is
-- appended, and the result is sent back.
pub mod Reply
use network_program.Prelude.{
  ℕ, ◌+◌, Bool, List, [], ◌∷◌, ◌++◌, ◌==◌, if◌then◌else◌, length, drop, Run, done, blocked, fault,
  ◌>>=◌, write, Ret, minus_one, count,
}
use network_program.CString.{text, mystrlcat, cut_line}

-- `char buf[512]`
abbrev pub buf_size : ℕ
buf_size = 512

-- ":OK\r\n"
abbrev pub ok_suffix : List ℕ
ok_suffix = b':' ∷ b'O' ∷ b'K' ∷ b'\r' ∷ b'\n' ∷ []

-- `buf[len] = '\0'`, the cut at CR or LF, and `mystrlcat(buf, ":OK\r\n", sizeof(buf))`.
unfoldable pub make_reply : List ℕ → ℕ → Run (List ℕ)
unfolding cut_line mystrlcat
make_reply buf len = write buf len 0 >>= λ ended.
    cut_line ended >>= λ line. mystrlcat line ok_suffix buf_size >>= λ (joined, _). done joined

-- One pass: what the receive gives, with the bytes that it stores at the front of `buf`, and whether
-- `send` succeeds.
pub record Round : Type 0 where
  pub rv : Ret
  pub stored : List ℕ
  pub send_ok : Bool

-- How a dialogue stands: waiting for the next pass, over, or stopped by a write outside of `buf`.
pub data Ending : Type 0 where
  waiting over overrun : Ending

pub record Dialogue : Type 0 where
  pub sent : List (List ℕ)
  pub ending : Ending

abbrev pub ends_by : Ending → Dialogue
ends_by e = record { sent = []; ending = e }

-- `send(acc, buf, strlen(buf), 0)`; a failed `send` ends the loop.
abbrev pub after_reply : Run (List ℕ) → Bool → (List ℕ → Dialogue) → Dialogue
after_reply fault ok rest = ends_by overrun
after_reply blocked ok rest = ends_by waiting
after_reply (done buf) ok rest =
    if ok
    then record (rest buf) { sent = text buf ∷ (rest buf).sent }
    else record { sent = text buf ∷ []; ending = over }

-- `recv` stores its bytes at the front of `buf`.
abbrev pub receive_into : List ℕ → List ℕ → List ℕ
receive_into buf bs = bs ++ drop (length bs) buf

unfoldable pub send_recv_loop : List ℕ → List Round → Dialogue
unfolding make_reply
send_recv_loop buf [] = ends_by waiting
send_recv_loop buf (r ∷ rs) =
    let go = λ (b : List ℕ). send_recv_loop b rs in
    elim r.rv [
      | minus_one ↦ ends_by over
      | count len ↦
          if len == 0
          then ends_by over
          else after_reply (make_reply (receive_into buf r.stored) len) r.send_ok go
    ]
