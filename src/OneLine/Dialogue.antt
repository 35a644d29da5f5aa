-- ===== src/OneLine/Dialogue.antt =====
-- The dialogue line by line with the fixed array (chapter06/oneline.c, `send_recv_loop_1`).
use network_program.Prelude.{
  ℕ, zero, suc, Bool, List, [], ◌∷◌, ◌++◌, ltb, ◌==◌, if◌then◌else◌, length, Run, done, blocked,
  fault, ◌>>=◌, Ret, minus_one, count,
}
use network_program.CString.{text, cut_line}
use network_program.Echo.{ok_suffix, Dialogue, waiting, over, overrun, ends_by}
use network_program.OneLine.{Recv1, Line, recv_one_line_1}

-- FIXED_BUFFER_SIZE
abbrev pub fixed_buffer_size : ℕ
fixed_buffer_size = 20

-- `snprintf(buf2, sizeof(buf2), "%s:OK\r\n", buf)` of the cut text. A text that does not fit would be cut,
-- and `send` would read behind `buf2`.
unfoldable pub make_reply_1 : List ℕ → Run (List ℕ)
unfolding cut_line
make_reply_1 buf = cut_line buf >>= λ cut.
    (let reply = text cut ++ ok_suffix in if ltb (length reply) 512 then done reply else fault)

abbrev pub sends : Run (List ℕ) → (List ℕ → Bool) → Dialogue → Dialogue
sends fault send_ok rest = ends_by overrun
sends blocked send_ok rest = ends_by waiting
sends (done reply) send_ok rest =
    if send_ok reply
    then record rest { sent = reply ∷ rest.sent }
    else record { sent = reply ∷ []; ending = over }

-- What the loop does with a line; `rest` is how it goes on.
unfoldable pub answer_line : Ret → List ℕ → (List ℕ → Bool) → Dialogue → Dialogue
unfolding make_reply_1
answer_line minus_one buf send_ok rest = ends_by over
answer_line (count len) buf send_ok rest =
    if len == 0 then ends_by over else sends (make_reply_1 buf) send_ok rest

abbrev pub on_line : Run Line → (List ℕ → Bool) → (Line → Dialogue) → Dialogue
on_line fault send_ok go = ends_by overrun
on_line blocked send_ok go = ends_by waiting
on_line (done l) send_ok go = answer_line l.rv l.buf send_ok (go l)

-- The loop on fuel.
unfoldable pub send_recv_loop_1 : ℕ → List Recv1 → (List ℕ → Bool) → List ℕ → Dialogue
unfolding answer_line recv_one_line_1
send_recv_loop_1 zero es send_ok buf = ends_by waiting
send_recv_loop_1 (suc fuel) es send_ok buf =
    on_line (recv_one_line_1 fixed_buffer_size es buf) send_ok
      λ l. send_recv_loop_1 fuel l.rest send_ok l.buf
