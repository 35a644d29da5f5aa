-- ===== src/OneLine/Variable.antt =====
-- The dialogue line by line with the growing array (chapter06/oneline.c, `send_recv_loop_2`).
use network_program.Prelude.{
  ℕ, zero, suc, ◌+◌, Bool, Option, none, some, List, ◌++◌, ◌==◌, if◌then◌else◌, length, Run, done,
  blocked, fault, ◌>>=◌, Ret, minus_one, count,
}
use network_program.CString.{text, cut_line}
use network_program.Echo.{ok_suffix, Dialogue, waiting, over, overrun, ends_by}
use network_program.OneLine.{Recv1, Allocator, Reply2, recv_one_line_2}
use network_program.OneLine.Dialogue.{sends}

-- `buf2`: none where `malloc` fails.
unfoldable pub make_reply_2 : Allocator → List ℕ → Run (Option (List ℕ))
unfolding cut_line
make_reply_2 grants buf = cut_line buf >>= λ cut.
    (let alloc_len = length (text cut) + length ok_suffix + 1 in
      if grants alloc_len then done (some (text cut ++ ok_suffix)) else done none)

abbrev pub after_malloc : Run (Option (List ℕ)) → (List ℕ → Bool) → Dialogue → Dialogue
after_malloc fault send_ok rest = ends_by overrun
after_malloc blocked send_ok rest = ends_by waiting
after_malloc (done none) send_ok rest = ends_by over
after_malloc (done (some reply)) send_ok rest = sends (done reply) send_ok rest

-- What the loop does with a line; a count without a buffer would be read through NULL.
unfoldable pub answer_line_2 :
    Allocator → Ret → Option (List ℕ) → (List ℕ → Bool) → Dialogue → Dialogue
unfolding make_reply_2
answer_line_2 grants minus_one buf send_ok rest = ends_by over
answer_line_2 grants (count len) none send_ok rest =
    if len == 0 then ends_by over else ends_by overrun
answer_line_2 grants (count len) (some buf) send_ok rest =
    if len == 0 then ends_by over else after_malloc (make_reply_2 grants buf) send_ok rest

abbrev pub on_line_2 : Allocator → Run Reply2 → (List ℕ → Bool) → (List Recv1 → Dialogue) → Dialogue
on_line_2 grants fault send_ok go = ends_by overrun
on_line_2 grants blocked send_ok go = ends_by waiting
on_line_2 grants (done r) send_ok go = answer_line_2 grants r.rv r.ret_buf send_ok (go r.rest)

-- The loop on fuel. `garbage` is what the local array of `recv_one_line_2` holds when it is called.
unfoldable pub send_recv_loop_2 : Allocator → List ℕ → (List ℕ → Bool) → ℕ → List Recv1 → Dialogue
unfolding answer_line_2 recv_one_line_2
send_recv_loop_2 grants garbage send_ok zero es = ends_by waiting
send_recv_loop_2 grants garbage send_ok (suc fuel) es =
    on_line_2 grants (recv_one_line_2 grants garbage es) send_ok
      λ rest. send_recv_loop_2 grants garbage send_ok fuel rest
