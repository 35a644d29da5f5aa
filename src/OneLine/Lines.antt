-- ===== src/OneLine/Lines.antt =====
-- Each line gets its reply, whatever its length.
use network_program.Prelude.{
  ℕ, suc, ◌+◌, ◌≤◌, ◌≡◌, refl, ap, ◌∙◌, Bool, true, none, some, List, [], ◌∷◌, ◌++◌, map, arith,
  ne→==, length, get_elem?, take, drop, All, length-snoc, Run, done, count,
}
use mathlib.Core.Path.{ap₂}
use network_program.CString.Text.{
  NonNul, NonNul-append, before_crlf, NonNul-before_crlf, length-before_crlf, cut_rest,
  cut_line_lem, text-append_nul,
}
use network_program.Echo.{ok_suffix, over}
use network_program.OneLine.{
  Recv1, closed, Line, Grow, Allocator, alloc_size, alloc_limit, Reply2, round, grow_loop, fresh,
  recv_one_line_2,
}
use network_program.OneLine.Chunk.{bytes, NoNewline}
use network_program.OneLine.Fixed.{recv_one_line_1-cut}
use network_program.OneLine.Stored.{IsGenerous}
use network_program.OneLine.Grown.{recv_one_line_2-Whole}
use network_program.OneLine.Replies.{reply_to_line, split_nul}
use network_program.OneLine.Variable.{make_reply_2, answer_line_2, on_line_2, send_recv_loop_2}

-- A line without its newline, as a client may send it.
pub record IsLine (body : List ℕ) : Type 0 where
  pub no_newline : NoNewline body
  pub non_nul : NonNul body
  pub fits : suc (length body) + alloc_size ≤ alloc_limit

-- The lines one behind the other.
abbrev pub join_lines : List (List ℕ) → List ℕ
join_lines [] = []
join_lines (body ∷ lines) = body ++ b'\n' ∷ join_lines lines

abbrev with_newline : List ℕ → List ℕ
with_newline body = body ++ b'\n' ∷ []

make_reply_2_lem :
    (grants : Allocator) (cells got : List ℕ)
    → IsGenerous grants
    → NonNul got
    → length got + 6 ≤ alloc_limit
    → take (length got) cells ≡ got
    → get_elem? cells (length got) ≡ some 0
    → make_reply_2 grants cells ≡ done (some (reply_to_line got))
unfolding make_reply_2
make_reply_2_lem grants cells got generous nn short e n =
    let junk = drop (suc (length got)) cells in
    ap (make_reply_2 grants) (split_nul cells got e n)
    ∙ rw (
      cut_line_lem got junk nn,
      text-append_nul (before_crlf got) (cut_rest got junk) (NonNul-before_crlf got nn),
      make_reply_2,
      generous (length (before_crlf got) + length ok_suffix + 1)
          (omega (arith, length-before_crlf got)),
    )

module _ (grants : Allocator) (generous : IsGenerous grants) (garbage : List ℕ)
    (same : length garbage ≡ alloc_size) where
  round_eof :
      (l : Line) (go : Grow → Run Reply2)
      → l.rv ≡ count 0
      → round grants fresh l go ≡ done (record { rv = count 0; ret_buf = none; rest = l.rest })
  unfolding round
  round_eof l go e = rw (e, round) refl

  nothing_left :
      (es : List Recv1)
      → (r : Reply2) × (recv_one_line_2 grants garbage (closed ∷ es) ≡ done r)
        × (r.rv ≡ count 0)
        × (r.ret_buf ≡ none)
  unfolding recv_one_line_2 grow_loop
  nothing_left es =
      let (l, runs, reads) =
        (recv_one_line_1-cut alloc_size garbage same (omega arith) (omega arith) [] es refl).0 in
      (
        record { rv = count 0; ret_buf = none; rest = l.rest },
        rw runs (round_eof l _ reads.rv_is),
        refl,
        refl,
      )

  module _ (send_ok : List ℕ → Bool) (all_ok : (reply : List ℕ) → send_ok reply ≡ true) where
    -- A client that sends lines, each with its newline, and then closes the connection gets one reply
    -- for each line while the allocator grants what stays within 1 MiB and every `send` succeeds: the
    -- line up to its first CR, and ":OK" with CR LF. The lines have no NUL in them and at most 1 MiB
    -- less 1025 bytes. The dialogue ends with the connection, on as many passes as lines and one more.
    pub send_recv_loop_2-join_lines :
        (lines : List (List ℕ)) (es : List Recv1)
        → All IsLine lines
        → send_recv_loop_2 grants garbage send_ok
            (suc (length lines))
            (bytes (join_lines lines) ++ closed ∷ es)
          ≡ record { sent = map (λ body. reply_to_line (with_newline body)) lines; ending = over }
    unfolding send_recv_loop_2 answer_line_2
    send_recv_loop_2-join_lines [] es each =
        let (r, runs, rv_is, buf_is) = nothing_left es in
        ap
          (λ k. on_line_2 grants k send_ok (λ rest. send_recv_loop_2 grants garbage send_ok 0 rest))
          runs
        ∙ ap₂
            (λ rv b.
              answer_line_2 grants rv b send_ok (send_recv_loop_2 grants garbage send_ok 0 r.rest))
            rv_is buf_is
    send_recv_loop_2-join_lines (body ∷ lines) es each =
        let fuel = suc (length lines) in
        let go = λ (rest : List Recv1). send_recv_loop_2 grants garbage send_ok fuel rest in
        let (r, runs, rv_is, holds, left) =
          recv_one_line_2-Whole grants generous body (join_lines lines) (closed ∷ es) garbage
            each.0.no_newline same each.0.fits in
        let got = with_newline body in
        let n : length got ≡ suc (length body) = length-snoc body b'\n' in
        ap (λ k. on_line_2 grants k send_ok go) runs
        ∙ ap₂ (λ rv b. answer_line_2 grants rv b send_ok (go r.rest)) rv_is holds.buf_is
        ∙ ap
            (λ rest. answer_line_2 grants (count (length got)) (some holds.cells) send_ok (go rest))
            left
        ∙ ap (answer_line_2 grants (count (length got)) (some holds.cells) send_ok)
            (send_recv_loop_2-join_lines lines es each.1)
        ∙ rw (
          ne→== (length got) 0 (omega (arith, n)),
          make_reply_2_lem grants holds.cells got generous
              (NonNul-append body (b'\n' ∷ []) each.0.non_nul (omega arith))
              (omega (arith, n, each.0.fits)) holds.stored holds.nul,
          all_ok (reply_to_line got),
        )
