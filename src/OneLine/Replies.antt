-- ===== src/OneLine/Replies.antt =====
-- What a client gets for the lines that it sends.
use network_program.Prelude.{
  ℕ, zero, suc, ◌-◌, ◌≤◌, ◌<◌, ◌≡◌, refl, sym, ap, ◌∙◌, inl, inr, Bool, true, false, some, List, [],
  ◌∷◌, ◌++◌, map, arith, ltb, ◌==◌, lt→ltb, ne→==, Bool-cases, length, get_elem?, take, drop,
  length-append, length-drop, done, count,
}
use mathlib.Core.Path.{ap₂, subst}
use network_program.CString.Text.{
  NonNul, before_crlf, NonNul-before_crlf, length-before_crlf, cut_rest, cut_line_lem,
  text-append_nul,
}
use network_program.Echo.{ok_suffix, over}
use network_program.OneLine.{Recv1, closed, recv_one_line_1}
use network_program.OneLine.Chunk.{chunk, ends, bytes, length-chunk}
use network_program.OneLine.Fixed.{Gives, recv_one_line_1-line, recv_one_line_1-cut}
use network_program.OneLine.Dialogue.{
  fixed_buffer_size, make_reply_1, answer_line, on_line, send_recv_loop_1,
}

-- The input in lines of at most 19 bytes, on fuel.
unfoldable pub pieces : ℕ → List ℕ → List (List ℕ)
pieces zero l = []
pieces (suc fuel) [] = []
pieces (suc fuel) (c ∷ cs) =
    let piece = chunk (fixed_buffer_size - 1) (c ∷ cs) in
    piece ∷ pieces fuel (drop (length piece) (c ∷ cs))

-- The reply to a line: its text up to the first CR or LF, and the suffix.
abbrev pub reply_to_line : List ℕ → List ℕ
reply_to_line line = before_crlf line ++ ok_suffix

NonNul-chunk : (n : ℕ) (l : List ℕ) → NonNul l → NonNul (chunk n l)
NonNul-chunk zero l h = tt
NonNul-chunk (suc n) [] h = tt
NonNul-chunk (suc n) (c ∷ cs) h = elim (Bool-cases (c == b'\n')) [
  | inl nl ↦ rw nl (h.0, tt)
  | inr inside ↦ rw inside (h.0, NonNul-chunk n cs h.1)
]

-- An array that starts with `got` and a NUL.
pub split_nul :
    (cells got : List ℕ)
    → take (length got) cells ≡ got
    → get_elem? cells (length got) ≡ some 0
    → cells ≡ got ++ 0 ∷ drop (suc (length got)) cells
split_nul [] [] e n = cc
split_nul (x ∷ cells) [] e n = let z : x ≡ 0 = cc in ap (λ k. k ∷ cells) z
split_nul [] (g ∷ got) e n = cc
split_nul (x ∷ cells) (g ∷ got) e n =
    let here : x ≡ g = cc in
    let there : take (length got) cells ≡ got = cc in
    ap₂ (λ a b. a ∷ b) here (split_nul cells got there n)

make_reply_1_lem :
    (cells got : List ℕ)
    → NonNul got
    → length got ≤ 19
    → take (length got) cells ≡ got
    → get_elem? cells (length got) ≡ some 0
    → make_reply_1 cells ≡ done (reply_to_line got)
unfolding make_reply_1
make_reply_1_lem cells got nn short e n =
    let junk = drop (suc (length got)) cells in
    let fits : ltb (length (reply_to_line got)) 512 ≡ true =
      lt→ltb (length (reply_to_line got)) 512
        (omega (arith, length-append (before_crlf got) ok_suffix, length-before_crlf got)) in
    ap make_reply_1 (split_nul cells got e n)
    ∙ rw (
      cut_line_lem got junk nn,
      text-append_nul (before_crlf got) (cut_rest got junk) (NonNul-before_crlf got nn),
      make_reply_1,
      fits,
    )

pieces-nil : (fuel : ℕ) → pieces fuel [] ≡ []
unfolding pieces
pieces-nil zero = refl
pieces-nil (suc fuel) = refl

drop_all : (l : List ℕ) → drop (length l) l ≡ []
drop_all [] = refl
drop_all (c ∷ l) = drop_all l

chunk-pos : (c : ℕ) (cs : List ℕ) → 0 < length (chunk 19 (c ∷ cs))
chunk-pos c cs = ground arith

NonNul-drop : (n : ℕ) (l : List ℕ) → NonNul l → NonNul (drop n l)
NonNul-drop zero l h = h
NonNul-drop (suc n) [] h = h
NonNul-drop (suc n) (c ∷ l) h = NonNul-drop n l h.1

chunk_all : (n : ℕ) (l : List ℕ) → ends n l ≡ false → chunk n l ≡ l
chunk_all zero l e = cc
chunk_all (suc n) [] e = refl
chunk_all (suc n) (c ∷ cs) e = elim (Bool-cases (c == b'\n')) [
  | inl nl ↦ absurd (cc (rw nl at e))
  | inr inside ↦ rw inside (ap (λ k. c ∷ k) (chunk_all n cs (rw inside at e)))
]

module _ (send_ok : List ℕ → Bool) (all_ok : (reply : List ℕ) → send_ok reply ≡ true) where
  -- One pass of the loop, over a line that was received whole.
  line-answered :
      (fuel : ℕ) (es rest : List Recv1) (buf got : List ℕ) (d : List (List ℕ))
      → NonNul got
      → 0 < length got
      → length got ≤ 19
      → Gives
          (recv_one_line_1 fixed_buffer_size es buf)
          fixed_buffer_size
          (count (length got))
          got
          rest
      → ((buf' : List ℕ)
          → length buf' ≡ fixed_buffer_size
          → send_recv_loop_1 fuel rest send_ok buf' ≡ record { sent = d; ending = over })
      → send_recv_loop_1 (suc fuel) es send_ok buf
        ≡ record { sent = reply_to_line got ∷ d; ending = over }
  unfolding send_recv_loop_1 answer_line
  line-answered fuel es rest buf got d nn pos short (l, runs, reads) go =
      ap (λ r. on_line r send_ok (λ l'. send_recv_loop_1 fuel l'.rest send_ok l'.buf)) runs
      ∙ ap₂ (λ rv e. answer_line rv l.buf send_ok (send_recv_loop_1 fuel e send_ok l.buf))
          reads.rv_is reads.left
      ∙ ap (answer_line (count (length got)) l.buf send_ok) (go l.buf reads.same_size)
      ∙ rw (
        ne→== (length got) 0 (omega arith),
        make_reply_1_lem l.buf got nn short reads.stored reads.nul,
        all_ok (reply_to_line got),
      )

  at_end :
      (fuel : ℕ) (es : List Recv1) (buf : List ℕ)
      → length buf ≡ fixed_buffer_size
      → send_recv_loop_1 (suc fuel) (closed ∷ es) send_ok buf ≡ record { sent = []; ending = over }
  unfolding send_recv_loop_1 answer_line
  at_end fuel es buf same =
      let (l, runs, reads) =
        (recv_one_line_1-cut fixed_buffer_size buf same (omega arith) (omega arith) [] es refl).0 in
      ap (λ r. on_line r send_ok (λ l'. send_recv_loop_1 fuel l'.rest send_ok l'.buf)) runs
      ∙ ap (λ rv. answer_line rv l.buf send_ok (send_recv_loop_1 fuel l.rest send_ok l.buf))
          reads.rv_is

  at_end_pos :
      (fuel : ℕ) (es : List Recv1) (buf : List ℕ)
      → 0 < fuel
      → length buf ≡ fixed_buffer_size
      → send_recv_loop_1 fuel (closed ∷ es) send_ok buf ≡ record { sent = []; ending = over }
  at_end_pos zero es buf pos same = elim pos [ ]
  at_end_pos (suc fuel) es buf pos same = at_end fuel es buf same

  -- A client that sends bytes other than NUL and then closes the connection gets, while every `send`
  -- succeeds, one reply for each of its lines, where a line of more than 19 bytes counts as several of
  -- 19: the line up to its first CR or LF, and ":OK" with CR LF. The dialogue ends with the connection,
  -- within its fuel, and the loop writes nothing outside of its arrays.
  pub send_recv_loop_1-pieces :
      (fuel : ℕ) (l buf : List ℕ) (es : List Recv1)
      → length l < fuel
      → length buf ≡ fixed_buffer_size
      → NonNul l
      → send_recv_loop_1 fuel (bytes l ++ closed ∷ closed ∷ es) send_ok buf
        ≡ record { sent = map reply_to_line (pieces fuel l); ending = over }
  unfolding pieces
  send_recv_loop_1-pieces zero l buf es lt same nn = elim lt [ ]
  send_recv_loop_1-pieces (suc fuel) [] buf es lt same nn = at_end fuel (closed ∷ es) buf same
  send_recv_loop_1-pieces (suc fuel) (c ∷ cs) buf es lt same nn =
      let input = c ∷ cs in
      let piece = chunk 19 input in
      let rest = drop (length piece) input in
      let pos : 0 < length piece = chunk-pos c cs in
      let left : length rest < fuel = omega (arith, length-drop (length piece) input) in
      let next = λ (buf' : List ℕ) (same' : length buf' ≡ fixed_buffer_size).
        send_recv_loop_1-pieces fuel rest buf' es left same'
          (NonNul-drop (length piece) input nn) in
      elim (Bool-cases (ends 19 input)) [
        | inl ended ↦
            line-answered fuel (bytes input ++ closed ∷ closed ∷ es)
              (bytes rest ++ closed ∷ closed ∷ es) buf piece (map reply_to_line (pieces fuel rest))
              (NonNul-chunk 19 input nn) pos (length-chunk 19 input)
              (recv_one_line_1-line fixed_buffer_size buf same (omega arith) (omega arith) input
                (closed ∷ closed ∷ es) ended)
              next
        | inr open_line ↦
            let whole : piece ≡ input = chunk_all 19 input open_line in
            let nothing : rest ≡ [] = ap (λ k. drop (length k) input) whole ∙ drop_all input in
            let over_next = λ (buf' : List ℕ) (same' : length buf' ≡ fixed_buffer_size).
              at_end_pos fuel es buf' (omega arith) same'
              ∙ ap (λ k. record { sent = map reply_to_line k; ending = over })
                  (sym (ap (pieces fuel) nothing ∙ pieces-nil fuel)) in
            let read =
              (recv_one_line_1-cut fixed_buffer_size buf same (omega arith) (omega arith) input
                (closed ∷ es) open_line).0 in
            line-answered fuel (bytes input ++ closed ∷ closed ∷ es) (closed ∷ es) buf piece
              (map reply_to_line (pieces fuel rest)) (NonNul-chunk 19 input nn) pos
              (length-chunk 19 input)
              (subst
                (λ k.
                  Gives
                    (recv_one_line_1 fixed_buffer_size (bytes input ++ closed ∷ closed ∷ es) buf)
                    fixed_buffer_size (count (length k)) k (closed ∷ es))
                (sym whole) read)
              over_next
      ]
