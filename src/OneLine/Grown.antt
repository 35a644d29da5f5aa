-- ===== src/OneLine/Grown.antt =====
-- `recv_one_line_2`: a line of any length up to the limit is returned whole.
use network_program.Prelude.{
  ℕ, zero, suc, ◌+◌, ◌-◌, ◌≤◌, ◌<◌, ◌≡◌, refl, sym, ap, ◌∙◌, inl, inr, true, false, some, List, [],
  ◌∷◌, ◌++◌, append_assoc, arith, ltb, ne→==, tests, Bool-cases, length, get_elem?, take, drop,
  length-append, length-snoc, length-take, length-drop, take-append-drop, drop-append,
  drop-append_le, Run, count,
}
use network_program.OneLine.{
  Recv1, Line, Grow, Reply2, Allocator, alloc_size, alloc_limit, fresh, enlarge, round, after_chunk,
  grow_loop, recv_one_line_2, recv_one_line_1, last_is_newline,
}
use network_program.OneLine.Chunk.{
  chunk, ends, bytes, NoNewline, chunk_short, chunk_long, NoNewline-take, NoNewline-drop,
  length-bytes,
}
use network_program.OneLine.Fixed.{Reads, Gives, recv_one_line_1-line}
use network_program.OneLine.Stored.{
  Stored, IsReady, start, going, IsGenerous, enlarge-Stored, store_chunk_lem,
}
use network_program.OneLine.Whole.{
  last_is_newline-eq, Whole, Whole-eq, last-newline, last-NoNewline, after_chunk_ends,
  after_chunk_goes_on,
}

module _ (grants : Allocator) (generous : IsGenerous grants) where
  -- A round that has received `bs` stores them and looks at the last byte.
  round_lem :
      (g : Grow) (got bs : List ℕ) (rest : List Recv1) (l : Line) (go : Grow → Run Reply2)
      → IsReady g got
      → Reads alloc_size (count (length bs)) bs rest l
      → 0 < length bs
      → length bs < alloc_size
      → length got + length bs + alloc_size ≤ alloc_limit
      → (g' : Grow) × (cells : List ℕ) × (round grants g l go ≡ after_chunk g' l.rest go)
        × Stored g' cells (got ++ bs)
        × (get_elem? cells (length (got ++ bs)) ≡ some 0)
        × (length (got ++ bs) < g'.size)
        × (g'.size ≤ length (got ++ bs) + alloc_size)
  unfolding round
  round_lem g got bs rest l go ready reads pos small fits =
      let g1 = enlarge grants g (length bs) in
      let (old, st, room, tight) =
        enlarge-Stored grants generous g got (length bs) ready small fits in
      let (cells, runs, front, nul, size) = store_chunk_lem g1 old got bs st room in
      let n = length-append got bs in
      (
        record g1 { data_ptr = some cells; now_len = g1.now_len + length bs },
        cells,
        rw (reads.rv_is, ne→== (length bs) 0 (omega arith), reads.stored, runs),
        record { data_is = refl; cells_size = size; front = front; now = omega (arith, st.now) },
        nul,
        omega arith,
        omega arith,
      )

  chunk_read :
      (line bs left buf : List ℕ) (es : List Recv1)
      → length buf ≡ alloc_size
      → chunk (alloc_size - 1) line ≡ bs
      → ends (alloc_size - 1) line ≡ true
      → drop (length bs) line ≡ left
      → Gives
          (recv_one_line_1 alloc_size (bytes line ++ es) buf)
          alloc_size
          (count (length bs))
          bs
          (bytes left ++ es)
  chunk_read line bs left buf es same e f d =
      rw (← d, ← e) (recv_one_line_1-line alloc_size buf same (omega arith) (omega arith) line es f)

  -- The loop from a state that has received `got`, with the rest of the line to come.
  grow_loop-Whole :
      (fuel : ℕ) (g : Grow) (got body next : List ℕ) (es : List Recv1) (buf : List ℕ)
      → IsReady g got
      → NoNewline body
      → length buf ≡ alloc_size
      → length body < fuel
      → length got + suc (length body) + alloc_size ≤ alloc_limit
      → Whole
          (grow_loop grants buf fuel (bytes (body ++ b'\n' ∷ next) ++ es) g)
          (got ++ (body ++ b'\n' ∷ []))
          (bytes next ++ es)
  unfolding grow_loop
  grow_loop-Whole zero g got body next es buf ready clean same lt fits = elim lt [ ]
  grow_loop-Whole (suc fuel) g got body next es buf ready clean same lt fits =
      elim (Bool-cases (ltb (length body) (alloc_size - 1))) [
        | inl short ↦
            let (e, f) = chunk_short (alloc_size - 1) body next clean (omega tests) in
            let bs = body ++ b'\n' ∷ [] in
            let n = length-snoc body b'\n' in
            let (l, runs, reads) =
              chunk_read (body ++ b'\n' ∷ next) bs next buf es same e f
                (rw (append_assoc body (b'\n' ∷ []) next) at (drop-append bs next)) in
            let (g', cells, rounds, st, nul, room, tight) =
              round_lem g got bs (bytes next ++ es) l (λ h. grow_loop grants l.buf fuel l.rest h)
                ready reads (omega arith) (omega tests) (omega arith) in
            let stops : last_is_newline cells (length (got ++ bs)) ≡ true =
              last_is_newline-eq (got ++ bs) cells b'\n' st.front
                (omega (arith, length-append got bs)) (last-newline got body) in
            (
              record { rv = count (length (got ++ bs)); ret_buf = some cells; rest = l.rest },
              rw runs (
                  rounds
                  ∙ after_chunk_ends g' cells (length (got ++ bs)) l.rest
                      (λ h. grow_loop grants l.buf fuel l.rest h) st.data_is st.now stops),
              refl,
              record { cells = cells; buf_is = refl; stored = st.front; nul = nul },
              reads.left,
            )
        | inr long ↦
            let (e, f) = chunk_long (alloc_size - 1) body (b'\n' ∷ next) clean (omega tests) in
            let bs = take (alloc_size - 1) body in
            let n : length bs ≡ alloc_size - 1 = omega (tests, length-take (alloc_size - 1) body) in
            let (l, runs, reads) =
              chunk_read (body ++ b'\n' ∷ next) bs (drop (alloc_size - 1) body ++ b'\n' ∷ next) buf
                es same e f
                (ap (λ k. drop k (body ++ b'\n' ∷ next)) n
                  ∙ drop-append_le (alloc_size - 1) body (b'\n' ∷ next) (omega tests)) in
            let (g', cells, rounds, st, nul, room, tight) =
              round_lem g got bs (bytes (drop (alloc_size - 1) body ++ b'\n' ∷ next) ++ es) l
                (λ h. grow_loop grants l.buf fuel l.rest h) ready reads (omega arith) (omega arith)
                (omega tests) in
            let (c, at, other_byte) =
              last-NoNewline got bs (NoNewline-take (alloc_size - 1) body clean) (omega arith) in
            let goes_on : last_is_newline cells (length (got ++ bs)) ≡ false =
              last_is_newline-eq (got ++ bs) cells c st.front (omega (arith, length-append got bs))
                at
              ∙ other_byte in
            let k = length-drop (alloc_size - 1) body in
            let j = length-append got bs in
            let whole =
              grow_loop-Whole fuel g' (got ++ bs) (drop (alloc_size - 1) body) next es l.buf
                (going cells st room tight) (NoNewline-drop (alloc_size - 1) body clean)
                reads.same_size (omega tests) (omega tests) in
            let steps =
              rounds
              ∙ after_chunk_goes_on g' cells (length (got ++ bs)) l.rest
                  (λ h. grow_loop grants l.buf fuel l.rest h) st.data_is st.now goes_on in
            let line_is : (got ++ bs) ++ (drop (alloc_size - 1) body ++ b'\n' ∷ [])
                ≡ got ++ (body ++ b'\n' ∷ []) =
              append_assoc got bs (drop (alloc_size - 1) body ++ b'\n' ∷ [])
              ∙ ap (λ k. got ++ k)
                  (sym (append_assoc bs (drop (alloc_size - 1) body) (b'\n' ∷ []))
                    ∙ ap (λ k. k ++ b'\n' ∷ []) (take-append-drop (alloc_size - 1) body)) in
            rw runs (
              Whole-eq (steps ∙ ap (λ k. grow_loop grants l.buf fuel k g') reads.left)
                (rw line_is at whole))
      ]

  -- With an allocator that grants every request within the limit of 1 MiB, and for a line whose
  -- length with its newline is at most 1 MiB less 1024 bytes, `recv_one_line_2` ends within its fuel,
  -- returns the line's length and the whole line with a NUL behind it, and takes no byte behind the
  -- line from the socket, whatever the local array held.
  pub recv_one_line_2-Whole :
      (body next : List ℕ) (es : List Recv1) (buf : List ℕ)
      → NoNewline body
      → length buf ≡ alloc_size
      → suc (length body) + alloc_size ≤ alloc_limit
      → Whole
          (recv_one_line_2 grants buf (bytes (body ++ b'\n' ∷ next) ++ es))
          (body ++ b'\n' ∷ [])
          (bytes next ++ es)
  unfolding recv_one_line_2
  recv_one_line_2-Whole body next es buf clean same fits =
      grow_loop-Whole (suc (length (bytes (body ++ b'\n' ∷ next) ++ es))) fresh [] body next es buf
        (start refl refl refl refl) clean same
        (omega (
          arith,
          length-append (bytes (body ++ b'\n' ∷ next)) es,
          length-bytes (body ++ b'\n' ∷ next),
          length-append body (b'\n' ∷ next),
        ))
        (omega arith)
