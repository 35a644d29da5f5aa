-- ===== src/OneLine/Fixed.antt =====
-- `recv_one_line_1` against the specification.
use network_program.Prelude.{
  ℕ, zero, suc, ◌+◌, ◌-◌, ◌%◌, ◌^◌, ◌≤◌, ◌<◌, ◌≡◌, refl, ◌∙◌, inl, inr, true, false, some, List, [],
  ◌∷◌, ◌++◌, append_assoc, append-nil, arith, ltb, ◌==◌, eq→==, ne→==, tests, Bool-cases, length,
  get_elem?, set, take, drop, length-snoc, length-set, take-store, take-set_ge, get_elem?-set_self,
  Run, done, write-lt, Ret, minus_one, count,
}
use network_program.OneLine.{Recv1, failed, closed, Line, finish, recv_loop, recv_one_line_1}
use network_program.OneLine.Chunk.{chunk, ends, bytes}

-- The line `got` was read: it stands at the front of the buffer, a NUL behind it, and the socket is
-- left at `rest`.
pub record Reads (bufsize : ℕ) (rv : Ret) (got : List ℕ) (rest : List Recv1) (l : Line)
    : Type 0 where
  pub rv_is : l.rv ≡ rv
  pub stored : take (length got) l.buf ≡ got
  pub nul : get_elem? l.buf (length got) ≡ some 0
  pub same_size : length l.buf ≡ bufsize
  pub left : l.rest ≡ rest

abbrev pub Gives : Run Line → ℕ → Ret → List ℕ → List Recv1 → Type 0
Gives r bufsize rv got rest = (l : Line) × (r ≡ done l) × Reads bufsize rv got rest l

finish-Gives :
    (bufsize : ℕ) (rv : Ret) (got buf : List ℕ) (es : List Recv1)
    → length buf ≡ bufsize
    → take (length got) buf ≡ got
    → length got < bufsize
    → Gives (finish rv buf (length got) es) bufsize rv got es
finish-Gives bufsize rv got buf es hb ht lt = (
  record { rv = rv; buf = set buf (length got) 0; rest = es },
  rw (write-lt buf (length got) 0 (omega arith)),
  record {
    rv_is = refl;
    stored = take-set_ge buf (length got) (length got) 0 (omega arith) ∙ ht;
    nul = get_elem?-set_self buf (length got) 0 (omega arith);
    same_size = length-set buf (length got) 0 ∙ hb;
    left = refl;
  },
)

module _ (bufsize : ℕ) (small : bufsize < 2 ^ 64) where
  -- `n` cells are free before the last one.
  loop-Gives :
      (n : ℕ) (got l buf : List ℕ) (es : List Recv1)
      → length buf ≡ bufsize
      → take (length got) buf ≡ got
      → suc n + suc (length got) ≡ bufsize
      → ends (suc n) l ≡ true
      → Gives
          (recv_loop bufsize (bytes l ++ es) buf (length got))
          bufsize
          (count (length (got ++ chunk (suc n) l)))
          (got ++ chunk (suc n) l)
          (bytes (drop (length (chunk (suc n) l)) l) ++ es)
  unfolding recv_loop
  loop-Gives n got [] buf es hb ht room e = cc
  loop-Gives zero got (c ∷ cs) buf es hb ht room e =
      let stored = take-store got buf c ht (omega arith) in
      let more = length-snoc got c in
      let last : (suc (length got) == (bufsize + 2 ^ 64 - 1) % 2 ^ 64) ≡ true =
        eq→== _ _ (omega arith) in
      let stop =
        finish-Gives bufsize (count (length (got ++ c ∷ []))) (got ++ c ∷ [])
          (set buf (length got) c) (bytes cs ++ es) (length-set buf (length got) c ∙ hb) stored
          (omega arith) in
      rw (write-lt buf (length got) c (omega arith), last, ← more)
        (elim (Bool-cases (c == b'\n')) [
          | inl nl ↦ rw nl stop
          | inr other_byte ↦ rw other_byte stop
        ])
  loop-Gives (suc n) got (c ∷ cs) buf es hb ht room e =
      let stored = take-store got buf c ht (omega arith) in
      let more = length-snoc got c in
      let room_left : (suc (length got) == (bufsize + 2 ^ 64 - 1) % 2 ^ 64) ≡ false =
        ne→== _ _ (omega arith) in
      rw (write-lt buf (length got) c (omega arith), room_left)
        (elim (Bool-cases (c == b'\n')) [
          | inl nl ↦
              rw (nl, ← more)
                (finish-Gives bufsize _ (got ++ c ∷ []) (set buf (length got) c) (bytes cs ++ es)
                  (length-set buf (length got) c ∙ hb) stored (omega arith))
          | inr other_byte ↦
              rw (other_byte, ← more, ← append_assoc got (c ∷ []) (chunk (suc n) cs))
                (loop-Gives n (got ++ c ∷ []) cs (set buf (length got) c) es
                  (length-set buf (length got) c ∙ hb) stored (omega arith) (rw other_byte at e))
        ])

  -- The bytes `l` do not end the line, and then the socket fails or is closed.
  loop_cut-Gives :
      (n : ℕ) (got l buf : List ℕ) (es : List Recv1)
      → length buf ≡ bufsize
      → take (length got) buf ≡ got
      → suc n + suc (length got) ≡ bufsize
      → ends (suc n) l ≡ false
      → Gives
          (recv_loop bufsize (bytes l ++ closed ∷ es) buf (length got))
          bufsize
          (count (length (got ++ l)))
          (got ++ l)
          es
        × Gives
            (recv_loop bufsize (bytes l ++ failed ∷ es) buf (length got))
            bufsize
            minus_one
            (got ++ l)
            es
  unfolding recv_loop
  loop_cut-Gives n got [] buf es hb ht room e =
      let stop = λ (rv : Ret). finish-Gives bufsize rv got buf es hb ht (omega arith) in
      rw (append-nil got) (
        (elim (Bool-cases (ltb 0 (length got))) [
          | inl some_bytes ↦ rw some_bytes (stop (count (length got)))
          | inr no_bytes ↦
              let z : length got ≡ 0 = omega tests in
              rw (no_bytes, z) (rw z at (stop (count (length got))))
        ]),
        stop minus_one,
      )
  loop_cut-Gives zero got (c ∷ cs) buf es hb ht room e = ground arith
  loop_cut-Gives (suc n) got (c ∷ cs) buf es hb ht room e =
      let stored = take-store got buf c ht (omega arith) in
      let more = length-snoc got c in
      let room_left : (suc (length got) == (bufsize + 2 ^ 64 - 1) % 2 ^ 64) ≡ false =
        ne→== _ _ (omega arith) in
      rw (write-lt buf (length got) c (omega arith), room_left)
        (elim (Bool-cases (c == b'\n')) [
          | inl nl ↦ cc (rw nl at e)
          | inr other_byte ↦
              rw (other_byte, ← more, ← append_assoc got (c ∷ []) cs)
                (loop_cut-Gives n (got ++ c ∷ []) cs (set buf (length got) c) es
                  (length-set buf (length got) c ∙ hb) stored (omega arith) (rw other_byte at e))
        ])

module _ (bufsize : ℕ) (buf : List ℕ) (same : length buf ≡ bufsize) (least : 2 ≤ bufsize)
    (small : bufsize < 2 ^ 64) where
  -- With a buffer of `bufsize` bytes, at least 2 and below 2^64, and bytes coming in that end a line
  -- of at most `bufsize - 1` bytes, by a newline or by their number, `recv_one_line_1` writes inside
  -- its buffer, returns the line's length, and leaves the line at the front of the buffer, a NUL
  -- behind it; it takes no byte behind the line from the socket.
  pub recv_one_line_1-line :
      (l : List ℕ) (es : List Recv1)
      → ends (bufsize - 1) l ≡ true
      → Gives
          (recv_one_line_1 bufsize (bytes l ++ es) buf)
          bufsize
          (count (length (chunk (bufsize - 1) l)))
          (chunk (bufsize - 1) l)
          (bytes (drop (length (chunk (bufsize - 1) l)) l) ++ es)
  unfolding recv_one_line_1
  recv_one_line_1-line l es e =
      let k : bufsize - 1 ≡ suc (bufsize - 2) = omega arith in
      rw (write-lt buf 0 0 (omega arith), k)
        (loop-Gives bufsize small (bufsize - 2) [] l (set buf 0 0) es (length-set buf 0 0 ∙ same)
          refl (omega arith) (rw k at e))

  -- With such a buffer and a connection closed before the line ends, `recv_one_line_1` returns the
  -- number of the bytes that came in, 0 for none, and where `recv` fails instead, -1; either way
  -- these bytes stand at the front of the buffer with a NUL behind them.
  pub recv_one_line_1-cut :
      (l : List ℕ) (es : List Recv1)
      → ends (bufsize - 1) l ≡ false
      → Gives (recv_one_line_1 bufsize (bytes l ++ closed ∷ es) buf) bufsize (count (length l)) l es
        × Gives (recv_one_line_1 bufsize (bytes l ++ failed ∷ es) buf) bufsize minus_one l es
  unfolding recv_one_line_1
  recv_one_line_1-cut l es e =
      let k : bufsize - 1 ≡ suc (bufsize - 2) = omega arith in
      rw (write-lt buf 0 0 (omega arith)) (
        loop_cut-Gives bufsize small (bufsize - 2) [] l (set buf 0 0) es (length-set buf 0 0 ∙ same)
          refl (omega arith) (rw k at e))
