-- ===== src/OneLine/Whole.antt =====
-- A whole line in the array that `recv_one_line_2` returns, and the end of a round.
use network_program.Prelude.{
  ℕ, ◌-◌, ◌<◌, ◌≡◌, sym, ap, ◌∙◌, true, false, Option, some, List, [], ◌∷◌, ◌++◌, append_assoc,
  arith, ◌==◌, length, get_elem?, take, length-snoc, get_elem?-append, get_elem?-take, Run, done,
  count,
}
use network_program.OneLine.{Recv1, Grow, Reply2, after_chunk, last_is_newline}
use network_program.OneLine.Chunk.{NoNewline}

-- A whole line stands at the front of what was returned, a NUL behind it.
pub record HoldsLine (ret_buf : Option (List ℕ)) (line : List ℕ) : Type 0 where
  pub cells : List ℕ
  pub buf_is : ret_buf ≡ some cells
  pub stored : take (length line) cells ≡ line
  pub nul : get_elem? cells (length line) ≡ some 0

last-append :
    (got : List ℕ) (b : ℕ) (bs : List ℕ)
    → NoNewline (b ∷ bs)
    → (c : ℕ) × (get_elem? (got ++ b ∷ bs) (length (got ++ b ∷ bs) - 1) ≡ some c)
      × ((c == b'\n') ≡ false)
last-append got b [] h = (
  b,
  rw (length-snoc got b) (ap (get_elem? (got ++ b ∷ [])) (omega arith) ∙ get_elem?-append got [] b),
  h.0,
)
last-append got b (d ∷ bs) h =
    rw (append_assoc got (b ∷ []) (d ∷ bs)) at (last-append (got ++ b ∷ []) d bs h.1)

-- The test on the last byte reads it inside of what was stored.
pub last_is_newline-eq :
    (xs cells : List ℕ) (c : ℕ)
    → take (length xs) cells ≡ xs
    → 0 < length xs
    → get_elem? xs (length xs - 1) ≡ some c
    → last_is_newline cells (length xs) ≡ (c == b'\n')
last_is_newline-eq xs cells c front pos e =
    let seen : get_elem? cells (length xs - 1) ≡ some c =
      sym (get_elem?-take (length xs) (length xs - 1) cells (omega arith))
      ∙ ap (λ k. get_elem? k (length xs - 1)) front
      ∙ e in
    rw (seen, last_is_newline)

-- The call returns the line `line` whole, and leaves the socket at `rest`.
abbrev pub Whole : Run Reply2 → List ℕ → List Recv1 → Type 0
Whole run line rest =
    (r : Reply2) × (run ≡ done r)
    × (r.rv ≡ count (length line))
    × HoldsLine r.ret_buf line
    × (r.rest ≡ rest)

pub Whole-eq :
    {run run' : Run Reply2} {line : List ℕ} {rest : List Recv1}
    → run ≡ run'
    → Whole run' line rest
    → Whole run line rest
Whole-eq e (r, runs, rv, holds, left) = (r, e ∙ runs, rv, holds, left)

pub last-newline :
    (got body : List ℕ)
    → get_elem? (got ++ (body ++ b'\n' ∷ [])) (length (got ++ (body ++ b'\n' ∷ [])) - 1)
      ≡ some b'\n'
last-newline got body =
    rw (← append_assoc got body (b'\n' ∷ []), length-snoc (got ++ body) b'\n')
      (ap (get_elem? ((got ++ body) ++ b'\n' ∷ [])) (omega arith)
        ∙ get_elem?-append (got ++ body) [] b'\n')

pub last-NoNewline :
    (got bs : List ℕ)
    → NoNewline bs
    → 0 < length bs
    → (c : ℕ) × (get_elem? (got ++ bs) (length (got ++ bs) - 1) ≡ some c) × ((c == b'\n') ≡ false)
last-NoNewline got [] h lt = elim lt [ ]
last-NoNewline got (b ∷ bs) h lt = last-append got b bs h

pub after_chunk_ends :
    (g : Grow) (cells : List ℕ) (n : ℕ) (rest : List Recv1) (go : Grow → Run Reply2)
    → g.data_ptr ≡ some cells
    → g.now_len ≡ n
    → last_is_newline cells n ≡ true
    → after_chunk g rest go ≡ done (record { rv = count n; ret_buf = some cells; rest = rest })
after_chunk_ends g cells n rest go d m e = rw (d, m, e)

pub after_chunk_goes_on :
    (g : Grow) (cells : List ℕ) (n : ℕ) (rest : List Recv1) (go : Grow → Run Reply2)
    → g.data_ptr ≡ some cells
    → g.now_len ≡ n
    → last_is_newline cells n ≡ false
    → after_chunk g rest go ≡ go g
after_chunk_goes_on g cells n rest go d m e = ground (arith, e)
