-- ===== src/OneLine/Stored.antt =====
-- How `recv_one_line_2` keeps what it has received, and that it always has room for it.
use network_program.Prelude.{
  ℕ, ◌+◌, ◌≤◌, ◌<◌, ◌≡◌, refl, ◌∙◌, inl, inr, true, none, some, List, [], ◌∷◌, ◌++◌, append_assoc,
  append-nil, arith, leb, Bool-cases, length, get_elem?, set, take, replicate, length-append,
  length-snoc, length-set, length-take, length-replicate, take-append_le, take-take, take-store,
  take-set_ge, get_elem?-set_self, done, write-lt,
}
use network_program.OneLine.{
  Grow, Allocator, alloc_size, alloc_limit, resize, enlarge, mem_copy, store_chunk,
}

-- `data` holds `got`, in `cells`.
pub record Stored (g : Grow) (cells got : List ℕ) : Type 0 where
  pub data_is : g.data_ptr ≡ some cells
  pub cells_size : length cells ≡ g.size
  pub front : take (length got) cells ≡ got
  pub now : g.now_len ≡ length got

-- Between two rounds `got` has been received, and there is room for a NUL.
pub data IsReady (g : Grow) (got : List ℕ) : Type 0 where
  start : g.data_ptr ≡ none → g.size ≡ 0 → g.now_len ≡ 0 → got ≡ [] → IsReady g got
  going :
      (cells : List ℕ)
      → Stored g cells got
      → length got < g.size
      → g.size ≤ length got + alloc_size
      → IsReady g got

-- The allocator grants whatever stays within the limit.
abbrev pub IsGenerous : Allocator → Type 0
IsGenerous grants = (n : ℕ) → n ≤ alloc_limit → grants n ≡ true

length-resize : (old : List ℕ) (n : ℕ) → length (resize old n) ≡ n
length-resize old n = omega (
  arith,
  length-take n (old ++ replicate n 0),
  length-append old (replicate n 0),
  length-replicate {A = ℕ} n 0,
)

take-resize : (old : List ℕ) (k n : ℕ) → k ≤ length old → k ≤ n → take k (resize old n) ≡ take k old
take-resize old k n h le = take-take k n _ le ∙ take-append_le k old (replicate n 0) h

mem_copy_lem :
    (got bs cells : List ℕ)
    → take (length got) cells ≡ got
    → length (got ++ bs) ≤ length cells
    → (cells' : List ℕ) × (mem_copy cells (length got) bs ≡ done cells')
      × (take (length (got ++ bs)) cells' ≡ got ++ bs)
      × (length cells' ≡ length cells)
unfolding mem_copy
mem_copy_lem got [] cells h le = (cells, refl, rw (append-nil got) h, refl)
mem_copy_lem got (b ∷ bs) cells h le =
    let n = length-append got (b ∷ bs) in
    let lt : length got < length cells = omega arith in
    let (cells', runs, front, size) =
      mem_copy_lem (got ++ b ∷ []) bs (set cells (length got) b) (take-store got cells b h lt)
        (rw (append_assoc got (b ∷ []) bs, length-set cells (length got) b) le) in
    (
      cells',
      rw (write-lt cells (length got) b lt) (rw (length-snoc got b) at runs),
      rw (append_assoc got (b ∷ []) bs) at front,
      size ∙ length-set cells (length got) b,
    )

module _ (grants : Allocator) (generous : IsGenerous grants) where
  pub enlarge-Stored :
      (g : Grow) (got : List ℕ) (n : ℕ)
      → IsReady g got
      → n < alloc_size
      → length got + n + alloc_size ≤ alloc_limit
      → (cells : List ℕ) × Stored (enlarge grants g n) cells got
        × (length got + n < (enlarge grants g n).size)
        × ((enlarge grants g n).size ≤ length got + n + alloc_size)
  unfolding enlarge
  enlarge-Stored g got n (start none_yet zero_size zero_len nothing) small fits = (
    replicate (g.size + alloc_size) 0,
    record {
      data_is = ground (arith, generous (g.size + alloc_size));
      cells_size = ground (arith, length-replicate {A = ℕ} (g.size + alloc_size) 0);
      front = ground arith;
      now = ground arith;
    },
    ground arith,
    ground arith,
  )
  enlarge-Stored g got n (going cells st room tight) small fits =
      elim (Bool-cases (leb g.size (g.now_len + n))) [
        | inl full ↦ (
          resize cells (g.size + alloc_size),
          record {
            data_is = ground (arith, generous (g.size + alloc_size));
            cells_size = ground (arith, length-resize cells (g.size + alloc_size));
            front =
                take-resize cells (length got) (g.size + alloc_size) (omega arith) (omega arith)
                ∙ st.front;
            now = ground arith;
          },
          ground arith,
          ground arith,
        )
        | inr room_left ↦ (
          cells,
          record {
            data_is = ground arith;
            cells_size = ground arith;
            front = st.front;
            now = ground arith;
          },
          ground arith,
          ground arith,
        )
      ]

-- A received chunk is stored behind the bytes so far, with a NUL behind it.
pub store_chunk_lem :
    (g : Grow) (cells got bs : List ℕ)
    → Stored g cells got
    → length got + length bs < g.size
    → (cells' : List ℕ) × (store_chunk g bs
        ≡ done (record g { data_ptr = some cells'; now_len = g.now_len + length bs }))
      × (take (length (got ++ bs)) cells' ≡ got ++ bs)
      × (get_elem? cells' (length (got ++ bs)) ≡ some 0)
      × (length cells' ≡ g.size)
unfolding store_chunk
store_chunk_lem g cells got bs st lt =
    let n = length-append got bs in
    let (mid, runs, front, size) =
      mem_copy_lem got bs cells st.front (omega (arith, n, st.cells_size)) in
    let at : length (got ++ bs) < length mid = omega (arith, n, size, st.cells_size) in
    let here : g.now_len + length bs ≡ length (got ++ bs) = omega (arith, n, st.now) in
    (
      set mid (length (got ++ bs)) 0,
      rw (st.data_is, st.now, runs, ← n, write-lt mid (length (got ++ bs)) 0 at),
      take-set_ge mid _ _ 0 (omega arith) ∙ front,
      get_elem?-set_self mid (length (got ++ bs)) 0 at,
      length-set mid (length (got ++ bs)) 0 ∙ size ∙ st.cells_size,
    )
