-- ===== src/OneLine.antt =====
-- Receiving one line (chapter06/oneline.c): `recv_one_line_1` into a fixed buffer and
-- `recv_one_line_2` into a growing one. The socket is the list of the results that `recv` gives.
pub mod Chunk
pub mod Fixed
pub mod Stored
pub mod Whole
pub mod Grown
pub mod Dialogue
pub mod Replies
pub mod Variable
pub mod Lines
use network_program.Prelude.{
  ℕ, zero, suc, ◌+◌, ◌-◌, ◌*◌, ◌%◌, ◌^◌, Bool, false, ◌||◌, Option, none, some, List, [], ◌∷◌, ◌++◌,
  ltb, leb, ◌==◌, if◌then◌else◌, length, get_elem?, take, replicate, Run, done, blocked, ◌>>=◌,
  write, Ret, minus_one, count,
}

-- What `recv(soc, &c, 1, flag)` gives: -1, 0, or one byte.
pub data Recv1 : Type 0 where
  failed closed : Recv1
  byte : ℕ → Recv1

pub record Line : Type 0 where
  pub rv : Ret
  pub buf : List ℕ
  pub rest : List Recv1

-- `buf[pos] = '\0'; return(rv);`
abbrev pub finish : Ret → List ℕ → ℕ → List Recv1 → Run Line
finish rv buf pos rest =
    write buf pos 0 >>= λ buf'. done (record { rv = rv; buf = buf'; rest = rest })

-- The `do ... while (end == 0)` loop. `bufsize - 1` wraps at 0 in the source, as `size_t` does.
unfoldable pub recv_loop : ℕ → List Recv1 → List ℕ → ℕ → Run Line
recv_loop bufsize [] buf pos = blocked
recv_loop bufsize (failed ∷ es) buf pos = finish minus_one buf pos es
recv_loop bufsize (closed ∷ es) buf pos =
    if ltb 0 pos then finish (count pos) buf pos es else finish (count 0) buf pos es
recv_loop bufsize (byte c ∷ es) buf pos = write buf pos c >>= λ buf'.
    if c == b'\n' || suc pos == (bufsize + 2 ^ 64 - 1) % 2 ^ 64
    then finish (count (suc pos)) buf' (suc pos) es
    else recv_loop bufsize es buf' (suc pos)

unfoldable pub recv_one_line_1 : ℕ → List Recv1 → List ℕ → Run Line
unfolding recv_loop
recv_one_line_1 bufsize es buf = write buf 0 0 >>= λ buf'. recv_loop bufsize es buf' 0

abbrev pub alloc_size : ℕ
alloc_size = 1024

abbrev pub alloc_limit : ℕ
alloc_limit = 1024 * 1024

-- The state of `recv_one_line_2`: `data` with what is stored in it, `size` and `now_len`.
pub record Grow : Type 0 where
  pub data_ptr : Option (List ℕ)
  pub size : ℕ
  pub now_len : ℕ

pub record Reply2 : Type 0 where
  pub rv : Ret
  pub ret_buf : Option (List ℕ)
  pub rest : List Recv1

abbrev pub fresh : Grow
fresh = record { data_ptr = none; size = 0; now_len = 0 }

-- `malloc(n)` and `realloc(data, n)`: the cells behind the old ones are not initialised, and read
-- as 0 here. `none` is a failed allocation.
abbrev pub resize : List ℕ → ℕ → List ℕ
resize old n = take n (old ++ replicate n 0)

-- The C library's allocator: whether a request for so many bytes is granted.
abbrev pub Allocator : Type 0
Allocator = ℕ → Bool

-- `if (now_len + len >= size) { ... }`. A failed `realloc` loses `data`.
unfoldable pub enlarge : Allocator → Grow → ℕ → Grow
enlarge grants g len =
    if leb g.size (g.now_len + len)
    then record g {
      size = g.size + alloc_size;
      data_ptr =
          if ltb alloc_limit (g.size + alloc_size)
          then none
          else if grants (g.size + alloc_size)
          then (elim g.data_ptr [
            | none ↦ some (replicate (g.size + alloc_size) 0)
            | some old ↦ some (resize old (g.size + alloc_size))
          ])
          else none;
    }
    else g

-- `memcpy(&data[pos], buf, n)`
unfoldable pub mem_copy : List ℕ → ℕ → List ℕ → Run (List ℕ)
mem_copy cells pos [] = done cells
mem_copy cells pos (b ∷ bs) = write cells pos b >>= λ cells'. mem_copy cells' (suc pos) bs

abbrev last_is_newline : List ℕ → ℕ → Bool
last_is_newline cells now_len = elim (get_elem? cells (now_len - 1)) [
  | none ↦ false
  | some c ↦ c == b'\n'
]

-- The branch `data = none` frees nothing more: `free(NULL)` does nothing.
unfoldable pub store_chunk : Grow → List ℕ → Run Grow
unfolding mem_copy
store_chunk g chunk = elim g.data_ptr [
  | none ↦ done g
  | some cells ↦ mem_copy cells g.now_len chunk >>= λ cells'.
      write cells' (g.now_len + length chunk) 0 >>= λ cells''.
      done (record g { data_ptr = some cells''; now_len = g.now_len + length chunk })
]

-- The end of a round that has received data: out of memory, at the end of the line, or go on.
abbrev after_chunk : Grow → List Recv1 → (Grow → Run Reply2) → Run Reply2
after_chunk g rest go = elim g.data_ptr [
  | none ↦ done (record { rv = minus_one; ret_buf = none; rest = rest })
  | some cells ↦
      if last_is_newline cells g.now_len
      then done (record { rv = count g.now_len; ret_buf = some cells; rest = rest })
      else go g
]

-- One round of `recv_one_line_2`, on what `recv_one_line_1` has given; `go` is the next round.
unfoldable pub round : Allocator → Grow → Line → (Grow → Run Reply2) → Run Reply2
unfolding enlarge store_chunk
round grants g l go = elim l.rv [
  | minus_one ↦ done (record { rv = minus_one; ret_buf = none; rest = l.rest })
  | count len ↦
      if len == 0
      then done (record {
        rv = if ltb 0 g.now_len then count g.now_len else count 0;
        ret_buf = g.data_ptr;
        rest = l.rest;
      })
      else (store_chunk (enlarge grants g len) (take len l.buf) >>= λ g'. after_chunk g' l.rest go)
]

-- The loop on fuel. `buf` is the local array of 1024 bytes, of any content at the start.
unfoldable pub grow_loop : Allocator → List ℕ → ℕ → List Recv1 → Grow → Run Reply2
unfolding round recv_one_line_1
grow_loop grants buf zero es g = blocked
grow_loop grants buf (suc fuel) es g = recv_one_line_1 alloc_size es buf >>= λ l.
    round grants g l (λ g'. grow_loop grants l.buf fuel l.rest g')

unfoldable pub recv_one_line_2 : Allocator → List ℕ → List Recv1 → Run Reply2
unfolding grow_loop
recv_one_line_2 grants buf es = grow_loop grants buf (suc (length es)) es fresh
