-- ===== src/Tests/Lines.antt =====
-- Receiving lines at small inputs.
use network_program.Prelude.{ℕ, refl, true, List, [], ◌∷◌, ◌++◌, arith, replicate, length-replicate}
use network_program.OneLine.{closed, byte, recv_one_line_2, alloc_size}
use network_program.OneLine.Chunk.{bytes}
use network_program.OneLine.Stored.{IsGenerous}
use network_program.OneLine.Whole.{Whole}
use network_program.OneLine.Grown.{recv_one_line_2-Whole}

abbrev small : List ℕ
small = 9 ∷ 9 ∷ 9 ∷ 9 ∷ []

granted : IsGenerous (λ n. true)
granted n h = refl

recv_one_line_2-Whole_example :
    Whole
      (recv_one_line_2
        (λ n. true)
        (replicate alloc_size 9)
        (bytes (b'a' ∷ b'\n' ∷ b'c' ∷ []) ++ closed ∷ []))
      (b'a' ∷ b'\n' ∷ [])
      (byte b'c' ∷ closed ∷ [])
recv_one_line_2-Whole_example =
    recv_one_line_2-Whole (λ n. true) granted (b'a' ∷ []) (b'c' ∷ []) (closed ∷ [])
      (replicate alloc_size 9) (refl, tt) (length-replicate {A = ℕ} alloc_size 9) (omega arith)
