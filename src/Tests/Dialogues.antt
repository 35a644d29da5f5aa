-- ===== src/Tests/Dialogues.antt =====
-- The dialogue line by line at a small input.
use network_program.Prelude.{
  ℕ, ◌≡◌, refl, true, List, [], ◌∷◌, ◌++◌, arith, replicate, All, length-replicate,
}
use network_program.Http.{str}
use network_program.Echo.{over}
use network_program.OneLine.{closed}
use network_program.OneLine.Chunk.{bytes}
use network_program.OneLine.Dialogue.{fixed_buffer_size, send_recv_loop_1}
use network_program.OneLine.{alloc_size}
use network_program.OneLine.Stored.{IsGenerous}
use network_program.OneLine.Variable.{send_recv_loop_2}
use network_program.OneLine.Lines.{IsLine, send_recv_loop_2-join_lines}
use network_program.OneLine.Replies.{pieces, send_recv_loop_1-pieces}

-- A short line, and one of 21 bytes.
abbrev two_lines : List ℕ
two_lines = str "hi\r\n0123456789abcdefghijk\n"

three_pieces : pieces 27 two_lines ≡ str "hi\r\n" ∷ str "0123456789abcdefghi" ∷ str "jk\n" ∷ []
unfolding pieces
three_pieces = refl

send_recv_loop_1-pieces_example :
    send_recv_loop_1 27
      (bytes two_lines ++ closed ∷ closed ∷ [])
      (λ reply. true)
      (replicate fixed_buffer_size 170)
    ≡ record {
      sent = str "hi:OK\r\n" ∷ str "0123456789abcdefghi:OK\r\n" ∷ str "jk:OK\r\n" ∷ [];
      ending = over;
    }
unfolding pieces
send_recv_loop_1-pieces_example =
    send_recv_loop_1-pieces (λ reply. true) (λ reply. refl) 27 two_lines
      (replicate fixed_buffer_size 170) [] (omega arith)
      (length-replicate {A = ℕ} fixed_buffer_size 170) (omega arith)

abbrev first_line : List ℕ
first_line = str "0123456789abcdefghijk\r"

abbrev second_line : List ℕ
second_line = str "hi"

lines-IsLine : All IsLine (first_line ∷ second_line ∷ [])
lines-IsLine = (
  record { no_newline = ground arith; non_nul = omega arith; fits = omega arith },
  (record { no_newline = ground arith; non_nul = omega arith; fits = omega arith }, tt),
)

granted_all : IsGenerous (λ n. true)
granted_all n h = refl

send_recv_loop_2-join_lines_example :
    send_recv_loop_2
      (λ n. true)
      (replicate alloc_size 170)
      (λ reply. true)
      3
      (bytes (str "0123456789abcdefghijk\r\nhi\n") ++ closed ∷ [])
    ≡ record { sent = str "0123456789abcdefghijk:OK\r\n" ∷ str "hi:OK\r\n" ∷ []; ending = over }
send_recv_loop_2-join_lines_example =
    send_recv_loop_2-join_lines (λ n. true) granted_all (replicate alloc_size 170)
      (length-replicate {A = ℕ} alloc_size 170) (λ reply. true) (λ reply. refl)
      (first_line ∷ second_line ∷ []) [] lines-IsLine
