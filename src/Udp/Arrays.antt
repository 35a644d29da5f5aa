-- ===== src/Udp/Arrays.antt =====
-- What the array of chapter09/u-client.c holds behind `recvfrom` and `fgets`.
use network_program.Prelude.{
  ℕ, suc, ◌≤◌, ◌<◌, ◌≡◌, ap, ◌∙◌, List, [], ◌∷◌, ◌++◌, append_assoc, arith, length, set, drop,
  length-append, length-set, length-drop, take-append, set-append, done, write, write-lt,
}
use network_program.CString.{text}
use network_program.CString.Text.{NonNul-text, behind_text, append-text, text-append_nul}
use network_program.Echo.{buf_size, receive_into}

text_append_nul : (bs rest : List ℕ) → text (bs ++ 0 ∷ rest) ≡ text bs
text_append_nul bs rest =
    ap text (append-text bs rest) ∙ text-append_nul (text bs) (behind_text bs rest) (NonNul-text bs)

pub length-receive_into :
    (buf bs : List ℕ)
    → length buf ≡ buf_size
    → length bs ≤ buf_size
    → length (receive_into buf bs) ≡ buf_size
length-receive_into buf bs size le =
    omega (arith, length-append bs (drop (length bs) buf), length-drop (length bs) buf)

-- `buf[len] = '\0'` behind what was received.
pub write-receive_into :
    (buf bs : List ℕ)
    → length buf ≡ buf_size
    → length bs < buf_size
    → (ended : List ℕ) × (write (receive_into buf bs) (length bs) 0 ≡ done ended)
      × (text ended ≡ text bs)
      × (length ended ≡ buf_size)
write-receive_into buf bs size lt =
    let cells = receive_into buf bs in
    let n : length cells ≡ buf_size = length-receive_into buf bs size (omega arith) in
    let rest = drop (suc (length bs)) cells in
    let same : set cells (length bs) 0 ≡ bs ++ 0 ∷ rest =
      set-append cells (length bs) 0 (omega arith)
      ∙ ap (λ k. k ++ 0 ∷ rest) (take-append bs (drop (length bs) buf)) in
    (
      set cells (length bs) 0,
      write-lt cells (length bs) 0 (omega arith),
      ap text same ∙ text_append_nul bs rest,
      length-set cells (length bs) 0 ∙ n,
    )

-- The NUL that `fgets` puts behind the line.
pub text-fgets : (buf line : List ℕ) → text (receive_into buf (line ++ 0 ∷ [])) ≡ text line
text-fgets buf line =
    ap text (append_assoc line (0 ∷ []) (drop (length (line ++ 0 ∷ [])) buf))
    ∙ text_append_nul line (drop (length (line ++ 0 ∷ [])) buf)
