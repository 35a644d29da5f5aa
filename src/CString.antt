-- ===== src/CString.antt =====
-- C strings in byte arrays, and `mystrlcat` (chapter06/timeout.c; the same function stands in
-- chapter04, chapter05 and the other servers of chapter06).
-- A pointer that walks through an array is the list of the bytes from it to the array's end.
pub mod Text
pub mod Strlcat
use network_program.Prelude.{
  ℕ, zero, suc, ◌+◌, ◌-◌, Bool, ◌||◌, List, [], ◌∷◌, ◌++◌, ◌==◌, if◌then◌else◌, length, take, drop,
  Run, done, fault, ◌>>=◌,
}

-- The text of an array: the bytes before the first NUL, or before the end of the array.
abbrev pub text : List ℕ → List ℕ
text [] = []
text (b ∷ bs) = if b == 0 then [] else b ∷ text bs

-- `for (pd = dst, lest = size; *pd != '\0' && lest != 0; pd++, lest--); dlen = pd - dst;`
unfoldable pub scan : List ℕ → ℕ → Run ℕ
scan [] lest = fault
scan (b ∷ bs) zero = done 0
scan (b ∷ bs) (suc lest) = if b == 0 then done 0 else (scan bs lest >>= λ n. done (suc n))

-- `for (; pd <= pde; pd++) *pd = '\0';` with `n` cells left up to and including `*pde`.
unfoldable pub clear : ℕ → List ℕ → Run (List ℕ)
clear zero bs = done bs
clear (suc n) [] = fault
clear (suc n) (b ∷ bs) = clear n bs >>= λ r. done (0 ∷ r)

-- `for (ps = src; *ps != '\0' && pd < pde; pd++, ps++) *pd = *ps;`, then the clearing loop; the
-- last argument is `pde - pd`, and `src` is given by its text.
unfoldable pub copy : List ℕ → List ℕ → ℕ → Run (List ℕ)
unfolding clear
copy bs [] n = clear (suc n) bs
copy bs (c ∷ cs) zero = clear 1 bs
copy [] (c ∷ cs) (suc n) = fault
copy (b ∷ bs) (c ∷ cs) (suc n) = copy bs cs n >>= λ r. done (c ∷ r)

-- The array after the call, and the value returned.
unfoldable pub mystrlcat : List ℕ → List ℕ → ℕ → Run (List ℕ × ℕ)
unfolding scan copy
mystrlcat dst src size = scan dst size >>= λ dlen.
    if size - dlen == 0
    then done (dst, dlen + length src)
    else (copy (drop dlen dst) src (size - 1 - dlen) >>= λ r.
        done (take dlen dst ++ r, dlen + length src))

is_crlf : ℕ → Bool
is_crlf c = c == b'\r' || c == b'\n'

-- `if ((ptr = strpbrk(buf, "\r\n")) != NULL) *ptr = '\0';` The search ends at the first NUL; without
-- one it runs off the array.
unfoldable pub cut_line : List ℕ → Run (List ℕ)
unfolding is_crlf
cut_line [] = fault
cut_line (b ∷ bs) =
    if b == 0
    then done (b ∷ bs)
    else if is_crlf b
    then done (0 ∷ bs)
    else (cut_line bs >>= λ r. done (b ∷ r))
