-- ===== src/CString/Text.antt =====
-- The text of an array, and cutting it at the end of its line.
use network_program.Prelude.{
  ℕ, zero, suc, ◌+◌, ◌≤◌, ◌≡◌, refl, ◌≢◌, inl, inr, ◌||◌, List, [], ◌∷◌, ◌++◌, arith, ◌==◌,
  if◌then◌else◌, ==→ne, Bool-cases, length, take, All, length-append, done,
}
use network_program.CString.{text, cut_line}

-- No byte of a text is NUL.
abbrev pub NonNul : List ℕ → Type 0
NonNul = All (λ b. b ≢ 0)

pub text-append_nul : (s rest : List ℕ) → NonNul s → text (s ++ 0 ∷ rest) ≡ s
text-append_nul [] rest h = refl
text-append_nul (c ∷ s) rest h = ground (arith, text-append_nul s rest h.1)

pub NonNul-append : (s t : List ℕ) → NonNul s → NonNul t → NonNul (s ++ t)
NonNul-append [] t h k = k
NonNul-append (c ∷ s) t h k = (h.0, NonNul-append s t h.1 k)

pub NonNul-take : (n : ℕ) (s : List ℕ) → NonNul s → NonNul (take n s)
NonNul-take zero s h = tt
NonNul-take (suc n) [] h = tt
NonNul-take (suc n) (c ∷ s) h = (h.0, NonNul-take n s h.1)

-- The bytes before the first CR or LF.
abbrev pub before_crlf : List ℕ → List ℕ
before_crlf [] = []
before_crlf (b ∷ bs) = if b == b'\r' || b == b'\n' then [] else b ∷ before_crlf bs

pub NonNul-before_crlf : (s : List ℕ) → NonNul s → NonNul (before_crlf s)
NonNul-before_crlf [] h = tt
NonNul-before_crlf (b ∷ bs) h = ground (arith, NonNul-before_crlf bs h.1)

pub length-before_crlf : (s : List ℕ) → length (before_crlf s) ≤ length s
length-before_crlf [] = omega arith
length-before_crlf (b ∷ bs) = ground (arith, length-before_crlf bs)

-- The array after the cut: the text up to its first CR or LF, a NUL, and the rest as it was.
abbrev pub cut_rest : List ℕ → List ℕ → List ℕ
cut_rest [] rest = rest
cut_rest (b ∷ bs) rest = if b == b'\r' || b == b'\n' then bs ++ 0 ∷ rest else cut_rest bs rest

pub cut_line_lem :
    (s rest : List ℕ)
    → NonNul s
    → cut_line (s ++ 0 ∷ rest) ≡ done (before_crlf s ++ 0 ∷ cut_rest s rest)
unfolding cut_line
cut_line_lem [] rest h = refl
cut_line_lem (b ∷ bs) rest h = ground (arith, cut_line_lem bs rest h.1)

pub length-cut_rest :
    (s rest : List ℕ) → length (before_crlf s) + length (cut_rest s rest) ≡ length s + length rest
length-cut_rest [] rest = omega arith
length-cut_rest (b ∷ bs) rest = ground (arith, length-cut_rest bs rest, length-append bs (0 ∷ rest))

pub NonNul-text : (bs : List ℕ) → NonNul (text bs)
NonNul-text [] = tt
NonNul-text (b ∷ bs) = elim (Bool-cases (b == 0)) [
  | inl z ↦ rw z tt
  | inr nz ↦ rw nz (==→ne b 0 nz, NonNul-text bs)
]

-- What stands behind the text in an array that has a NUL behind `bs`.
abbrev pub behind_text : List ℕ → List ℕ → List ℕ
behind_text [] rest = rest
behind_text (b ∷ bs) rest = if b == 0 then bs ++ 0 ∷ rest else behind_text bs rest

pub append-text : (bs rest : List ℕ) → bs ++ 0 ∷ rest ≡ text bs ++ 0 ∷ behind_text bs rest
append-text [] rest = refl
append-text (b ∷ bs) rest = ground (arith, append-text bs rest)

pub length-text : (bs : List ℕ) → length (text bs) ≤ length bs
length-text [] = omega arith
length-text (b ∷ bs) = ground (arith, length-text bs)
