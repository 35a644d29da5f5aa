-- ===== src/OneLine/Chunk.antt =====
-- The specification of one line of at most `n` bytes.
use network_program.Prelude.{
  ℕ, zero, suc, ◌≤◌, ◌<◌, ◌≡◌, refl, ap, Bool, true, false, List, [], ◌∷◌, ◌++◌, map, arith, ◌==◌,
  if◌then◌else◌, length, take, drop, All,
}
use network_program.OneLine.{Recv1, byte}

-- The bytes up to the first newline, that one included, or the first `n`.
abbrev pub chunk : ℕ → List ℕ → List ℕ
chunk zero l = []
chunk (suc n) [] = []
chunk (suc n) (c ∷ cs) = if c == b'\n' then c ∷ [] else c ∷ chunk n cs

-- Whether these bytes are enough to end a line of at most `n` bytes.
abbrev pub ends : ℕ → List ℕ → Bool
ends zero l = true
ends (suc n) [] = false
ends (suc n) (c ∷ cs) = if c == b'\n' then true else ends n cs

pub length-chunk : (n : ℕ) (l : List ℕ) → length (chunk n l) ≤ n
length-chunk zero l = omega arith
length-chunk (suc n) [] = omega arith
length-chunk (suc n) (c ∷ cs) = ground (arith, length-chunk n cs)

-- The socket hands over these bytes one by one.
abbrev pub bytes : List ℕ → List Recv1
bytes = map byte

abbrev pub NoNewline : List ℕ → Type 0
NoNewline = All (λ c. (c == b'\n') ≡ false)

pub chunk_short :
    (n : ℕ) (body next : List ℕ)
    → NoNewline body
    → length body < n
    → (chunk n (body ++ b'\n' ∷ next) ≡ body ++ b'\n' ∷ []) × (ends n (body ++ b'\n' ∷ next) ≡ true)
chunk_short zero body next h lt = elim lt [ ]
chunk_short (suc n) [] next h lt = (refl, refl)
chunk_short (suc n) (c ∷ body) next h lt =
    let (e, f) = chunk_short n body next h.1 (omega arith) in rw (h.0, e, f) (refl, refl)

pub chunk_long :
    (n : ℕ) (body next : List ℕ)
    → NoNewline body
    → n ≤ length body
    → (chunk n (body ++ next) ≡ take n body) × (ends n (body ++ next) ≡ true)
chunk_long zero body next h le = (refl, refl)
chunk_long (suc n) [] next h le = elim le [ ]
chunk_long (suc n) (c ∷ body) next h le =
    let (e, f) = chunk_long n body next h.1 (omega arith) in rw (h.0, e, f) (refl, refl)

pub NoNewline-take : (n : ℕ) (s : List ℕ) → NoNewline s → NoNewline (take n s)
NoNewline-take zero s h = tt
NoNewline-take (suc n) [] h = tt
NoNewline-take (suc n) (c ∷ s) h = (h.0, NoNewline-take n s h.1)

pub NoNewline-drop : (n : ℕ) (s : List ℕ) → NoNewline s → NoNewline (drop n s)
NoNewline-drop zero s h = h
NoNewline-drop (suc n) [] h = tt
NoNewline-drop (suc n) (c ∷ s) h = NoNewline-drop n s h.1

pub bytes-append : (l k : List ℕ) → bytes (l ++ k) ≡ bytes l ++ bytes k
bytes-append [] k = refl
bytes-append (c ∷ l) k = ap (◌∷◌ (byte c)) (bytes-append l k)

pub length-bytes : (l : List ℕ) → length (bytes l) ≡ length l
length-bytes [] = refl
length-bytes (c ∷ l) = ap suc (length-bytes l)
