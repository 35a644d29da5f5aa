-- ===== src/CString/Strlcat.antt =====
-- What `mystrlcat` does to an array that holds a text.
use network_program.Prelude.{
  ℕ, zero, suc, ◌+◌, ◌-◌, ◌≤◌, ◌<◌, ◌≡◌, refl, sym, ap, ◌∙◌, List, [], ◌∷◌, ◌++◌, append_assoc,
  arith, eq→==, ne→==, length, take, drop, replicate, length-append, length-take, length-drop,
  length-replicate, take-append, drop-append, take-append_ge, drop-append_ge, take-nil, done,
}
use network_program.CString.{text, scan, clear, copy, mystrlcat}
use network_program.CString.Text.{NonNul, text-append_nul, NonNul-append, NonNul-take}

scan_text :
    (s rest : List ℕ) (size : ℕ)
    → NonNul s
    → length s < size
    → scan (s ++ 0 ∷ rest) size ≡ done (length s)
unfolding scan
scan_text [] rest zero h lt = elim lt [ ]
scan_text [] rest (suc n) h lt = refl
scan_text (c ∷ s) rest zero h lt = elim lt [ ]
scan_text (c ∷ s) rest (suc n) h lt = ground (arith, scan_text s rest n h.1)

scan_full : (s rest : List ℕ) (b : ℕ) → NonNul s → scan (s ++ b ∷ rest) (length s) ≡ done (length s)
unfolding scan
scan_full [] rest b h = refl
scan_full (c ∷ s) rest b h = ground (arith, scan_full s rest b h.1)

clear_lem : (n : ℕ) (bs : List ℕ) → n ≤ length bs → clear n bs ≡ done (replicate n 0 ++ drop n bs)
unfolding clear
clear_lem zero bs h = refl
clear_lem (suc n) [] h = elim h [ ]
clear_lem (suc n) (b ∷ bs) h = rw (clear_lem n bs (omega arith))

-- What the copy leaves from `pd` on: as much of `src` as fits before `pde`, NULs up to `pde`, and
-- the cells behind it as they were.
abbrev copied : List ℕ → List ℕ → ℕ → List ℕ
copied bs src n = take n src ++ 0 ∷ (replicate (n - length src) 0 ++ drop (suc n) bs)

copy_lem : (bs src : List ℕ) (n : ℕ) → n < length bs → copy bs src n ≡ done (copied bs src n)
unfolding copy
copy_lem bs [] n h = let e : n - 0 ≡ n = omega arith in rw (take-nil n, e) (clear_lem (suc n) bs h)
copy_lem bs (c ∷ cs) zero h =
    let e : 0 - suc (length cs) ≡ 0 = omega arith in rw e (clear_lem 1 bs h)
copy_lem [] (c ∷ cs) (suc n) h = elim h [ ]
copy_lem (b ∷ bs) (c ∷ cs) (suc n) h =
    let e : suc n - suc (length cs) ≡ n - length cs = omega arith in
    rw (e, copy_lem bs cs n (omega arith))

length-copied : (bs src : List ℕ) (n : ℕ) → n < length bs → length (copied bs src n) ≡ length bs
length-copied bs src n h = omega (
  arith,
  length-append (take n src) (0 ∷ (replicate (n - length src) 0 ++ drop (suc n) bs)),
  length-append (replicate (n - length src) 0) (drop (suc n) bs),
  length-take n src,
  length-replicate {A = ℕ} (n - length src) 0,
  length-drop (suc n) bs,
)

drop-replicate : (n : ℕ) (bs : List ℕ) → drop n (replicate n 0 ++ bs) ≡ bs
drop-replicate zero bs = refl
drop-replicate (suc n) bs = drop-replicate n bs

drop-copied :
    (bs src : List ℕ) (n : ℕ) → n < length bs → drop (suc n) (copied bs src n) ≡ drop (suc n) bs
drop-copied bs [] n h =
    let e : n - 0 ≡ n = omega arith in rw (take-nil n, e) (drop-replicate n (drop (suc n) bs))
drop-copied bs (c ∷ cs) zero h = let e : 0 - suc (length cs) ≡ 0 = omega arith in rw e refl
drop-copied [] (c ∷ cs) (suc n) h = elim h [ ]
drop-copied (b ∷ bs) (c ∷ cs) (suc n) h =
    let e : suc n - suc (length cs) ≡ n - length cs = omega arith in
    rw e (drop-copied bs cs n (omega arith))

-- The array that `mystrlcat` leaves.
abbrev pub joined : List ℕ → List ℕ → List ℕ → ℕ → List ℕ
joined s junk src size = s ++ copied (0 ∷ junk) src (size - 1 - length s)

module _ (s junk src : List ℕ) (size : ℕ) (hs : NonNul s) (lt : length s < size)
    (fits : size ≤ length s + suc (length junk)) where
  mystrlcat-joined :
      mystrlcat (s ++ 0 ∷ junk) src size ≡ done (joined s junk src size, length s + length src)
  unfolding mystrlcat
  mystrlcat-joined = rw (
    scan_text s junk size hs lt,
    ne→== (size - length s) 0 (omega arith),
    drop-append s (0 ∷ junk),
    take-append s (0 ∷ junk),
    copy_lem (0 ∷ junk) src (size - 1 - length s) (omega arith),
  )

  text-joined : NonNul src → text (joined s junk src size) ≡ take (size - 1) (s ++ src)
  text-joined hsrc =
      rw
        (
          take-append_ge (size - 1) s src (omega arith),
          ← append_assoc s (take (size - 1 - length s) src) (0 ∷ _),
        )
        (text-append_nul (s ++ take (size - 1 - length s) src) _
          (NonNul-append s _ hs (NonNul-take (size - 1 - length s) src hsrc)))

  length-joined : length (joined s junk src size) ≡ length (s ++ 0 ∷ junk)
  length-joined = omega (
    arith,
    length-append s (copied (0 ∷ junk) src (size - 1 - length s)),
    length-append s (0 ∷ junk),
    length-copied (0 ∷ junk) src (size - 1 - length s) (omega arith),
  )

  drop-joined : drop size (joined s junk src size) ≡ drop size (s ++ 0 ∷ junk)
  drop-joined =
      let e : size - length s ≡ suc (size - 1 - length s) = omega arith in
      drop-append_ge size s (copied (0 ∷ junk) src (size - 1 - length s)) (omega arith)
      ∙ ap (λ k. drop k (copied (0 ∷ junk) src (size - 1 - length s))) e
      ∙ drop-copied (0 ∷ junk) src (size - 1 - length s) (omega arith)
      ∙ ap (λ k. drop k (0 ∷ junk)) (sym e)
      ∙ sym (drop-append_ge size s (0 ∷ junk) (omega arith))

-- On an array that holds the text `s` and is at least `size` bytes long, with room for the NUL,
-- `mystrlcat` appends the text `src`, cut so that the result and its NUL take at most `size` bytes;
-- it returns the length of the whole joined text, and writes nothing behind the first `size` bytes.
pub mystrlcat_lem :
    (s junk src : List ℕ) (size : ℕ)
    → NonNul s
    → NonNul src
    → length s < size
    → size ≤ length s + suc (length junk)
    → (buf : List ℕ) × (mystrlcat (s ++ 0 ∷ junk) src size ≡ done (buf, length s + length src))
      × (text buf ≡ take (size - 1) (s ++ src))
      × (length buf ≡ length (s ++ 0 ∷ junk))
      × (drop size buf ≡ drop size (s ++ 0 ∷ junk))
mystrlcat_lem s junk src size hs hsrc lt fits = (
  joined s junk src size,
  mystrlcat-joined s junk src size hs lt fits,
  text-joined s junk src size hs lt fits hsrc,
  length-joined s junk src size hs lt fits,
  drop-joined s junk src size hs lt fits,
)

-- On an array with no NUL in its first `size` bytes, and a further byte, `mystrlcat` changes nothing
-- and returns `size` and the length of the text that it was to append.
pub mystrlcat_full :
    (s junk src : List ℕ) (b : ℕ)
    → NonNul s
    → mystrlcat (s ++ b ∷ junk) src (length s) ≡ done (s ++ b ∷ junk, length s + length src)
unfolding mystrlcat
mystrlcat_full s junk src b hs =
    rw (scan_full s junk b hs, eq→== (length s - length s) 0 (omega arith))
