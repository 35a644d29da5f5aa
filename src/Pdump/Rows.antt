-- ===== src/Pdump/Rows.antt =====
-- Which bytes the data dump shows.
use network_program.Prelude.{
  ℕ, zero, suc, ◌+◌, ◌-◌, ◌/◌, ◌≤◌, ◌<◌, min, ◌≡◌, refl, sym, ap, ◌∙◌, inl, inr, true, List, [],
  ◌∷◌, ◌++◌, arith, ltb, leb, ltb→lt, ltb→ge, Bool-cases, length, take, drop, All, length-take,
  length-drop, take-nil, done,
}
use network_program.Pdump.{print_rows, print_data}

abbrev pub concat : List (List ℕ) → List ℕ
concat [] = []
concat (r ∷ rows) = r ++ concat rows

-- How many bytes are shown when the count of the outer loop stands at `i`.
abbrev shown : ℕ → ℕ → ℕ
shown i size = (size - i) - (size - i) / 17

-- A row has 1 to 16 bytes.
abbrev pub IsRow : List ℕ → Type 0
IsRow r = (0 < length r) × (length r ≤ 16)

pub le→leb : (a b : ℕ) → a ≤ b → leb a b ≡ true
le→leb a b h = ground arith

take-sum : (n k : ℕ) (xs : List ℕ) → take (n + k) xs ≡ take n xs ++ take k (drop n xs)
take-sum zero k xs = ap (λ m. take m xs) (omega arith)
take-sum (suc n) k [] = take-nil (suc n + k) ∙ sym (take-nil k)
take-sum (suc n) k (x ∷ xs) =
    let e : suc n + k ≡ suc (n + k) = omega arith in
    ap (λ m. take m (x ∷ xs)) e ∙ ap (λ t. x ∷ t) (take-sum n k xs)

print_rows-shown :
    (fuel : ℕ) (mem : List ℕ) (i size : ℕ)
    → length mem < fuel
    → shown i size ≤ length mem
    → (rows : List (List ℕ)) × (print_rows fuel mem i size ≡ done rows)
      × (concat rows ≡ take (shown i size) mem)
      × All IsRow rows
unfolding print_rows
print_rows-shown zero mem i size h le = elim h [ ]
print_rows-shown (suc fuel) mem i size h le = elim (Bool-cases (ltb i size)) [
  | inr over ↦
      let none_left : shown i size ≡ 0 = omega (arith, ltb→ge i size over) in
      ([], rw over refl, sym (ap (λ k. take k mem) none_left), tt)
  | inl more ↦
      let lt = ltb→lt i size more in
      let n = min 16 (size - i) in
      let splits : shown i size ≡ n + shown (i + n + 1) size = omega arith in
      let fits : n ≤ length mem = omega arith in
      let room : shown (i + n + 1) size ≤ length (drop n mem) = omega (arith, length-drop n mem) in
      let (rows, runs, bytes, each) =
        print_rows-shown fuel (drop n mem) (i + n + 1) size (omega (arith, length-drop n mem))
          room in
      (
        take n mem ∷ rows,
        rw (more, le→leb n (length mem) fits, runs) refl,
        ap (λ k. take n mem ++ k) bytes
            ∙ sym (take-sum n (shown (i + n + 1) size) mem)
            ∙ ap (λ k. take k mem) (sym splits),
        ((omega (arith, length-take n mem), omega (arith, length-take n mem)), each),
      )
]

-- `print_data` of `size` bytes ends, and shows, in rows of 1 to 16 bytes, the first `size - size / 17`
-- bytes in their order: one byte in seventeen is lost at the end, since the loop over the rows counts
-- one more than the bytes of a row. All bytes are shown where there are at most 16.
pub print_data-shown :
    (mem : List ℕ) (size : ℕ)
    → size ≤ length mem
    → (rows : List (List ℕ)) × (print_data mem size ≡ done rows)
      × (concat rows ≡ take (size - size / 17) mem)
      × All IsRow rows
unfolding print_data
print_data-shown mem size le =
    let (rows, runs, bytes, each) =
      print_rows-shown (suc (length mem)) mem 0 size (omega arith) (omega arith) in
    let same : shown 0 size ≡ size - size / 17 = omega arith in
    (rows, runs, bytes ∙ ap (λ k. take k mem) same, each)
