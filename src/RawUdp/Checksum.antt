-- ===== src/RawUdp/Checksum.antt =====
-- The Internet checksum: it makes the one's complement sum of the words come out as 0xFFFF.
use network_program.Prelude.{
  ℕ, ◌+◌, ◌-◌, ◌%◌, ◌^◌, ◌<◌, ◌≡◌, refl, ◌∙◌, ◌≢◌, List, [], ◌∷◌, ◌++◌, arith, ◌==◌, if◌then◌else◌,
  length, All, All-append,
}
use network_program.RawUdp.{word, add_word, sum_words, fold_sum, checksum, le16}

abbrev pub IsBytes : List ℕ → Type 0
IsBytes = All (λ b. b < 256)

-- The sum of the words, with a zero byte behind an odd one.
abbrev pub total : List ℕ → ℕ
total [] = 0
total (b ∷ []) = b
total (b ∷ c ∷ bs) = word b c + total bs

-- Two sums that are the same in one's complement arithmetic.
abbrev Same : ℕ → ℕ → Type 0
Same a b = (a % 65535 ≡ b % 65535) × (a ≡ 0 → b ≡ 0) × (b ≡ 0 → a ≡ 0)

add_word_lem :
    (sum w : ℕ)
    → sum < 2 ^ 31
    → w < 2 ^ 16
    → (add_word sum w < 2 ^ 31) × Same (sum + w) (add_word sum w)
unfolding add_word
add_word_lem sum w hs hw = ground arith

sum_words_lem :
    (bs : List ℕ) (sum : ℕ)
    → sum < 2 ^ 31
    → IsBytes bs
    → (sum_words sum bs < 2 ^ 32) × Same (sum + total bs) (sum_words sum bs)
unfolding sum_words
sum_words_lem [] sum hs h = omega arith
sum_words_lem (b ∷ []) sum hs h = omega arith
sum_words_lem (b ∷ c ∷ bs) sum hs h =
    let (small, same) = add_word_lem sum (word b c) hs (omega arith) in
    let (small', same') = sum_words_lem bs (add_word sum (word b c)) small h.1.1 in
    (small', (omega arith, omega arith, omega arith))

fold_sum_lem : (s : ℕ) → s < 2 ^ 32 → (fold_sum 3 s < 2 ^ 16) × Same s (fold_sum 3 s)
unfolding fold_sum
fold_sum_lem s h = ground arith

folded : List ℕ → ℕ
folded bs = fold_sum 3 (sum_words 0 bs)

folded_lem : (bs : List ℕ) → IsBytes bs → (folded bs < 2 ^ 16) × Same (total bs) (folded bs)
unfolding folded
folded_lem bs h =
    let (small, same) = sum_words_lem bs 0 (omega arith) h in
    let (small', same') = fold_sum_lem (sum_words 0 bs) small in
    (small', (omega arith, omega arith, omega arith))

checksum-folded :
    (bs : List ℕ) → checksum bs ≡ (if folded bs == 0xFFFF then folded bs else 0xFFFF - folded bs)
unfolding checksum folded
checksum-folded bs = refl

-- For every string of bytes the checksum is a 16-bit number and not 0, and the sum of the words with
-- it is a multiple of 65535.
pub checksum_bounds :
    (bs : List ℕ)
    → IsBytes bs
    → (0 < checksum bs) × (checksum bs < 2 ^ 16) × ((total bs + checksum bs) % 65535 ≡ 0)
checksum_bounds bs h =
    let (small, same) = folded_lem bs h in
    rw (checksum-folded bs) (ground arith, ground arith, ground arith)

total-append :
    (pre rest : List ℕ) → length pre % 2 ≡ 0 → total (pre ++ rest) ≡ total pre + total rest
total-append [] rest e = omega arith
total-append (b ∷ []) rest e = absurd (omega arith)
total-append (b ∷ c ∷ pre) rest e = omega (arith, total-append pre rest (omega arith))

-- A packet whose checksum field lies at an even place and was filled with the checksum of the packet
-- with 0 there is accepted: its own checksum comes out as 0xFFFF.
pub checksum_verifies :
    (pre post : List ℕ)
    → IsBytes pre
    → IsBytes post
    → length pre % 2 ≡ 0
    → checksum (pre ++ (le16 (checksum (pre ++ 0 ∷ 0 ∷ post)) ++ post)) ≡ 0xFFFF
checksum_verifies pre post hpre hpost even =
    let c = checksum (pre ++ 0 ∷ 0 ∷ post) in
    let empty =
      All-append (λ b. b < 256) pre (0 ∷ 0 ∷ post) hpre (omega arith, (omega arith, hpost)) in
    let filled =
      All-append (λ b. b < 256) pre (le16 c ++ post) hpre (omega arith, (omega arith, hpost)) in
    let (pos, small, sums) = checksum_bounds (pre ++ 0 ∷ 0 ∷ post) empty in
    let (small', same) = folded_lem (pre ++ (le16 c ++ post)) filled in
    let t = total-append pre (0 ∷ 0 ∷ post) even in
    let t' = total-append pre (le16 c ++ post) even in
    let not_zero : folded (pre ++ (le16 c ++ post)) ≢ 0 = λ e. absurd (omega (arith, same.2 e)) in
    let all_ones : folded (pre ++ (le16 c ++ post)) ≡ 0xFFFF = omega arith in
    checksum-folded (pre ++ (le16 c ++ post)) ∙ rw (all_ones)
