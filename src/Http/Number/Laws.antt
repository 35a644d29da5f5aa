-- ===== src/Http/Number/Laws.antt =====
-- Reading a printed number gives the number.
use network_program.Prelude.{
  ℕ, zero, suc, ◌+◌, ◌-◌, ◌*◌, ◌/◌, ◌%◌, ◌^◌, ◌≤◌, ◌<◌, ◌≡◌, refl, ap, ◌∙◌, ◌⊎◌, inl, inr, true,
  false, List, [], ◌∷◌, ◌++◌, arith, ◌==◌, lt→ltb, ==→eq, ==→ne, ne→==, Bool-cases,
}
use network_program.Integer.{pos}
use network_program.Http.Number.{read_signed, negative}
use network_program.Http.Number.{
  nonneg, to_int, long_max, is_digit, is_space, read_digits, saturate, atol, digits_of, decimal,
}

read_digits-digits_of :
    (fuel n : ℕ) (rest : List ℕ)
    → n < fuel
    → read_digits 0 (digits_of fuel n rest) ≡ read_digits n rest
unfolding digits_of
read_digits-digits_of zero n rest h = elim h [ ]
read_digits-digits_of (suc fuel) n rest h =
    let digit : is_digit (b'0' + n % 10) ≡ true = ground arith in
    let low : b'0' + n % 10 - b'0' ≡ n % 10 = omega arith in
    elim (Bool-cases (n / 10 == 0)) [
      | inl small ↦
          let e : 0 * 10 + (b'0' + n % 10 - b'0') ≡ n = omega (arith, ==→eq (n / 10) 0 small) in
          rw (small, digit) (ap (λ k. read_digits k rest) e)
      | inr large ↦
          let ne = ==→ne (n / 10) 0 large in
          let e : n / 10 * 10 + (b'0' + n % 10 - b'0') ≡ n = omega arith in
          rw large (
            read_digits-digits_of fuel (n / 10) ((b'0' + n % 10) ∷ rest) (omega arith)
            ∙ rw digit (ap (λ k. read_digits k rest) e))
    ]

-- A printed number begins with a digit.
data StartsWithDigit : List ℕ → Type 0 where
  starts : (c : ℕ) (cs : List ℕ) → is_digit c ≡ true → StartsWithDigit (c ∷ cs)

digits_of-StartsWithDigit :
    (fuel n : ℕ) (rest : List ℕ)
    → (0 < fuel) ⊎ StartsWithDigit rest
    → StartsWithDigit (digits_of fuel n rest)
unfolding digits_of
digits_of-StartsWithDigit zero n rest (inl h) = elim h [ ]
digits_of-StartsWithDigit zero n rest (inr s) = s
digits_of-StartsWithDigit (suc fuel) n rest h =
    let next = starts (b'0' + n % 10) rest (ground arith) in
    elim (Bool-cases (n / 10 == 0)) [
      | inl small ↦ rw small next
      | inr large ↦
          rw large (digits_of-StartsWithDigit fuel (n / 10) ((b'0' + n % 10) ∷ rest) (inr next))
    ]

atol-StartsWithDigit :
    (s : List ℕ) → StartsWithDigit s → atol s ≡ nonneg (saturate (read_digits 0 s))
unfolding atol
atol-StartsWithDigit _ (starts c cs digit) =
    let not_space : is_space c ≡ false = ground arith in
    let not_minus : (c == b'-') ≡ false = ground arith in
    let not_plus : (c == b'+') ≡ false = ground arith in rw (not_space, not_minus, not_plus)

-- What may stand behind a number: no digit.
abbrev pub NoDigitFirst : List ℕ → Type 0
NoDigitFirst [] = Unit {0}
NoDigitFirst (c ∷ cs) = is_digit c ≡ false

read_digits-NoDigitFirst : (n : ℕ) (rest : List ℕ) → NoDigitFirst rest → read_digits n rest ≡ n
read_digits-NoDigitFirst n [] h = refl
read_digits-NoDigitFirst n (c ∷ cs) h = rw h

digits_of-append :
    (fuel n : ℕ) (xs ys : List ℕ) → digits_of fuel n (xs ++ ys) ≡ digits_of fuel n xs ++ ys
unfolding digits_of
digits_of-append zero n xs ys = refl
digits_of-append (suc fuel) n xs ys =
    ground (arith, digits_of-append fuel (n / 10) ((b'0' + n % 10) ∷ xs) ys)

-- `atol` of a number as `%ld` prints it, up to the largest `long`, is the number, whatever follows
-- that does not begin with a digit.
pub atol-decimal :
    (n : ℕ) (rest : List ℕ) → n ≤ long_max → NoDigitFirst rest → atol (decimal n ++ rest) ≡ nonneg n
unfolding decimal
atol-decimal n rest small follow = rw (← digits_of-append (suc n) n [] rest) (
    atol-StartsWithDigit (digits_of (suc n) n rest)
      (digits_of-StartsWithDigit (suc n) n rest (inl (omega arith)))
    ∙ rw
        (read_digits-digits_of (suc n) n rest (omega arith), read_digits-NoDigitFirst n rest follow)
        (ap nonneg (omega arith)))

-- A minus sign in front of a printed number.
pub atol-minus : (n : ℕ) → 0 < n → n ≤ long_max → atol (b'-' ∷ decimal n) ≡ negative n
unfolding atol read_signed decimal
atol-minus n large small =
    let value : read_digits 0 (digits_of (suc n) n []) ≡ n =
      read_digits-digits_of (suc n) n [] (omega arith) in
    rw (value, ne→== n 0 (omega arith)) (ap negative (omega arith))

pub to_int-nonneg : (n : ℕ) → n < 2 ^ 31 → to_int (nonneg n) ≡ pos n
to_int-nonneg n small = let e : n % 2 ^ 32 ≡ n = omega arith in rw (e, lt→ltb n (2 ^ 31) small) refl
