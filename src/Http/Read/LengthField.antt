-- ===== src/Http/Read/LengthField.antt =====
-- The `Content-Length` field: how it is written, and that it is read as the length.
use network_program.Prelude.{
  ℕ, zero, suc, ◌+◌, ◌/◌, ◌%◌, ◌^◌, ◌≤◌, ◌<◌, ◌≡◌, refl, ◌∙◌, ◌≢◌, inl, inr, true, false, List, [],
  ◌∷◌, ◌++◌, arith, ◌==◌, ne→==, Bool-cases, length, All,
}
use network_program.Http.{str, HeaderField, ok, equal_ignoring_case}
use network_program.Http.Number.{nonneg, long_max, atol, digits_of, decimal}
use network_program.Http.Number.Laws.{atol-decimal}
use network_program.Http.Read.{content_length, length_of_value, lookup_header_field_value}
use network_program.Http.Read.Fields.{crlf, IsClean, IsField, NoBlankFirst, as_read}

digits_of-All :
    (P : ℕ → Type 0) (fuel n : ℕ) (rest : List ℕ)
    → ((d : ℕ) → d < 10 → P (b'0' + d))
    → All P rest
    → All P (digits_of fuel n rest)
unfolding digits_of
digits_of-All P zero n rest p h = h
digits_of-All P (suc fuel) n rest p h = elim (Bool-cases (n / 10 == 0)) [
  | inl small ↦ rw small (p (n % 10) (omega arith), h)
  | inr large ↦
      rw large
        (digits_of-All P fuel (n / 10) ((b'0' + n % 10) ∷ rest) p (p (n % 10) (omega arith), h))
]

pub decimal-IsClean : (n : ℕ) → IsClean (decimal n)
unfolding decimal
decimal-IsClean n = record {
  non_nul = digits_of-All (λ c. c ≢ 0) (suc n) n [] (λ d h. omega arith) tt;
  no_newline =
      digits_of-All (λ c. (c == b'\n') ≡ false) (suc n) n []
        (λ d h. ne→== (b'0' + d) b'\n' (omega arith)) tt;
}

-- The field that states the length of the body.
abbrev pub length_field : ℕ → HeaderField
length_field n = record { name = str "Content-Length"; value = decimal n }

length_field-names : equal_ignoring_case (str "Content-Length") (str "Content-Length") ≡ true
unfolding equal_ignoring_case
length_field-names = refl

pub content_length-found :
    (h : HeaderField) (header : List HeaderField)
    → equal_ignoring_case h.name (str "Content-Length") ≡ true
    → content_length (h ∷ header) ≡ length_of_value h.value
unfolding content_length
content_length-found h header e = rw (e, content_length, lookup_header_field_value) refl

pub length_of_value-nonneg : (v : List ℕ) (n : ℕ) → atol v ≡ nonneg n → length_of_value v ≡ ok n
unfolding length_of_value
length_of_value-nonneg v n e = rw (e, length_of_value) refl

pub content_length-length_field :
    (n : ℕ) (header : List HeaderField)
    → n ≤ long_max
    → content_length (as_read (length_field n) ∷ header) ≡ ok n
content_length-length_field n header small =
    content_length-found (as_read (length_field n)) header length_field-names
    ∙ length_of_value-nonneg (decimal n ++ crlf) n (atol-decimal n crlf small refl)

length-digits_of :
    (fuel n k : ℕ) (rest : List ℕ)
    → n < 10 ^ k
    → length (digits_of fuel n rest) ≤ suc k + length rest
unfolding digits_of
length-digits_of zero n k rest h = omega arith
length-digits_of (suc fuel) n zero rest h = ground arith
length-digits_of (suc fuel) n (suc k) rest h = elim (Bool-cases (n / 10 == 0)) [
  | inl small ↦ rw small (omega arith)
  | inr large ↦
      rw large
        (omega (arith, length-digits_of fuel (n / 10) k ((b'0' + n % 10) ∷ rest) (omega arith)))
]

digits_of-NoBlankFirst :
    (fuel n : ℕ) (rest : List ℕ) → NoBlankFirst rest → NoBlankFirst (digits_of fuel n rest)
unfolding digits_of
digits_of-NoBlankFirst zero n rest h = h
digits_of-NoBlankFirst (suc fuel) n rest h =
    let digit : NoBlankFirst ((b'0' + n % 10) ∷ rest) = ground arith in
    elim (Bool-cases (n / 10 == 0)) [
      | inl small ↦ rw small digit
      | inr large ↦ rw large (digits_of-NoBlankFirst fuel (n / 10) ((b'0' + n % 10) ∷ rest) digit)
    ]

length-decimal : (n : ℕ) → n ≤ long_max → length (decimal n) < 22
unfolding decimal
length-decimal n small = omega (arith, length-digits_of (suc n) n 19 [] (omega arith))

decimal-NoBlankFirst : (n : ℕ) → NoBlankFirst (decimal n)
unfolding decimal
decimal-NoBlankFirst n = digits_of-NoBlankFirst (suc n) n [] tt

pub length_field-IsField : (n : ℕ) → n ≤ long_max → IsField (length_field n)
length_field-IsField n small = record {
  name_clean = record { non_nul = omega arith; no_newline = ground arith };
  value_clean = decimal-IsClean n;
  no_colon = ground arith;
  name_ne_nil = λ p. cc;
  no_blank = decimal-NoBlankFirst n;
  fits = omega (arith, length-decimal n small);
}

-- A field of another name is passed over.
pub content_length-passes :
    (h : HeaderField) (header : List HeaderField)
    → equal_ignoring_case h.name (str "Content-Length") ≡ false
    → content_length (h ∷ header) ≡ content_length header
unfolding content_length
content_length-passes h header e = rw (e, content_length, lookup_header_field_value) refl
