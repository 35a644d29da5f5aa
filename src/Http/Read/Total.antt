-- ===== src/Http/Read/Total.antt =====
-- The reading of a header ends: its fuel is never used up.
use network_program.Prelude.{
  ℕ, zero, suc, ◌+◌, ◌-◌, ◌≤◌, ◌<◌, ◌≡◌, refl, sym, ap, ◌∙◌, ◌≢◌, inl, inr, Option, none, some,
  List, [], ◌∷◌, arith, Option-cases, length, drop, length-drop, drop-nil,
}
use mathlib.Core.Option.{some-injective}
use network_program.OneLine.Chunk.{chunk}
use network_program.Http.{
  HeaderField, no_fuel, Result, ok, exits, ◌>>>◌, >>>-eq-ok, >>>-ne-exits, line_buf_size,
}
use network_program.Http.Read.{
  fgets, parse_header_field, read_header_field, after_field, read_header,
}

chunk_pos : (n c : ℕ) (cs : List ℕ) → 0 < length (chunk (suc n) (c ∷ cs))
chunk_pos n c cs = ground arith

chunk-le : (n : ℕ) (l : List ℕ) → length (chunk n l) ≤ length l
chunk-le zero l = omega arith
chunk-le (suc n) [] = omega arith
chunk-le (suc n) (c ∷ cs) = ground (arith, chunk-le n cs)

-- The input behind a step is what is left of the input behind its first `taken` bytes.
pub record Takes (least : ℕ) (input rest : List ℕ) : Type 0 where
  pub taken : ℕ
  pub at_least : least ≤ taken
  pub at_most : taken ≤ length input
  pub left : rest ≡ drop taken input

pub Takes-shorter : (input rest : List ℕ) → Takes 1 input rest → length rest < length input
Takes-shorter input rest t =
    let n = length-drop t.taken input in omega (arith, n, ap length t.left, t.at_least, t.at_most)

pub drop-drop : (m n : ℕ) (l : List ℕ) → drop m (drop n l) ≡ drop (n + m) l
drop-drop m zero l = ap (λ k. drop k l) (omega arith)
drop-drop m (suc n) [] = drop-nil m ∙ sym (drop-nil (suc n + m))
drop-drop m (suc n) (x ∷ l) =
    let e : suc (n + m) ≡ suc n + m = omega arith in drop-drop m n l ∙ ap (λ k. drop k (x ∷ l)) e

pub Takes-trans :
    (a b : ℕ) {input mid rest : List ℕ}
    → Takes a input mid
    → Takes b mid rest
    → Takes (a + b) input rest
Takes-trans a b {input} {mid} {rest} t u =
    let n = length-drop t.taken input in
    record {
      taken = t.taken + u.taken;
      at_least = omega (arith, t.at_least, u.at_least);
      at_most = omega (arith, n, ap length t.left, t.at_most, u.at_most);
      left = u.left ∙ ap (drop u.taken) t.left ∙ drop-drop u.taken t.taken input;
    }

-- A successful read of a line takes at least one byte.
pub fgets-Takes : (input buf rest : List ℕ) → fgets input ≡ some (buf, rest) → Takes 1 input rest
fgets-Takes [] buf rest e = cc
fgets-Takes (b ∷ bs) buf rest e =
    let line = chunk (line_buf_size - 1) (b ∷ bs) in
    record {
      taken = length line;
      at_least = chunk_pos (line_buf_size - 2) b bs;
      at_most = chunk-le (line_buf_size - 1) (b ∷ bs);
      left = sym (ap (λ p. p.1) (some-injective _ _ e));
    }

parse_header_field-ne-no_fuel : (buf : List ℕ) → parse_header_field buf ≢ exits no_fuel
unfolding parse_header_field
parse_header_field-ne-no_fuel buf = ground arith

read_header_field-ne-no_fuel : (input : List ℕ) → read_header_field input ≢ exits no_fuel
unfolding read_header_field
read_header_field-ne-no_fuel input e = elim (Option-cases (fgets input)) [
  | inl eof ↦ cc (rw (eof, read_header_field) at e)
  | inr ((buf, rest), line) ↦
      >>>-ne-exits (parse_header_field buf) (λ k. ok (k, rest)) (parse_header_field-ne-no_fuel buf)
        (λ a _ p. cc) (rw (line, read_header_field) at e)
]

pub read_header_field-Takes :
    (input rest : List ℕ) (h : Option HeaderField)
    → read_header_field input ≡ ok (h, rest)
    → Takes 1 input rest
unfolding read_header_field
read_header_field-Takes input rest h e = elim (Option-cases (fgets input)) [
  | inl eof ↦ cc (rw (eof, read_header_field) at e)
  | inr ((buf, rest'), line) ↦
      let (a, _, same) =
        >>>-eq-ok (parse_header_field buf) (λ k. ok (k, rest'))
          (rw (line, read_header_field) at e) in
      let here : rest' ≡ rest = cc in rw (← here) (fgets-Takes input buf rest' line)
]

-- The two ways in which a round of the loop can go.
field_cases :
    (header : List HeaderField)
    (go : List HeaderField → List ℕ → Result (List HeaderField × List ℕ))
    (m : Result (Option HeaderField × List ℕ))
    → m ≢ exits no_fuel
    → ((k : HeaderField) (rest : List ℕ)
        → m ≡ ok (some k, rest)
        → go (k ∷ header) rest ≢ exits no_fuel)
    → (m >>> after_field header go) ≢ exits no_fuel
field_cases header go (exits r) fails goes = λ e. fails (ground arith)
field_cases header go (ok (none, rest)) fails goes = λ e. cc
field_cases header go (ok (some k, rest)) fails goes = goes k rest refl

-- Each field takes a byte at least, so more fuel than bytes is enough.
pub read_header-ne-no_fuel :
    (fuel : ℕ) (header : List HeaderField) (input : List ℕ)
    → length input < fuel
    → read_header fuel header input ≢ exits no_fuel
unfolding read_header
read_header-ne-no_fuel zero header input h = elim h [ ]
read_header-ne-no_fuel (suc fuel) header input h =
    field_cases header (read_header fuel) (read_header_field input)
      (read_header_field-ne-no_fuel input)
      (λ k rest e.
        read_header-ne-no_fuel fuel (k ∷ header) rest
          (omega (arith, Takes-shorter input rest (read_header_field-Takes input rest (some k) e))))
