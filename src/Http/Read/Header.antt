-- ===== src/Http/Read/Header.antt =====
-- Where the header of a request ends (httpd/httpd2.c, `read_request_line` and the loop over
-- `read_header_field`).
use network_program.Prelude.{
  ℕ, zero, suc, ◌≡◌, refl, ap, ◌∙◌, ◌⊎◌, inl, inr, true, Option, none, some, List, [], ◌∷◌, ◌==◌,
  ==→eq, Bool-cases, Option-cases,
}
use mathlib.Core.Path.{subst}
use network_program.Http.{HeaderField, ok, >>>-eq-ok, ok-injective, equal_text, split_at}
use network_program.Http.Read.{
  fgets, starts_newline, ends_header, parse_header_field, read_header_field, after_field,
  read_header, RequestLine, read_request_line, parse_request_line,
}

-- An empty line, as `fgets` gives it.
abbrev pub IsEmptyLine : List ℕ → Type 0
IsEmptyLine buf = ((more : List ℕ) × (buf ≡ b'\n' ∷ more)) ⊎ (buf ≡ b'\r' ∷ b'\n' ∷ [])

-- Behind `k` lines that are not empty, and an empty one.
unfoldable pub EndsAfter : ℕ → List ℕ → List ℕ → Type 0
EndsAfter zero input rest = (buf : List ℕ) × (fgets input ≡ some (buf, rest)) × IsEmptyLine buf
EndsAfter (suc k) input rest =
    (buf : List ℕ) × (mid : List ℕ) × (fgets input ≡ some (buf, mid))
    × (¬ IsEmptyLine buf)
    × EndsAfter k mid rest

-- Behind the request line, the lines of the fields, and the first empty line.
abbrev pub EndsHeader : List ℕ → List ℕ → Type 0
EndsHeader input rest =
    (buf : List ℕ) × (mid : List ℕ) × (fgets input ≡ some (buf, mid))
    × (k : ℕ) × EndsAfter k mid rest

equal_text-eq : (s t : List ℕ) → equal_text s t ≡ true → s ≡ t
unfolding equal_text
equal_text-eq [] [] h = refl
equal_text-eq [] (y ∷ ys) h = absurd (cc)
equal_text-eq (x ∷ xs) [] h = absurd (cc)
equal_text-eq (x ∷ xs) (y ∷ ys) h = elim (Bool-cases (x == y)) [
  | inl same ↦ let here = ==→eq x y same in let there = equal_text-eq xs ys (rw same at h) in cc
  | inr differs ↦ absurd (cc (rw differs at h))
]

ends_header-IsEmptyLine : (buf : List ℕ) → ends_header buf ≡ true → IsEmptyLine buf
unfolding ends_header starts_newline
ends_header-IsEmptyLine [] h = inr (equal_text-eq [] (b'\r' ∷ b'\n' ∷ []) h)
ends_header-IsEmptyLine (c ∷ cs) h = elim (Bool-cases (c == b'\n')) [
  | inl nl ↦ inl (cs, ap (λ k. k ∷ cs) (==→eq c b'\n' nl))
  | inr other_byte ↦ inr (equal_text-eq (c ∷ cs) (b'\r' ∷ b'\n' ∷ []) (rw other_byte at h))
]

IsEmptyLine-ends_header : (buf : List ℕ) → IsEmptyLine buf → ends_header buf ≡ true
unfolding ends_header starts_newline equal_text
IsEmptyLine-ends_header buf (inl (more, e)) = rw e refl
IsEmptyLine-ends_header buf (inr e) = rw e refl

-- What is found on a line: its field, or that it is the empty one.
abbrev Found : Option HeaderField → List ℕ → Type 0
Found none buf = IsEmptyLine buf
Found (some field) buf = ¬ IsEmptyLine buf

parse_header_field-Found :
    (buf : List ℕ) (h : Option HeaderField) → parse_header_field buf ≡ ok h → Found h buf
unfolding parse_header_field
parse_header_field-Found buf h e = elim (Bool-cases (ends_header buf)) [
  | inl empty ↦
      let is : none ≡ h = ok-injective none h (rw empty at e) in
      subst (λ k. Found k buf) is (ends_header-IsEmptyLine buf empty)
  | inr line ↦ elim (Option-cases (split_at b':' buf)) [
    | inl none_left ↦ absurd (cc (rw (line, none_left, parse_header_field) at e))
    | inr ((name, p), colon) ↦
        let is = ok-injective _ h (rw (line, colon, parse_header_field) at e) in
        subst (λ k. Found k buf) is (λ empty. let there = IsEmptyLine-ends_header buf empty in cc)
  ]
]

read_header_field-Found :
    (input mid : List ℕ) (h : Option HeaderField)
    → read_header_field input ≡ ok (h, mid)
    → (buf : List ℕ) × (fgets input ≡ some (buf, mid)) × Found h buf
unfolding read_header_field
read_header_field-Found input mid h e = elim (Option-cases (fgets input)) [
  | inl eof ↦ absurd (cc (rw (eof, read_header_field) at e))
  | inr ((buf, rest), line) ↦
      let (a, parsed, last) =
        >>>-eq-ok (parse_header_field buf) (λ k. ok (k, rest))
          (rw (line, read_header_field) at e) in
      let same : (a, rest) ≡ (h, mid) = ok-injective (a, rest) (h, mid) last in
      (
        buf,
        line ∙ ap (λ p. some (buf, p.1)) same,
        subst (λ p. Found p.0 buf) same (parse_header_field-Found buf a parsed),
      )
]

after_field-EndsAfter :
    (fuel : ℕ) (header hs : List HeaderField) (input mid rest buf : List ℕ) (h : Option HeaderField)
    → fgets input ≡ some (buf, mid)
    → Found h buf
    → after_field header (read_header fuel) (h, mid) ≡ ok (hs, rest)
    → ((field : HeaderField)
        → read_header fuel (field ∷ header) mid ≡ ok (hs, rest)
        → (k : ℕ) × EndsAfter k mid rest)
    → (k : ℕ) × EndsAfter k input rest
unfolding EndsAfter
after_field-EndsAfter fuel header hs input mid rest buf none line found e later =
    let same = ok-injective (header, mid) (hs, rest) e in
    (0, (buf, line ∙ ap (λ p. some (buf, p.1)) same, found))
after_field-EndsAfter fuel header hs input mid rest buf (some field) line found e later =
    let (k, more) = later field e in (suc k, (buf, mid, line, found, more))

pub read_header-EndsAfter :
    (fuel : ℕ) (header hs : List HeaderField) (input rest : List ℕ)
    → read_header fuel header input ≡ ok (hs, rest)
    → (k : ℕ) × EndsAfter k input rest
unfolding read_header
read_header-EndsAfter zero header hs input rest e = absurd (cc)
read_header-EndsAfter (suc fuel) header hs input rest e =
    let ((h, mid), field, more) =
      >>>-eq-ok (read_header_field input) (after_field header (read_header fuel)) e in
    let (buf, line, found) = read_header_field-Found input mid h field in
    after_field-EndsAfter fuel header hs input mid rest buf h line found more
      (λ f same. read_header-EndsAfter fuel (f ∷ header) hs mid rest same)

read_request_line-fgets :
    (input rest : List ℕ) (l : RequestLine)
    → read_request_line input ≡ ok (l, rest)
    → (buf : List ℕ) × (fgets input ≡ some (buf, rest))
unfolding read_request_line
read_request_line-fgets input rest l e = elim (Option-cases (fgets input)) [
  | inl eof ↦ absurd (cc (rw (eof, read_request_line) at e))
  | inr ((buf, mid), line) ↦
      let (a, parsed, last) =
        >>>-eq-ok (parse_request_line buf) (λ k. ok (k, mid)) (rw (line, read_request_line) at e) in
      let same : (a, mid) ≡ (l, rest) = ok-injective (a, mid) (l, rest) last in
      (buf, line ∙ ap (λ p. some (buf, p.1)) same)
]

pub read_header-EndsHeader :
    (fuel : ℕ) (hs : List HeaderField) (input mid rest : List ℕ) (l : RequestLine)
    → read_request_line input ≡ ok (l, mid)
    → read_header fuel [] mid ≡ ok (hs, rest)
    → EndsHeader input rest
read_header-EndsHeader fuel hs input mid rest l line header =
    let (buf, first) = read_request_line-fgets input mid l line in
    let (k, ends) = read_header-EndsAfter fuel [] hs mid rest header in (buf, mid, first, k, ends)
