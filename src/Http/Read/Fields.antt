-- ===== src/Http/Read/Fields.antt =====
-- The lines of a header, as a client writes them and as they are read.
use network_program.Prelude.{
  ℕ, zero, suc, ◌+◌, ◌-◌, ◌<◌, ◌≡◌, refl, sym, ap, ◌∙◌, ◌≢◌, false, ◌||◌, some, List, [], ◌∷◌, ◌++◌,
  append_assoc, arith, ◌==◌, length, drop, All, length-append, drop-append, All-append,
}
use mathlib.Core.Path.{ap₂}
use network_program.CString.{text}
use network_program.CString.Text.{NonNul, NonNul-append}
use network_program.OneLine.Chunk.{NoNewline, chunk_short}
use network_program.Http.{HeaderField, ok, line_buf_size, split_at, skip_blanks}
use network_program.Http.Read.{
  fgets, ends_header, parse_header_field, read_header_field, read_header,
}

abbrev pub crlf : List ℕ
crlf = b'\r' ∷ b'\n' ∷ []

-- The bytes of a line: no NUL and no newline among them.
pub record IsClean (s : List ℕ) : Type 0 where
  pub non_nul : NonNul s
  pub no_newline : NoNewline s

abbrev pub Lacks : ℕ → List ℕ → Type 0
Lacks c = All (λ x. (x == c) ≡ false)

pub text-NonNul : (s : List ℕ) → NonNul s → text s ≡ s
text-NonNul [] h = refl
text-NonNul (c ∷ s) h = ground (arith, text-NonNul s h.1)

pub IsClean-append : {s t : List ℕ} → IsClean s → IsClean t → IsClean (s ++ t)
IsClean-append {s} {t} h k = record {
  non_nul = NonNul-append s t h.non_nul k.non_nul;
  no_newline = All-append (λ c. (c == b'\n') ≡ false) s t h.no_newline k.no_newline;
}

pub IsClean-cons : (c : ℕ) {s : List ℕ} → c ≢ 0 → (c == b'\n') ≡ false → IsClean s → IsClean (c ∷ s)
IsClean-cons c nz nn h = record { non_nul = (nz, h.non_nul); no_newline = (nn, h.no_newline) }

-- A line that fits is read whole, with its newline.
pub fgets-line :
    (s rest : List ℕ)
    → IsClean s
    → length s < line_buf_size - 1
    → fgets (s ++ b'\n' ∷ rest) ≡ some (s ++ b'\n' ∷ [], rest)
fgets-line [] rest h lt = refl
fgets-line (c ∷ s) rest h lt =
    let input = c ∷ (s ++ b'\n' ∷ rest) in
    let line = c ∷ (s ++ b'\n' ∷ []) in
    let whole = (chunk_short (line_buf_size - 1) (c ∷ s) rest h.no_newline lt).0 in
    ap (λ k. some (text k, drop (length k) input)) whole
    ∙ ap₂ (λ a b. some (a, b))
        (text-NonNul line (NonNul-append (c ∷ s) (b'\n' ∷ []) h.non_nul (omega arith)))
        (ap (drop (length line)) (sym (append_assoc (c ∷ s) (b'\n' ∷ []) rest))
          ∙ drop-append line rest)

pub split_at-append :
    (c : ℕ) (s rest : List ℕ) → Lacks c s → split_at c (s ++ c ∷ rest) ≡ some (s, rest)
split_at-append c [] rest h = ground arith
split_at-append c (x ∷ s) rest h = rw (h.0, split_at-append c s rest h.1)

abbrev pub NoBlankFirst : List ℕ → Type 0
NoBlankFirst [] = Unit {0}
NoBlankFirst (c ∷ cs) = (c == b' ' || c == b'\t') ≡ false

-- A header field as a client sends it.
pub record IsField (h : HeaderField) : Type 0 where
  pub name_clean : IsClean h.name
  pub value_clean : IsClean h.value
  pub no_colon : Lacks b':' h.name
  pub name_ne_nil : h.name ≢ []
  pub no_blank : NoBlankFirst h.value
  pub fits : length h.name + length h.value + 4 < line_buf_size

abbrev field_text : HeaderField → List ℕ
field_text h = h.name ++ b':' ∷ b' ' ∷ (h.value ++ b'\r' ∷ [])

abbrev pub write_field : HeaderField → List ℕ → List ℕ
write_field h rest = h.name ++ b':' ∷ b' ' ∷ (h.value ++ b'\r' ∷ b'\n' ∷ rest)

-- The field as it is stored: the end of its line stays behind the value.
abbrev pub as_read : HeaderField → HeaderField
as_read h = record h { value = h.value ++ crlf }

skip_blanks-crlf : (v : List ℕ) → NoBlankFirst v → skip_blanks (v ++ crlf) ≡ v ++ crlf
skip_blanks-crlf [] h = refl
skip_blanks-crlf (c ∷ v) h = rw h

not_end_of_header :
    (name tail : List ℕ) → name ≢ [] → NoNewline name → ends_header (name ++ b':' ∷ tail) ≡ false
unfolding ends_header
not_end_of_header [] tail ne h = absurd (ne refl)
not_end_of_header (c ∷ []) tail ne h = ground arith
not_end_of_header (c ∷ d ∷ name) tail ne h = ground arith

parse_header_field-as_read :
    (h : HeaderField)
    → IsField h
    → parse_header_field (field_text h ++ b'\n' ∷ []) ≡ ok (some (as_read h))
unfolding parse_header_field
parse_header_field-as_read h f = rw (
  append_assoc h.name (b':' ∷ b' ' ∷ (h.value ++ b'\r' ∷ [])) (b'\n' ∷ []),
  append_assoc h.value (b'\r' ∷ []) (b'\n' ∷ []),
  not_end_of_header h.name (b' ' ∷ (h.value ++ crlf)) f.name_ne_nil f.name_clean.no_newline,
  split_at-append b':' h.name (b' ' ∷ (h.value ++ crlf)) f.no_colon,
  skip_blanks-crlf h.value f.no_blank,
)

field_text-IsClean : (h : HeaderField) → IsField h → IsClean (field_text h)
field_text-IsClean h f = IsClean-append f.name_clean (
    IsClean-cons b':' (omega arith) refl (
      IsClean-cons b' ' (omega arith) refl
        (IsClean-append f.value_clean (record { non_nul = omega arith; no_newline = (refl, tt) }))))

read_header_field-as_read :
    (h : HeaderField) (rest : List ℕ)
    → IsField h
    → read_header_field (write_field h rest) ≡ ok (some (as_read h), rest)
unfolding read_header_field
read_header_field-as_read h rest f =
    let line : write_field h rest ≡ field_text h ++ b'\n' ∷ rest = sym (
      append_assoc h.name (b':' ∷ b' ' ∷ (h.value ++ b'\r' ∷ [])) (b'\n' ∷ rest)
      ∙ ap (λ k. h.name ++ b':' ∷ b' ' ∷ k) (append_assoc h.value (b'\r' ∷ []) (b'\n' ∷ rest))) in
    let short : length (field_text h) < line_buf_size - 1 = omega (
      arith,
      length-append h.name (b':' ∷ b' ' ∷ (h.value ++ b'\r' ∷ [])),
      length-append h.value (b'\r' ∷ []),
      f.fits,
    ) in
    rw line (
      rw (
        fgets-line (field_text h) rest (field_text-IsClean h f) short,
        read_header_field,
        parse_header_field-as_read h f,
      ))

-- The header as it is linked: each field before those that came earlier.
abbrev pub linked : List HeaderField → List HeaderField → List HeaderField
linked [] header = header
linked (h ∷ hs) header = linked hs (as_read h ∷ header)

abbrev pub write_header : List HeaderField → List ℕ → List ℕ
write_header [] rest = b'\r' ∷ b'\n' ∷ rest
write_header (h ∷ hs) rest = write_field h (write_header hs rest)

pub read_header-linked :
    (hs : List HeaderField) (fuel : ℕ) (header : List HeaderField) (rest : List ℕ)
    → All IsField hs
    → length hs < fuel
    → read_header fuel header (write_header hs rest) ≡ ok (linked hs header, rest)
unfolding read_header
read_header-linked hs zero header rest f lt = elim lt [ ]
read_header-linked [] (suc fuel) header rest f lt = refl
read_header-linked (h ∷ hs) (suc fuel) header rest f lt =
    rw (read_header_field-as_read h (write_header hs rest) f.0)
      (read_header-linked hs fuel (as_read h ∷ header) rest f.1 (omega arith))

pub length-write_header :
    (hs : List HeaderField) (rest : List ℕ) → length hs < length (write_header hs rest)
length-write_header [] rest = omega arith
length-write_header (h ∷ hs) rest = omega (
  arith,
  length-append h.name (b':' ∷ b' ' ∷ (h.value ++ b'\r' ∷ b'\n' ∷ write_header hs rest)),
  length-append h.value (b'\r' ∷ b'\n' ∷ write_header hs rest),
  length-write_header hs rest,
)
