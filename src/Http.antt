-- ===== src/Http.antt =====
-- The HTTP server (httpd/httpd2.c): the data, and what its text functions do. `Http.Read` has the
-- reading of a request, `Http.Respond` the responses, `Http.Start` the start of the server.
pub mod Number
pub mod Read
pub mod Respond
pub mod Start
use network_program.Integer.{ℤ}
use network_program.Prelude.{
  ℕ, zero, suc, ◌+◌, ◌-◌, ◌*◌, ◌/◌, ◌%◌, ◌^◌, ◌≤◌, ◌<◌, min, ◌≡◌, refl, sym, ap, ◌∙◌, ◌≢◌, ◌↔◌, ◌⊎◌,
  inl, inr, Bool, true, false, not, ◌&&◌, ◌||◌, Option, none, some, List, [], ◌∷◌, ◌++◌, map,
  append_assoc, append-nil, arith, ltb, leb, ◌==◌, if◌then◌else◌, ltb→lt, lt→ltb, ltb→ge, ge→ltb,
  ==→eq, eq→==, ==→ne, ne→==, tests, Bool-cases, Option-cases, length, get_elem?, set, take, drop,
  replicate, All, length-append, length-snoc, length-set, length-take, length-drop,
  length-replicate, take-append-drop, take-append, drop-append, take-append_ge, drop-append_ge,
  take-append_le, drop-append_le, take-take, set-append, All-snoc, All-append, map-snoc,
  get_elem?-append, get_elem?-take, take-store, take-set, take-set_ge, take-nil, drop-nil,
  get_elem?-set_self, get_elem?-set_ne, get_elem?-lt, Run, done, blocked, fault, ◌>>=◌, write,
  write-lt, write-ge, Ret, minus_one, count, Errno, eintr, eagain, other,
}
use Prim.Native.Char.{code}
use Prim.Native.String.{String}

-- The bytes of a literal; every one below is ASCII.
abbrev pub str : String → List ℕ
str String.[] = []
str (String.◌∷◌ c s) = code c ∷ str s

-- `struct HTTPHeaderField`, without its link
pub record HeaderField : Type 0 where
  pub name : List ℕ
  pub value : List ℕ

-- `struct HTTPRequest`; the header fields stand last first, as they are linked.
pub record Request : Type 0 where
  pub protocol_minor_version : ℤ
  pub method : List ℕ
  pub path : List ℕ
  pub header : List HeaderField
  pub body : List ℕ
  pub length_of_body : ℕ

-- Why `log_exit` is called.
pub data Reason : Type 0 where
  no_request_line no_first_space no_second_space no_protocol : Reason
  no_header_field no_colon : Reason
  negative_length body_too_long short_body : Reason
  no_time cannot_open cannot_read cannot_write : Reason
  no_fuel : Reason

-- A function of the server returns, or ends the process by `log_exit`.
pub data Result {ℓ} (A : Type ℓ) : Type ℓ where
  ok : A → Result A
  exits : Reason → Result A

infixl 5 ◌>>>◌
abbrev pub ◌>>>◌ {ℓ κ} : {A : Type ℓ} {B : Type κ} → Result A → (A → Result B) → Result B
ok a >>> f = f a
exits e >>> f = exits e

pub >>>-eq-ok {ℓ κ} :
    {A : Type ℓ} {B : Type κ} (m : Result A) (f : A → Result B) {b : B}
    → (m >>> f) ≡ ok b
    → (a : A) × (m ≡ ok a) × (f a ≡ ok b)
>>>-eq-ok (ok a) f h = (a, refl, h)
>>>-eq-ok (exits e) f h = cc

-- A call ends the process for the reason `r` in none of its parts.
pub >>>-ne-exits {ℓ κ} :
    {A : Type ℓ} {B : Type κ} {r : Reason} (m : Result A) (f : A → Result B)
    → m ≢ exits r
    → ((a : A) → m ≡ ok a → f a ≢ exits r)
    → (m >>> f) ≢ exits r
>>>-ne-exits (ok a) f h k = k a refl
>>>-ne-exits (exits e) f h k = λ p. h (ground arith)

from_ok {ℓ} : {A : Type ℓ} → A → Result A → A
from_ok d (ok a) = a
from_ok d (exits e) = d

pub ok-injective {ℓ} : {A : Type ℓ} (a b : A) → ok a ≡ ok b → a ≡ b
unfolding from_ok
ok-injective a b p = ap (from_ok a) p

abbrev pub line_buf_size : ℕ
line_buf_size = 4096

abbrev pub max_request_body_length : ℕ
max_request_body_length = 1024 * 1024

-- `strchr(s, c)`: what stands before the first `c`, and behind it.
abbrev pub split_at : ℕ → List ℕ → Option (List ℕ × List ℕ)
split_at c [] = none
split_at c (b ∷ bs) =
    if b == c
    then some ([], bs)
    else (elim (split_at c bs) [ none ↦ none | some (x, y) ↦ some (b ∷ x, y) ])

-- `toupper` and `tolower` in the C locale
abbrev pub to_upper : ℕ → ℕ
to_upper c = if leb b'a' c && leb c b'z' then c - 32 else c

unfoldable pub upcase : List ℕ → List ℕ
upcase s = map to_upper s

-- `strcmp(s, t) == 0`
unfoldable pub equal_text : List ℕ → List ℕ → Bool
equal_text [] [] = true
equal_text [] (y ∷ ys) = false
equal_text (x ∷ xs) [] = false
equal_text (x ∷ xs) (y ∷ ys) = x == y && equal_text xs ys

-- `strcasecmp(s, t) == 0`
unfoldable pub equal_ignoring_case : List ℕ → List ℕ → Bool
equal_ignoring_case [] [] = true
equal_ignoring_case [] (y ∷ ys) = false
equal_ignoring_case (x ∷ xs) [] = false
equal_ignoring_case (x ∷ xs) (y ∷ ys) = to_upper x == to_upper y && equal_ignoring_case xs ys

-- `p += strspn(p, " \t")`
abbrev pub skip_blanks : List ℕ → List ℕ
skip_blanks [] = []
skip_blanks (c ∷ cs) = if c == b' ' || c == b'\t' then skip_blanks cs else c ∷ cs
