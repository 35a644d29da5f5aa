-- ===== src/Http/Number.antt =====
-- Decimal numbers: `atol`, and `%ld` of a size.
pub mod Laws
use network_program.Prelude.{
  ℕ, zero, suc, ◌+◌, ◌-◌, ◌*◌, ◌/◌, ◌%◌, ◌^◌, ◌≤◌, ◌<◌, min, ◌≡◌, refl, sym, ap, ◌∙◌, ◌≢◌, ◌↔◌, ◌⊎◌,
  inl, inr, Bool, true, false, not, ◌&&◌, ◌||◌, Option, none, some, List, [], ◌∷◌, ◌++◌, map,
  append_assoc, append-nil, arith, ltb, leb, ◌==◌, if◌then◌else◌, ltb→lt, lt→ltb, ltb→ge, ge→ltb,
  ==→eq, eq→==, ==→ne, ne→==, tests, Bool-cases, Option-cases, length, get_elem?, set, take, drop,
  replicate, All, length-append, length-snoc, length-set, length-take, length-drop,
  length-replicate, take-append-drop, take-append, drop-append, take-append_ge, drop-append_ge,
  take-append_le, drop-append_le, take-take, set-append, All-snoc, All-append, map-snoc,
  get_elem?-append, get_elem?-take, take-store, take-set, take-set_ge, take-nil, drop-nil,
  get_elem?-set_self, get_elem?-set_ne, get_elem?-lt, Run, done, blocked, fault, ◌>>=◌, write,
  write-lt, write-ge, Ret, minus_one, count, Errno, eintr, eagain, other,
}
use network_program.Integer.{ℤ, as_int}

-- A `long`, which is negative or not.
pub data Long : Type 0 where
  nonneg : ℕ → Long
  negative : ℕ → Long

abbrev pub long_max : ℕ
long_max = 2 ^ 63 - 1

abbrev pub is_digit : ℕ → Bool
is_digit c = leb b'0' c && leb c b'9'

-- `isspace` in the C locale
abbrev pub is_space : ℕ → Bool
is_space c = c == b' ' || (leb 9 c && leb c 13)

abbrev pub skip_spaces : List ℕ → List ℕ
skip_spaces [] = []
skip_spaces (c ∷ cs) = if is_space c then skip_spaces cs else c ∷ cs

-- The digits at the front, as one number behind those that came before.
abbrev pub read_digits : ℕ → List ℕ → ℕ
read_digits n [] = n
read_digits n (c ∷ cs) = if is_digit c then read_digits (n * 10 + (c - b'0')) cs else n

-- The C library stops at the range of `long`.
abbrev pub saturate : ℕ → ℕ
saturate n = min n long_max

read_signed : List ℕ → Long
read_signed [] = nonneg 0
read_signed (c ∷ cs) =
    if c == b'-'
    then (if read_digits 0 cs == 0
        then nonneg 0
        else negative (min (read_digits 0 cs) (long_max + 1)))
    else if c == b'+'
    then nonneg (saturate (read_digits 0 cs))
    else nonneg (saturate (read_digits 0 (c ∷ cs)))

unfoldable pub atol : List ℕ → Long
unfolding read_signed
atol s = read_signed (skip_spaces s)

-- `atoi` is `(int) strtol`.
abbrev pub to_int : Long → ℤ
to_int (nonneg n) = as_int (n % 2 ^ 32)
to_int (negative n) = as_int ((2 ^ 32 - n % 2 ^ 32) % 2 ^ 32)

-- The digits of `n` in front of `rest`, on fuel.
unfoldable pub digits_of : ℕ → ℕ → List ℕ → List ℕ
digits_of zero n rest = rest
digits_of (suc fuel) n rest =
    let next = (b'0' + n % 10) ∷ rest in
    let more = digits_of fuel (n / 10) next in if n / 10 == 0 then next else more

unfoldable pub decimal : ℕ → List ℕ
unfolding digits_of
decimal n = digits_of (suc n) n []
