-- ===== src/Pdump/Pieces.antt =====
-- Reading the pieces of a packet, and what is printed of a payload.
use network_program.Prelude.{
  ℕ, suc, ◌+◌, ◌-◌, ◌/◌, ◌^◌, ◌≤◌, ◌<◌, ◌≡◌, refl, sym, ap, ◌∙◌, true, List, [], ◌∷◌, ◌++◌, arith,
  leb, ◌==◌, if◌then◌else◌, lt→ltb, ne→==, length, take, drop, All, length-append, take-append,
  take-append_le, done,
}
use network_program.Pdump.Analyze.{Item, data_rows, grab, minus, show_data}
use network_program.Pdump.Rows.{concat, IsRow, print_data-shown, le→leb}

pub drop-skip :
    (front buf : List ℕ) (m k : ℕ) → m ≡ length front + k → drop m (front ++ buf) ≡ drop k buf
drop-skip [] buf m k e = ap (λ n. drop n buf) (omega (arith, e))
drop-skip (x ∷ front) buf m k e =
    let e' : m ≡ suc (length front + k) = omega arith in
    ap (λ n. drop n (x ∷ front ++ buf)) e' ∙ drop-skip front buf (length front + k) k refl

leb-eq : (a b c d : ℕ) → (a ≤ b → c ≤ d) → (c ≤ d → a ≤ b) → leb a b ≡ leb c d
leb-eq a b c d f h = ground arith

-- A piece behind `front` is read as it is read without it.
pub grab-skip :
    (front buf : List ℕ) (m k n : ℕ) → m ≡ length front + k → grab (front ++ buf) m n ≡ grab buf k n
grab-skip front buf m k n e =
    let len = length-append front buf in
    rw (
      leb-eq (m + n) (length (front ++ buf)) (k + n) (length buf) (λ h. omega (arith, len, e))
          (λ h. omega (arith, len, e)),
      drop-skip front buf m k e,
    )

pub grab-front :
    (piece back : List ℕ) (n : ℕ) → length piece ≡ n → grab (piece ++ back) 0 n ≡ done piece
grab-front piece back n e =
    let fits : leb (0 + n) (length (piece ++ back)) ≡ true =
      le→leb (0 + n) (length (piece ++ back)) (omega (arith, length-append piece back)) in
    rw fits (ap done (ap (λ k. take k (piece ++ back)) (sym e) ∙ take-append piece back))

pub minus-ge : (len n : ℕ) → n ≤ len → len < 2 ^ 64 → minus len n ≡ len - n
minus-ge len n h small = omega arith

-- What is printed of a payload: nothing of an empty one, and else the rows of `print_data`.
pub record ShowsData (payload : List ℕ) (items : List Item) : Type 0 where
  pub rows : List (List ℕ)
  pub items_are : items ≡ (if length payload == 0 then [] else data_rows rows ∷ [])
  pub bytes : concat rows ≡ take (length payload - length payload / 17) payload
  pub each : All IsRow rows

pub show_data-ShowsData :
    (front payload junk : List ℕ) (ptr : ℕ)
    → ptr ≡ length front
    → (items : List Item) × (show_data (front ++ (payload ++ junk)) ptr (length payload)
        ≡ done items)
      × ShowsData payload items
unfolding show_data
show_data-ShowsData front [] junk ptr e =
    ([], refl, record { rows = []; items_are = refl; bytes = refl; each = tt })
show_data-ShowsData front (p ∷ payload) junk ptr e =
    let n = suc (length payload) in
    let mem = p ∷ payload ++ junk in
    let (rows, runs, bytes, each) =
      print_data-shown mem n (omega (arith, length-append payload junk)) in
    (
      data_rows rows ∷ [],
      rw (drop-skip front mem ptr 0 (omega (arith, e)), runs, lt→ltb 0 n (omega arith)) refl,
      record {
        rows = rows;
        items_are = rw (ne→== n 0 (omega arith)) refl;
        bytes = bytes ∙ take-append_le (n - n / 17) (p ∷ payload) junk (omega arith);
        each = each;
      },
    )
