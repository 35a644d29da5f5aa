-- ===== src/Multiplex/Kept.antt =====
-- The cells of chapter05/server2.c that a pass keeps, what stays open, and what each connection gets.
use network_program.Prelude.{
  ℕ, suc, ◌≡◌, refl, sym, ap, ◌∙◌, inl, inr, Bool, true, false, not, ◌&&◌, ◌||◌, none, some, List,
  [], ◌∷◌, ◌++◌, append-nil, ◌==◌, if◌then◌else◌, ==→eq, Bool-cases, length,
}
use network_program.Multiplex.{Slots, Pass, put_open, targets, with_fd}
use network_program.Multiplex.Serve.{holds, expected, drops, kept, closing, sent_of}
use network_program.Multiplex.View.{IsDistinct, sent_to}

and_false : (b : Bool) → (b && false) ≡ false
and_false true = refl
and_false false = refl

and_true : (b : Bool) → b ≡ (b && true)
and_true true = refl
and_true false = refl

-- By truth values: whether it is the cell's connection, whether the other cells have it, whether it
-- is dropped.
cell_gone : (s h d : Bool) → (s ≡ true → d ≡ true) → (h && not d) ≡ ((s || h) && not d)
cell_gone true h d e = rw (e refl) (and_false h)
cell_gone false h d e = refl

cell_stays : (s h d : Bool) → (s ≡ true → d ≡ false) → (s || (h && not d)) ≡ ((s || h) && not d)
cell_stays true h d e = rw (e refl) refl
cell_stays false h d e = refl

open_gone :
    (s h d o : Bool)
    → (s ≡ true → d ≡ true)
    → ((if s then false else o) && not (h && d)) ≡ (o && not ((s || h) && d))
open_gone true h d o e = rw (e refl) (sym (and_false o))
open_gone false h d o e = refl

open_stays :
    (s h d o : Bool) → (s ≡ true → d ≡ false) → (o && not (h && d)) ≡ (o && not ((s || h) && d))
open_stays true true d o e = refl
open_stays true false d o e = rw (e refl) refl
open_stays false h d o e = refl

of_same : (p : Pass) (x fd : ℕ) (b : Bool) → drops p x ≡ b → (fd == x) ≡ true → drops p fd ≡ b
of_same p x fd b h e = ap (drops p) (==→eq fd x e) ∙ h

pub holds-kept :
    (p : Pass) (fd : ℕ) (cs : Slots) → holds fd (kept p cs) ≡ (holds fd cs && not (drops p fd))
holds-kept p fd [] = refl
holds-kept p fd (none ∷ cs) = holds-kept p fd cs
holds-kept p fd (some x ∷ cs) = elim (Bool-cases (drops p x)) [
  | inl gone ↦ rw gone (
      holds-kept p fd cs
      ∙ cell_gone (fd == x) (holds fd cs) (drops p fd) (of_same p x fd true gone))
  | inr stays ↦ rw stays (
      ap (λ b. fd == x || b) (holds-kept p fd cs)
      ∙ cell_stays (fd == x) (holds fd cs) (drops p fd) (of_same p x fd false stays))
]

pub closing-holds :
    (p : Pass) (fd : ℕ) (cs : Slots) (opened : ℕ → Bool)
    → closing p cs opened fd ≡ (opened fd && not (holds fd cs && drops p fd))
closing-holds p fd [] opened = and_true (opened fd)
closing-holds p fd (none ∷ cs) opened = closing-holds p fd cs opened
closing-holds p fd (some x ∷ cs) opened = elim (Bool-cases (drops p x)) [
  | inl gone ↦ rw gone (
      closing-holds p fd cs (put_open opened x false)
      ∙ open_gone (fd == x) (holds fd cs) (drops p fd) (opened fd) (of_same p x fd true gone))
  | inr stays ↦ rw stays (
      closing-holds p fd cs opened
      ∙ open_stays (fd == x) (holds fd cs) (drops p fd) (opened fd) (of_same p x fd false stays))
]

pub IsDistinct-kept : (p : Pass) (cs : Slots) → IsDistinct cs → IsDistinct (kept p cs)
IsDistinct-kept p [] d = tt
IsDistinct-kept p (none ∷ cs) d = IsDistinct-kept p cs d
IsDistinct-kept p (some x ∷ cs) d = elim (Bool-cases (drops p x)) [
  | inl gone ↦ rw gone (IsDistinct-kept p cs d.1)
  | inr stays ↦ rw stays (holds-kept p x cs ∙ rw d.0 refl, IsDistinct-kept p cs d.1)
]

pub length-kept : (p : Pass) (cs : Slots) → length (kept p cs) ≡ length cs
length-kept p [] = refl
length-kept p (none ∷ cs) = ap suc (length-kept p cs)
length-kept p (some x ∷ cs) = ap suc (length-kept p cs)

sent_to-append :
    (fd : ℕ) (xs ys : List (ℕ × List ℕ)) → sent_to fd (xs ++ ys) ≡ sent_to fd xs ++ sent_to fd ys
sent_to-append fd [] ys = refl
sent_to-append fd ((x, r) ∷ xs) ys = elim (Bool-cases (fd == x)) [
  | inl same ↦ rw same (ap (◌∷◌ r) (sent_to-append fd xs ys))
  | inr ne ↦ rw ne (sent_to-append fd xs ys)
]

sent_to-with_fd :
    (fd x : ℕ) (rs : List (List ℕ)) → sent_to fd (with_fd x rs) ≡ (if fd == x then rs else [])
sent_to-with_fd fd x [] = elim (Bool-cases (fd == x)) [
  | inl same ↦ rw same refl
  | inr ne ↦ rw ne refl
]
sent_to-with_fd fd x (r ∷ rs) = elim (Bool-cases (fd == x)) [
  | inl same ↦ rw same (ap (◌∷◌ r) (sent_to-with_fd fd x rs ∙ rw same refl))
  | inr ne ↦ rw ne (sent_to-with_fd fd x rs ∙ rw ne refl)
]

own_replies : Pass → ℕ → List (List ℕ)
own_replies p fd = if p.is_ready fd then expected (p.round fd) else []

sent_to-own :
    (p : Pass) (fd x : ℕ)
    → sent_to fd (if p.is_ready x then with_fd x (expected (p.round x)) else [])
      ≡ (if fd == x then own_replies p x else [])
unfolding own_replies
sent_to-own p fd x = elim (Bool-cases (p.is_ready x)) [
  | inl ready ↦ rw ready (sent_to-with_fd fd x (expected (p.round x)))
  | inr idle ↦ elim (Bool-cases (fd == x)) [
    | inl same ↦ rw (idle, same) refl
    | inr ne ↦ rw (idle, ne) refl
  ]
]

-- A connection gets the replies that its own round makes, once.
pub sent_to-sent_of :
    (p : Pass) (fd : ℕ) (cs : Slots)
    → IsDistinct cs
    → sent_to fd (sent_of p (targets cs))
      ≡ (if holds fd cs && p.is_ready fd then expected (p.round fd) else [])
unfolding targets own_replies
sent_to-sent_of p fd [] d = refl
sent_to-sent_of p fd (none ∷ cs) d = sent_to-sent_of p fd cs d
sent_to-sent_of p fd (some x ∷ cs) d =
    let own = if p.is_ready x then with_fd x (expected (p.round x)) else [] in
    let rest = sent_to-sent_of p fd cs d.1 in
    let mine = sent_to-own p fd x in
    sent_to-append fd own (sent_of p (targets cs)) ∙ elim (Bool-cases (fd == x)) [
      | inl same ↦
          let e = ==→eq fd x same in
          let away : holds fd cs ≡ false = ap (λ k. holds k cs) e ∙ d.0 in
          rw (mine, rest, same, away) (append-nil (own_replies p x) ∙ ap (own_replies p) (sym e))
      | inr ne ↦ rw (mine, rest, ne) refl
    ]
