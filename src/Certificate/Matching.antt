-- ===== src/Certificate/Matching.antt =====
-- The strings that a pattern matches.
use network_program.Prelude.{
  ℕ, ◌≡◌, sym, ap, ◌∙◌, ◌⊎◌, inl, inr, true, false, List, [], ◌∷◌, ◌++◌, append_assoc, append-nil,
  ◌==◌,
}
use mathlib.Core.Path.{subst}
use network_program.Http.{to_upper}
use network_program.Certificate.{star, question}

-- The first list is an end of the second.
abbrev pub IsEnd : List ℕ → List ℕ → Type 0
IsEnd u s = (front : List ℕ) × (s ≡ front ++ u)

-- A byte of the pattern that is no star matches one byte: any if it is `?`, else itself in either case.
abbrev pub IsOne : ℕ → ℕ → Type 0
IsOne c y = ((c == question) ≡ true) ⊎ ((to_upper y == to_upper c) ≡ true)

-- The pattern matches the string: a star any bytes, of which what follows matches the rest.
unfoldable pub Matches : List ℕ → List ℕ → Type 0
Matches [] s = s ≡ []
Matches (c ∷ ps) s =
    (((c == star) ≡ true) × (u : List ℕ) × IsEnd u s × Matches ps u)
    ⊎ (((c == star) ≡ false) × (y : ℕ) × (ys : List ℕ) × (s ≡ y ∷ ys) × IsOne c y × Matches ps ys)

pub IsEnd-cons : (u : List ℕ) (x : ℕ) (xs : List ℕ) → IsEnd u (x ∷ xs) → (x ∷ xs ≡ u) ⊎ IsEnd u xs
IsEnd-cons u x xs ([], e) = inl e
IsEnd-cons u x xs (f ∷ front, e) = inr (front, cc)

pub IsEnd-empty : (u : List ℕ) → IsEnd u [] → u ≡ []
IsEnd-empty u ([], e) = sym e
IsEnd-empty u (f ∷ front, e) = cc e

pub IsEnd-trans : (u t s : List ℕ) → IsEnd u t → IsEnd t s → IsEnd u s
IsEnd-trans u t s (f, e) (g, h) = (g ++ f, h ∙ ap (λ k. g ++ k) e ∙ sym (append_assoc g f u))

pub IsEnd-tail : (y x : ℕ) (ys xs : List ℕ) → IsEnd (y ∷ ys) (x ∷ xs) → IsEnd ys xs
IsEnd-tail y x ys xs ([], e) = ([], cc)
IsEnd-tail y x ys xs (f ∷ front, e) =
    let rest : xs ≡ front ++ y ∷ ys = cc in
    (front ++ y ∷ [], rest ∙ sym (append_assoc front (y ∷ []) ys))

pub IsEnd-nil : (s : List ℕ) → IsEnd [] s
IsEnd-nil s = (s, sym (append-nil s))

-- A pattern with something in it that matches nothing matches everything.
pub Matches-nil : (c : ℕ) (ps s : List ℕ) → Matches (c ∷ ps) [] → Matches (c ∷ ps) s
unfolding Matches
Matches-nil c ps s (inl (is, u, e, m)) =
    inl (is, [], IsEnd-nil s, subst (Matches ps) (IsEnd-empty u e) m)
Matches-nil c ps s (inr (no_star, y, ys, e, one, m)) = cc e
