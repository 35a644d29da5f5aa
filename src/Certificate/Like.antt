-- ===== src/Certificate/Like.antt =====
-- `like_check_ignorecase` of chapter11/ssl-server.c against the strings that a pattern matches.
use network_program.Prelude.{
  ℕ, ◌≡◌, refl, sym, ◌∙◌, ◌↔◌, ◌⊎◌, inl, inr, Bool, true, false, List, [], ◌∷◌, ◌==◌, Bool-cases,
  Run, done, fault,
}
use mathlib.Core.Path.{subst}
use network_program.Http.{to_upper}
use network_program.Certificate.{star, question, is_empty, star_loop, like_check_ignorecase}
use network_program.Certificate.Matching.{Matches, IsEnd, IsOne, IsEnd-tail, IsEnd-nil, Matches-nil}
use network_program.Certificate.StarLoop.{
  Settles, Decides, not_both, not_fault, not_past, star_loop_complete, star_loop_sound,
  star_loop-Settles, star_loop_faults,
}

not_IsOne : (c x : ℕ) → (c == question) ≡ false → (to_upper x == to_upper c) ≡ false → ¬ IsOne c x
not_IsOne c x not_any differs (inl any) = cc
not_IsOne c x not_any differs (inr same) = cc

module _ (c : ℕ) (ps : List ℕ) (plain : (c == star) ≡ false) where
  check-end : like_check_ignorecase [] (c ∷ ps) ≡ done false
  unfolding like_check_ignorecase
  check-end = rw plain refl

  check-IsOne :
      (x : ℕ) (xs : List ℕ)
      → IsOne c x
      → like_check_ignorecase (x ∷ xs) (c ∷ ps) ≡ like_check_ignorecase xs ps
  unfolding like_check_ignorecase
  check-IsOne x xs (inl any) = rw (plain, any) refl
  check-IsOne x xs (inr same) = elim (Bool-cases (c == question)) [
    | inl any ↦ rw (plain, any) refl
    | inr not_any ↦ rw (plain, not_any, same) refl
  ]

  IsOne-cases :
      (x : ℕ) (xs : List ℕ)
      → IsOne c x ⊎ ((¬ IsOne c x) × (like_check_ignorecase (x ∷ xs) (c ∷ ps) ≡ done false))
  unfolding like_check_ignorecase
  IsOne-cases x xs = elim (Bool-cases (c == question)) [
    | inl any ↦ inl (inl any)
    | inr not_any ↦ elim (Bool-cases (to_upper x == to_upper c)) [
      | inl same ↦ inl (inr same)
      | inr differs ↦ inr (not_IsOne c x not_any differs, rw (plain, not_any, differs) refl)
    ]
  ]

  IsOne-Matches :
      (s : List ℕ)
      → Matches (c ∷ ps) s
      → (y : ℕ) × (ys : List ℕ) × (s ≡ y ∷ ys) × IsOne c y × Matches ps ys
  unfolding Matches
  IsOne-Matches s (inl (is_star, u, end, m)) = absurd (cc)
  IsOne-Matches s (inr (_, y, ys, e, one, m)) = (y, ys, e, one, m)

  Matches-one : (y : ℕ) (ys : List ℕ) → IsOne c y → Matches ps ys → Matches (c ∷ ps) (y ∷ ys)
  unfolding Matches
  Matches-one y ys one m = inr (plain, y, ys, refl, one, m)

  module _ (d : Decides (λ s. like_check_ignorecase s ps) (Matches ps)) where
    one-Settles : (s : List ℕ) → Settles (like_check_ignorecase s (c ∷ ps))
    one-Settles [] = inr (inl check-end)
    one-Settles (x ∷ xs) = elim (IsOne-cases x xs) [
      | inl one ↦ rw (check-IsOne x xs one) (d.settles xs)
      | inr (_, none_left) ↦ inr (inl none_left)
    ]

    one_complete : (s : List ℕ) → Matches (c ∷ ps) s → like_check_ignorecase s (c ∷ ps) ≡ done true
    one_complete s m =
        let (y, ys, e, one, rest) = IsOne-Matches s m in
        rw (e, check-IsOne y ys one) (d.complete ys rest)

    one_sound : (s : List ℕ) → like_check_ignorecase s (c ∷ ps) ≡ done true → Matches (c ∷ ps) s
    one_sound [] h = absurd (not_both _ h check-end)
    one_sound (x ∷ xs) h = elim (IsOne-cases x xs) [
      | inl one ↦ Matches-one x xs one (d.sound xs (sym (check-IsOne x xs one) ∙ h))
      | inr (_, none_left) ↦ absurd (not_both _ h none_left)
    ]

    one_faults :
        (s t : List ℕ) → like_check_ignorecase s (c ∷ ps) ≡ fault → IsEnd t s → ¬ Matches (c ∷ ps) t
    one_faults [] t past e m = not_past _ check-end past
    one_faults (x ∷ xs) t past e m =
        let (y, ys, is, one, rest) = IsOne-Matches t m in
        let end : IsEnd ys xs = IsEnd-tail y x ys xs (subst (λ k. IsEnd k (x ∷ xs)) is e) in
        elim (IsOne-cases x xs) [
          | inl here ↦ d.faults xs ys (sym (check-IsOne x xs here) ∙ past) end rest
          | inr (_, none_left) ↦ not_past _ none_left past
        ]

    one-Decides : Decides (λ s. like_check_ignorecase s (c ∷ ps)) (Matches (c ∷ ps))
    one-Decides = record {
      settles = one-Settles;
      complete = one_complete;
      sound = one_sound;
      faults = one_faults;
    }

module _ (c : ℕ) (is_star : (c == star) ≡ true) where
  last_star-Decides : Decides (λ s. like_check_ignorecase s (c ∷ [])) (Matches (c ∷ []))
  unfolding like_check_ignorecase Matches
  last_star-Decides =
      let run : (s : List ℕ) → like_check_ignorecase s (c ∷ []) ≡ done true =
        λ s. rw is_star refl in
      record {
        settles = λ s. inl (run s);
        complete = λ s m. run s;
        sound = λ s h. inl (is_star, [], IsEnd-nil s, refl);
        faults = λ s t past e m. not_fault _ (run s) past;
      }

  module _ (p : ℕ) (ps : List ℕ)
      (d : Decides (λ s. like_check_ignorecase s (p ∷ ps)) (Matches (p ∷ ps))) where
    check-star :
        (s : List ℕ)
        → like_check_ignorecase s (c ∷ p ∷ ps) ≡ star_loop (λ u. like_check_ignorecase u (p ∷ ps)) s
    unfolding like_check_ignorecase
    check-star s = rw is_star refl

    star_Matches :
        (s : List ℕ) → Matches (c ∷ p ∷ ps) s → (u : List ℕ) × IsEnd u s × Matches (p ∷ ps) u
    unfolding Matches
    star_Matches s (inl (_, u, end, m)) = (u, end, m)
    star_Matches s (inr (plain, y, ys, e, one, m)) = absurd (cc)

    Matches-star :
        (s : List ℕ) → ((u : List ℕ) × IsEnd u s × Matches (p ∷ ps) u) → Matches (c ∷ p ∷ ps) s
    unfolding Matches
    Matches-star s (u, end, m) = inl (is_star, u, end, m)

    star-Decides : Decides (λ s. like_check_ignorecase s (c ∷ p ∷ ps)) (Matches (c ∷ p ∷ ps))
    star-Decides =
        let like : List ℕ → Run Bool = λ u. like_check_ignorecase u (p ∷ ps) in
        let nil : Matches (p ∷ ps) [] → (s : List ℕ) → Matches (p ∷ ps) s =
          λ m u. Matches-nil p ps u m in
        record {
          settles = λ s. rw (check-star s) (star_loop-Settles like _ d nil s);
          complete = λ s m.
              let (u, end, rest) = star_Matches s m in
              check-star s ∙ star_loop_complete like _ d nil s u end rest;
          sound = λ s h. Matches-star s (star_loop_sound like _ d nil s (sym (check-star s) ∙ h));
          faults = λ s t past e m.
              let (u, end, rest) = star_Matches t m in
              star_loop_faults like _ d nil s t (sym (check-star s) ∙ past) e u end rest;
        }

is_empty-Settles : (s : List ℕ) → Settles (done (is_empty s))
is_empty-Settles [] = inl refl
is_empty-Settles (x ∷ xs) = inr (inl refl)

is_empty_sound : (s : List ℕ) → done (is_empty s) ≡ done true → s ≡ []
is_empty_sound [] h = refl
is_empty_sound (x ∷ xs) h = absurd (not_both _ h refl)

empty-Decides : Decides (λ s. like_check_ignorecase s []) (Matches [])
unfolding like_check_ignorecase Matches
empty-Decides = record {
  settles = is_empty-Settles;
  complete = λ s m. rw m refl;
  sound = is_empty_sound;
  faults = λ s t past e m. cc past;
}

like-Decides : (ps : List ℕ) → Decides (λ s. like_check_ignorecase s ps) (Matches ps)
like-Decides [] = empty-Decides
like-Decides (c ∷ []) = elim (Bool-cases (c == star)) [
  | inl is_star ↦ last_star-Decides c is_star
  | inr plain ↦ one-Decides c [] plain (like-Decides [])
]
like-Decides (c ∷ p ∷ ps) = elim (Bool-cases (c == star)) [
  | inl is_star ↦ star-Decides c is_star p ps (like-Decides (p ∷ ps))
  | inr plain ↦ one-Decides c (p ∷ ps) plain (like-Decides (p ∷ ps))
]

-- `like_check_ignorecase` accepts exactly the strings that the pattern matches; and where it reads past
-- the end of the string, the pattern matches no end of it.
pub like_check_ignorecase-Matches :
    (ps s : List ℕ)
    → ((like_check_ignorecase s ps ≡ done true) ↔ Matches ps s)
      × ((like_check_ignorecase s ps ≡ fault) → (t : List ℕ) → IsEnd t s → ¬ Matches ps t)
like_check_ignorecase-Matches ps s =
    let d = like-Decides ps in ((d.sound s, d.complete s), λ past t end. d.faults s t past end)
