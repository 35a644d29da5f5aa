-- ===== src/Certificate/StarLoop.antt =====
-- The loop of `like_check_ignorecase` behind a star (chapter11/ssl-server.c), for a check of the rest of
-- the pattern that decides a set of strings.
use network_program.Prelude.{
  ℕ, ◌≡◌, refl, sym, ap, ◌∙◌, ◌⊎◌, inl, inr, Bool, true, false, List, [], ◌∷◌, Run, done, fault,
}
use mathlib.Core.Path.{subst}
use network_program.Certificate.{star_loop}
use network_program.Certificate.Matching.{IsEnd, IsEnd-cons, IsEnd-empty, IsEnd-trans, IsEnd-nil}

-- The three outcomes.
abbrev pub Settles : Run Bool → Type 0
Settles m = (m ≡ done true) ⊎ ((m ≡ done false) ⊎ (m ≡ fault))

-- A check decides a set of strings, where it does not read past the end; and where it does, the
-- string and its ends are none of them.
pub record Decides (like : List ℕ → Run Bool) (M : List ℕ → Type 0) : Type 0 where
  pub settles : (s : List ℕ) → Settles (like s)
  pub complete : (s : List ℕ) → M s → like s ≡ done true
  pub sound : (s : List ℕ) → like s ≡ done true → M s
  pub faults : (s t : List ℕ) → like s ≡ fault → IsEnd t s → ¬ M t

pub not_both : (m : Run Bool) → m ≡ done true → m ≡ done false → ⊥
not_both m e f = cc (sym e ∙ f)

pub not_fault : (m : Run Bool) → m ≡ done true → m ≡ fault → ⊥
not_fault m e f = cc (sym e ∙ f)

pub not_past : (m : Run Bool) → m ≡ done false → m ≡ fault → ⊥
not_past m e f = cc (sym e ∙ f)

module _ (like : List ℕ → Run Bool) (M : List ℕ → Type 0) (d : Decides like M)
    (nil : M [] → (s : List ℕ) → M s) where
  pub star_loop_complete : (s u : List ℕ) → IsEnd u s → M u → star_loop like s ≡ done true
  unfolding star_loop
  star_loop_complete [] u e m = rw (d.complete [] (subst M (IsEnd-empty u e) m)) refl
  star_loop_complete (x ∷ []) u e m =
      let here : M (x ∷ []) = elim (IsEnd-cons u x [] e) [
        | inl is ↦ subst M (sym is) m
        | inr there ↦ nil (subst M (IsEnd-empty u there) m) (x ∷ [])
      ] in
      rw (d.complete (x ∷ []) here) refl
  star_loop_complete (x ∷ y ∷ ys) u e m = elim (d.settles (x ∷ y ∷ ys)) [
    | inl found ↦ rw found refl
    | inr (inr past) ↦ absurd (d.faults (x ∷ y ∷ ys) u past e m)
    | inr (inl not_here) ↦ elim (IsEnd-cons u x (y ∷ ys) e) [
      | inl is ↦ absurd (not_both _ (d.complete (x ∷ y ∷ ys) (subst M (sym is) m)) not_here)
      | inr there ↦ rw not_here (star_loop_complete (y ∷ ys) u there m)
    ]
  ]

  pub star_loop_sound : (s : List ℕ) → star_loop like s ≡ done true → (u : List ℕ) × IsEnd u s × M u
  unfolding star_loop
  star_loop_sound [] h = elim (d.settles []) [
    | inl found ↦ ([], IsEnd-nil [], d.sound [] found)
    | inr (inl not_here) ↦ absurd (not_fault _ h (rw not_here refl))
    | inr (inr past) ↦ absurd (not_fault _ h (rw past refl))
  ]
  star_loop_sound (x ∷ []) h = elim (d.settles (x ∷ [])) [
    | inl found ↦ (x ∷ [], ([], refl), d.sound (x ∷ []) found)
    | inr (inl not_here) ↦ absurd (not_both _ h (rw not_here refl))
    | inr (inr past) ↦ absurd (not_fault _ h (rw past refl))
  ]
  star_loop_sound (x ∷ y ∷ ys) h = elim (d.settles (x ∷ y ∷ ys)) [
    | inl found ↦ (x ∷ y ∷ ys, ([], refl), d.sound (x ∷ y ∷ ys) found)
    | inr (inr past) ↦ absurd (not_fault _ h (rw past refl))
    | inr (inl not_here) ↦
        let go : star_loop like (x ∷ y ∷ ys) ≡ star_loop like (y ∷ ys) = rw not_here refl in
        let (u, e, m) = star_loop_sound (y ∷ ys) (sym go ∙ h) in (u, (x ∷ e.0, ap (◌∷◌ x) e.1), m)
  ]

  pub star_loop-Settles : (s : List ℕ) → Settles (star_loop like s)
  unfolding star_loop
  star_loop-Settles [] = elim (d.settles []) [
    | inl found ↦ rw found (inl refl)
    | inr (inl not_here) ↦ rw not_here (inr (inr refl))
    | inr (inr past) ↦ rw past (inr (inr refl))
  ]
  star_loop-Settles (x ∷ []) = elim (d.settles (x ∷ [])) [
    | inl found ↦ rw found (inl refl)
    | inr (inl not_here) ↦ rw not_here (inr (inl refl))
    | inr (inr past) ↦ rw past (inr (inr refl))
  ]
  star_loop-Settles (x ∷ y ∷ ys) = elim (d.settles (x ∷ y ∷ ys)) [
    | inl found ↦ rw found (inl refl)
    | inr (inl not_here) ↦ rw not_here (star_loop-Settles (y ∷ ys))
    | inr (inr past) ↦ rw past (inr (inr refl))
  ]

  pub star_loop_faults :
      (s t : List ℕ) → star_loop like s ≡ fault → IsEnd t s → (u : List ℕ) → IsEnd u t → ¬ M u
  star_loop_faults s t past e u end m =
      not_fault _ (star_loop_complete s u (IsEnd-trans u t s end e) m) past
