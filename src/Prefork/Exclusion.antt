-- ===== src/Prefork/Exclusion.antt =====
-- One thread at a time waits in `accept`.
use network_program.Prelude.{
  ℕ, zero, suc, ◌≡◌, refl, sym, ap, ◌∙◌, ◌≢◌, ◌↔◌, ◌⊎◌, inl, inr, Bool, true, false, Option, none,
  some, List, [], ◌∷◌, ◌==◌, ==→eq, ==→ne, Bool-cases, Option-cases, get_elem?, set, replicate,
  get_elem?-set_self, get_elem?-set_ne, get_elem?-lt,
}
use network_program.Prefork.{
  Place, outside, holding, accepting, leaving, cleared, serving, System, step_from, step, run,
  start,
}

-- Between `pthread_mutex_lock` and `pthread_mutex_unlock`.
abbrev pub is_inside : Option Place → Bool
is_inside none = false
is_inside (some outside) = false
is_inside (some holding) = true
is_inside (some accepting) = true
is_inside (some (leaving a)) = true
is_inside (some (cleared a)) = true
is_inside (some (serving a)) = false

-- Between the two assignments to `g_lock_id`.
abbrev pub is_shown : Option Place → Bool
is_shown none = false
is_shown (some outside) = false
is_shown (some holding) = false
is_shown (some accepting) = true
is_shown (some (leaving a)) = true
is_shown (some (cleared a)) = false
is_shown (some (serving a)) = false

-- The owner of the lock is the thread inside, and `g_lock_id` is the thread between its assignments.
pub record IsExclusive (s : System) : Type 0 where
  pub owner : (i : ℕ) → (is_inside (get_elem? s.places i) ≡ true) ↔ (s.lock ≡ some i)
  pub shown : (i : ℕ) → (is_shown (get_elem? s.places i) ≡ true) ↔ (s.lock_id ≡ some i)

module _ (mark : Option Place → Bool) (xs : List Place) (i : ℕ) (p p' : Place) (a : Option ℕ)
    (at : get_elem? xs i ≡ some p)
    (h : (j : ℕ) → (mark (get_elem? xs j) ≡ true) ↔ (a ≡ some j)) where
  -- What a thread's move does to one of the two marks, from `a` to `b`.
  marks :
      (b : Option ℕ)
      → ((mark (some p') ≡ true) ↔ (b ≡ some i))
      → ((j : ℕ) → i ≢ j → (a ≡ some j) ↔ (b ≡ some j))
      → (j : ℕ) → (mark (get_elem? (set xs i p') j) ≡ true) ↔ (b ≡ some j)
  marks b own others j = elim (Bool-cases (i == j)) [
    | inl same ↦ rw (← ==→eq i j same, get_elem?-set_self xs i p' (get_elem?-lt xs i p at)) own
    | inr ne ↦
        let far = ==→ne i j ne in
        let o = others j far in
        rw (get_elem?-set_ne xs p' far) (λ m. o.0 ((h j).0 m), λ e. (h j).1 (o.1 e))
  ]

  -- A move that does not matter for the mark.
  marks_keep :
      mark (some p) ≡ mark (some p')
      → (j : ℕ) → (mark (get_elem? (set xs i p') j) ≡ true) ↔ (a ≡ some j)
  marks_keep same =
      marks a (λ m. (h i).0 (ap mark at ∙ same ∙ m), λ e. sym same ∙ sym (ap mark at) ∙ (h i).1 e)
        (λ j ne. (λ e. e, λ e. e))

  -- No other thread had the mark, and this one gets it, or loses it.
  marks_take :
      ((j : ℕ) → i ≢ j → a ≢ some j)
      → mark (some p') ≡ true
      → (j : ℕ) → (mark (get_elem? (set xs i p') j) ≡ true) ↔ (some i ≡ some j)
  marks_take nobody is =
      marks (some i) (λ m. refl, λ e. is)
        (λ j ne. (λ e. absurd (nobody j ne e), λ e. absurd (ne cc)))

  marks_drop :
      ((j : ℕ) → i ≢ j → a ≢ some j)
      → mark (some p') ≡ false
      → (j : ℕ) → (mark (get_elem? (set xs i p') j) ≡ true) ↔ (none ≡ some j)
  marks_drop nobody is_not =
      marks none (λ m. cc (m, is_not), λ e. cc e) (λ j ne. (λ e. absurd (nobody j ne e), λ e. cc e))

is_shown-is_inside : (o : Option Place) → is_shown o ≡ true → is_inside o ≡ true
is_shown-is_inside none h = cc
is_shown-is_inside (some outside) h = cc
is_shown-is_inside (some holding) h = refl
is_shown-is_inside (some accepting) h = refl
is_shown-is_inside (some (leaving a)) h = refl
is_shown-is_inside (some (cleared a)) h = refl
is_shown-is_inside (some (serving a)) h = cc

-- While a thread is inside, no other has the lock, and no other is shown.
module _ (s : System) (h : IsExclusive s) (i : ℕ) (p : Place) (at : get_elem? s.places i ≡ some p)
    (inside : is_inside (some p) ≡ true) where
  owns : s.lock ≡ some i
  owns = (h.owner i).0 (ap is_inside at ∙ inside)

  no_owner : (j : ℕ) → i ≢ j → s.lock ≢ some j
  no_owner j ne e = let o = owns in ne cc

  none_shown : (j : ℕ) → i ≢ j → s.lock_id ≢ some j
  none_shown j ne e = no_owner j ne ((h.owner j).0 (is_shown-is_inside _ ((h.shown j).1 e)))

step_from-IsExclusive :
    (s : System) (i : ℕ) (acc : Option ℕ) (p : Place)
    → IsExclusive s
    → get_elem? s.places i ≡ some p
    → IsExclusive (step_from s i acc p)
unfolding step_from
step_from-IsExclusive s i acc outside h at = elim (Option-cases s.lock) [
  | inl free ↦
      rw (free, step_from)
        (record {
          owner =
              marks_take is_inside s.places i outside holding s.lock at h.owner (λ j ne e. cc) refl;
          shown = marks_keep is_shown s.places i outside holding s.lock_id at h.shown refl;
        })
  | inr (j, held) ↦ rw (held, step_from) h
]
step_from-IsExclusive s i acc holding h at = record {
  owner = marks_keep is_inside s.places i holding accepting s.lock at h.owner refl;
  shown =
      marks_take is_shown s.places i holding accepting s.lock_id at h.shown
        (none_shown s h i holding at refl) refl;
}
step_from-IsExclusive s i acc accepting h at = record {
  owner = marks_keep is_inside s.places i accepting (leaving acc) s.lock at h.owner refl;
  shown = marks_keep is_shown s.places i accepting (leaving acc) s.lock_id at h.shown refl;
}
step_from-IsExclusive s i acc (leaving a) h at = record {
  owner = marks_keep is_inside s.places i (leaving a) (cleared a) s.lock at h.owner refl;
  shown =
      marks_drop is_shown s.places i (leaving a) (cleared a) s.lock_id at h.shown
        (none_shown s h i (leaving a) at refl) refl;
}
step_from-IsExclusive s i acc (cleared none) h at = record {
  owner =
      marks_drop is_inside s.places i (cleared none) outside s.lock at h.owner
        (no_owner s h i (cleared none) at refl) refl;
  shown = marks_keep is_shown s.places i (cleared none) outside s.lock_id at h.shown refl;
}
step_from-IsExclusive s i acc (cleared (some a)) h at = record {
  owner =
      marks_drop is_inside s.places i (cleared (some a)) (serving a) s.lock at h.owner
        (no_owner s h i (cleared (some a)) at refl) refl;
  shown = marks_keep is_shown s.places i (cleared (some a)) (serving a) s.lock_id at h.shown refl;
}
step_from-IsExclusive s i acc (serving a) h at = record {
  owner = marks_keep is_inside s.places i (serving a) outside s.lock at h.owner refl;
  shown = marks_keep is_shown s.places i (serving a) outside s.lock_id at h.shown refl;
}

pub step-IsExclusive : (s : System) (e : ℕ × Option ℕ) → IsExclusive s → IsExclusive (step s e)
unfolding step
step-IsExclusive s (i, acc) h = elim (Option-cases (get_elem? s.places i)) [
  | inl away ↦ rw (away, step) h
  | inr (p, at) ↦ rw (at, step) (step_from-IsExclusive s i acc p h at)
]

pub run-IsExclusive :
    (s : System) (es : List (ℕ × Option ℕ)) → IsExclusive s → IsExclusive (run s es)
unfolding run
run-IsExclusive s [] h = h
run-IsExclusive s (e ∷ es) h = run-IsExclusive (step s e) es (step-IsExclusive s e h)

pub start-IsExclusive : IsExclusive start
unfolding start
start-IsExclusive = record { owner = λ i. nobody i; shown = λ i. nobody_shown i }
  where
    nobody : (i : ℕ) → (is_inside (get_elem? (replicate 2 outside) i) ≡ true) ↔ (none ≡ some i)
    nobody zero = (λ e. cc e, λ e. cc e)
    nobody (suc zero) = (λ e. cc e, λ e. cc e)
    nobody (suc (suc i)) = (λ e. cc e, λ e. cc e)

    nobody_shown : (i : ℕ) → (is_shown (get_elem? (replicate 2 outside) i) ≡ true) ↔ (none ≡ some i)
    nobody_shown zero = (λ e. cc e, λ e. cc e)
    nobody_shown (suc zero) = (λ e. cc e, λ e. cc e)
    nobody_shown (suc (suc i)) = (λ e. cc e, λ e. cc e)

-- However the two threads of server8.c are scheduled and whatever `accept` gives: of two different threads
-- at most one is between taking the lock and giving it back, where `accept` is called; a thread is there
-- exactly while it has the lock; and `g_lock_id` names a thread exactly while that thread is between its
-- two assignments.
pub run_excludes :
    (es : List (ℕ × Option ℕ)) (i j : ℕ)
    → let s = run start es in
      ((i ≡ j)
        ⊎ ((is_inside (get_elem? s.places i) ≡ false) ⊎ (is_inside (get_elem? s.places j) ≡ false)))
      × ((is_inside (get_elem? s.places i) ≡ true) ↔ (s.lock ≡ some i))
      × ((is_shown (get_elem? s.places i) ≡ true) ↔ (s.lock_id ≡ some i))
run_excludes es i j =
    let s = run start es in
    let h = run-IsExclusive start es start-IsExclusive in
    (
      elim (Bool-cases (is_inside (get_elem? s.places i))) [
        | inr out ↦ inr (inl out)
        | inl in_i ↦ elim (Bool-cases (is_inside (get_elem? s.places j))) [
          | inr out ↦ inr (inr out)
          | inl in_j ↦ let a = (h.owner i).0 in_i in let b = (h.owner j).0 in_j in inl cc
        ]
      ],
      h.owner i,
      h.shown i,
    )
