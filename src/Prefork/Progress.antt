-- ===== src/Prefork/Progress.antt =====
-- The lock comes free, and a thread that waits for it gets it.
use network_program.Prelude.{
  ℕ, suc, ◌≤◌, ◌≡◌, refl, sym, ap, ◌∙◌, ◌≢◌, true, Option, none, some, List, arith, get_elem?, set,
  replicate, get_elem?-set_self, get_elem?-set_ne, get_elem?-lt,
}
use network_program.Prefork.{
  Place, outside, holding, accepting, leaving, cleared, serving, System, behind_unlock, step_from,
  step, run, start,
}
use network_program.Prefork.Exclusion.{is_inside, run-IsExclusive, start-IsExclusive}

-- Some steps of the thread `i`, at most `k`, free the lock and leave the other threads where they are.
record Frees (s : System) (i : ℕ) (acc : Option ℕ) (k : ℕ) : Type 0 where
  steps : ℕ
  few : steps ≤ k
  free : (run s (replicate steps (i, acc))).lock ≡ none
  others :
      (j : ℕ) → i ≢ j → get_elem? (run s (replicate steps (i, acc))).places j ≡ get_elem? s.places j

step-at :
    (s : System) (i : ℕ) (acc : Option ℕ) (p : Place)
    → get_elem? s.places i ≡ some p
    → step s (i, acc) ≡ step_from s i acc p
unfolding step
step-at s i acc p at = rw (at, step) refl

run-cons :
    (s : System) (i n : ℕ) (acc : Option ℕ)
    → run s (replicate (suc n) (i, acc)) ≡ run (step s (i, acc)) (replicate n (i, acc))
unfolding run
run-cons s i n acc = refl

-- One more step before.
Frees-step :
    (s s' : System) (i : ℕ) (acc : Option ℕ) (p p' : Place) (k : ℕ)
    → get_elem? s.places i ≡ some p
    → step_from s i acc p ≡ s'
    → s'.places ≡ set s.places i p'
    → Frees s' i acc k
    → Frees s i acc (suc k)
Frees-step s s' i acc p p' k at e moved f =
    let first : step s (i, acc) ≡ s' = step-at s i acc p at ∙ e in
    let all : run s (replicate (suc f.steps) (i, acc)) ≡ run s' (replicate f.steps (i, acc)) =
      run-cons s i f.steps acc ∙ ap (λ k. run k (replicate f.steps (i, acc))) first in
    record {
      steps = suc f.steps;
      few = omega (arith, f.few);
      free = ap (λ (k : System). k.lock) all ∙ f.free;
      others = λ j ne.
          ap (λ (k : System). get_elem? k.places j) all
          ∙ f.others j ne
          ∙ ap (λ xs. get_elem? xs j) moved
          ∙ get_elem?-set_ne s.places p' ne;
    }

Frees-now : (s : System) (i : ℕ) (acc : Option ℕ) → s.lock ≡ none → Frees s i acc 0
unfolding run
Frees-now s i acc e = record { steps = 0; few = omega arith; free = e; others = λ j ne. refl }

module _ (s : System) (i : ℕ) (acc : Option ℕ) where
  moved_at :
      (p p' : Place) → get_elem? s.places i ≡ some p → get_elem? (set s.places i p') i ≡ some p'
  moved_at p p' at = get_elem?-set_self s.places i p' (get_elem?-lt s.places i p at)

  cleared-Frees : (a : Option ℕ) → get_elem? s.places i ≡ some (cleared a) → Frees s i acc 1
  unfolding step_from
  cleared-Frees a at =
      Frees-step s _ i acc (cleared a) (behind_unlock a) 0 at refl refl (Frees-now _ i acc refl)

leaving-Frees :
    (s : System) (i : ℕ) (acc a : Option ℕ)
    → get_elem? s.places i ≡ some (leaving a)
    → Frees s i acc 2
unfolding step_from
leaving-Frees s i acc a at =
    Frees-step s _ i acc (leaving a) (cleared a) 1 at refl refl
      (cleared-Frees _ i acc a (moved_at s i acc (leaving a) (cleared a) at))

accepting-Frees :
    (s : System) (i : ℕ) (acc : Option ℕ) → get_elem? s.places i ≡ some accepting → Frees s i acc 3
unfolding step_from
accepting-Frees s i acc at =
    Frees-step s _ i acc accepting (leaving acc) 2 at refl refl
      (leaving-Frees _ i acc acc (moved_at s i acc accepting (leaving acc) at))

holding-Frees :
    (s : System) (i : ℕ) (acc : Option ℕ) → get_elem? s.places i ≡ some holding → Frees s i acc 4
unfolding step_from
holding-Frees s i acc at =
    Frees-step s _ i acc holding accepting 3 at refl refl
      (accepting-Frees _ i acc (moved_at s i acc holding accepting at))

Frees-more :
    (s : System) (i : ℕ) (acc : Option ℕ) (k : ℕ) → k ≤ 4 → Frees s i acc k → Frees s i acc 4
Frees-more s i acc k le f = record {
  steps = f.steps;
  few = omega (arith, f.few);
  free = f.free;
  others = f.others;
}

inside-Frees :
    (s : System) (i : ℕ) (acc : Option ℕ) (p : Place)
    → get_elem? s.places i ≡ some p
    → is_inside (some p) ≡ true
    → Frees s i acc 4
inside-Frees s i acc outside at h = cc
inside-Frees s i acc holding at h = holding-Frees s i acc at
inside-Frees s i acc accepting at h =
    Frees-more s i acc 3 (omega arith) (accepting-Frees s i acc at)
inside-Frees s i acc (leaving a) at h =
    Frees-more s i acc 2 (omega arith) (leaving-Frees s i acc a at)
inside-Frees s i acc (cleared a) at h =
    Frees-more s i acc 1 (omega arith) (cleared-Frees s i acc a at)
inside-Frees s i acc (serving a) at h = cc

take_lock :
    (s : System) (j : ℕ) (acc : Option ℕ)
    → s.lock ≡ none
    → get_elem? s.places j ≡ some outside
    → (step s (j, acc)).lock ≡ some j
unfolding step_from
take_lock s j acc free at =
    ap (λ (k : System). k.lock) (step-at s j acc outside at) ∙ rw (free, step_from) refl

inside_place :
    (o : Option Place)
    → is_inside o ≡ true
    → (p : Place) × (o ≡ some p) × (is_inside (some p) ≡ true)
inside_place none h = cc
inside_place (some p) h = (p, refl, h)

inside_outside : (o o' : Option Place) → is_inside o ≡ true → o' ≡ some outside → o ≢ o'
inside_outside o o' h e same = cc (sym (ap is_inside (same ∙ e)) ∙ h)

-- However the two threads of server8.c have been scheduled: where one has the lock and another waits
-- for it, at most four more steps of the first, one of which is an `accept` that returns, free the
-- lock, and the one that waits gets it by its next step.
pub run_hands_over :
    (es : List (ℕ × Option ℕ)) (i j : ℕ) (acc acc' : Option ℕ)
    → (run start es).lock ≡ some i
    → get_elem? (run start es).places j ≡ some outside
    → (n : ℕ) × (n ≤ 4)
      × ((run (run start es) (replicate n (i, acc))).lock ≡ none)
      × ((step (run (run start es) (replicate n (i, acc))) (j, acc')).lock ≡ some j)
run_hands_over es i j acc acc' held waits =
    let s = run start es in
    let h = run-IsExclusive start es start-IsExclusive in
    let inside = (h.owner i).1 held in
    let (p, at, is) = inside_place (get_elem? s.places i) inside in
    let f = inside-Frees s i acc p at is in
    let ne : i ≢ j = λ e.
      inside_outside (get_elem? s.places i) (get_elem? s.places j) inside waits
        (ap (get_elem? s.places) e) in
    (
      f.steps,
      f.few,
      f.free,
      take_lock (run s (replicate f.steps (i, acc))) j acc' f.free (f.others j ne ∙ waits),
    )
