-- ===== src/Spawn/Queues.antt =====
-- Which queue a sender thread works on.
use network_program.Prelude.{
  ℕ, zero, suc, ◌+◌, ◌≤◌, ◌<◌, ◌≡◌, refl, sym, ap, ◌∙◌, ◌⊎◌, inl, inr, true, none, some, List, [],
  ◌∷◌, ◌++◌, arith, ltb, ◌==◌, if◌then◌else◌, ltb→lt, ==→eq, ==→ne, Bool-cases, Option-cases,
  length, get_elem?, set, length-snoc, length-set, get_elem?-append, get_elem?-set_self,
  get_elem?-set_ne, get_elem?-lt,
}
use network_program.Spawn.{
  max_sender, Main, Step, main_goes, thread_runs, main_step, by_value, by_address, thread_step,
  step, run, start,
}

-- The arguments are the numbers of the threads, and so is each `qi` that was read.
pub record IsNumbered (m : Main) : Type 0 where
  pub in_range : m.i ≤ max_sender
  pub body_range : m.in_body ≡ true → m.i < max_sender
  pub made : length m.args ≡ (if m.in_body then m.i + 1 else m.i)
  pub numbers : (k : ℕ) → k < length m.args → get_elem? m.args k ≡ some k
  pub same : length m.qi ≡ length m.args
  pub own : (k q : ℕ) → get_elem? m.qi k ≡ some (some q) → q ≡ k

get_elem?-snoc {ℓ} :
    {A : Type ℓ} (xs : List A) (x : A) (k : ℕ)
    → (get_elem? (xs ++ x ∷ []) k ≡ get_elem? xs k)
      ⊎ ((k ≡ length xs) × (get_elem? (xs ++ x ∷ []) k ≡ some x))
get_elem?-snoc [] x zero = inr (refl, refl)
get_elem?-snoc [] x (suc k) = inl refl
get_elem?-snoc (y ∷ xs) x zero = inl refl
get_elem?-snoc (y ∷ xs) x (suc k) = elim (get_elem?-snoc xs x k) [
  | inl e ↦ inl e
  | inr (at, e) ↦ inr (ap suc at, e)
]

get_elem?-before {ℓ} :
    {A : Type ℓ} (xs ys : List A) (k : ℕ) → k < length xs → get_elem? (xs ++ ys) k ≡ get_elem? xs k
get_elem?-before [] ys k h = elim h [ ]
get_elem?-before (x ∷ xs) ys zero h = refl
get_elem?-before (x ∷ xs) ys (suc k) h = get_elem?-before xs ys k (omega arith)

numbers-snoc :
    (xs : List ℕ) (i : ℕ)
    → length xs ≡ i
    → ((k : ℕ) → k < length xs → get_elem? xs k ≡ some k)
    → (k : ℕ) → k < length (xs ++ i ∷ [])
    → get_elem? (xs ++ i ∷ []) k ≡ some k
numbers-snoc xs i size h k lt = elim (Bool-cases (k == length xs)) [
  | inl last ↦
      let e = ==→eq k (length xs) last in rw (e, get_elem?-append xs [] i) (ap some (sym size))
  | inr ne ↦
      let below : k < length xs = omega (arith, ==→ne k (length xs) ne, length-snoc xs i) in
      get_elem?-before xs (i ∷ []) k below ∙ h k below
]

main_step-IsNumbered : (m : Main) → IsNumbered m → IsNumbered (main_step m)
unfolding main_step
main_step-IsNumbered m h = elim (Bool-cases m.in_body) [
  | inl body ↦
      rw (body, main_step)
        (record {
          in_range = ground (arith, h.body_range body);
          body_range = λ e. cc e;
          made = h.made ∙ rw body refl;
          numbers = h.numbers;
          same = h.same;
          own = h.own;
        })
  | inr top ↦
      let size : length m.args ≡ m.i = h.made ∙ rw top refl in
      elim (Bool-cases (ltb m.i max_sender)) [
        | inr over ↦
            rw (top, over, main_step)
              (record {
                in_range = h.in_range;
                body_range = λ e. cc e;
                made = h.made ∙ rw top refl;
                numbers = h.numbers;
                same = h.same;
                own = h.own;
              })
        | inl more ↦
            rw (top, more, main_step)
              (record {
                in_range = h.in_range;
                body_range = λ e. ltb→lt m.i max_sender more;
                made = omega (arith, length-snoc m.args m.i, size);
                numbers = numbers-snoc m.args m.i size h.numbers;
                same = omega (arith, length-snoc m.args m.i, length-snoc m.qi none, h.same);
                own = λ k q e. elim (get_elem?-snoc m.qi none k) [
                  | inl before ↦ h.own k q (sym before ∙ e)
                  | inr (at, last) ↦ cc
                ];
              })
      ]
]

thread_step-IsNumbered : (m : Main) (k : ℕ) → IsNumbered m → IsNumbered (thread_step by_value m k)
unfolding thread_step
thread_step-IsNumbered m k h = elim (Option-cases (get_elem? m.qi k)) [
  | inl away ↦ rw (away, thread_step) h
  | inr (some q, at) ↦ rw (at, thread_step) h
  | inr (none, at) ↦
      rw (at, thread_step)
        (record {
          in_range = h.in_range;
          body_range = h.body_range;
          made = h.made;
          numbers = h.numbers;
          same = length-set m.qi k (by_value m k) ∙ h.same;
          own = λ j q e. elim (Bool-cases (k == j)) [
            | inr ne ↦ h.own j q (sym (get_elem?-set_ne m.qi (by_value m k) (==→ne k j ne)) ∙ e)
            | inl is ↦
                let j_is = ==→eq k j is in
                let lt = get_elem?-lt m.qi k none at in
                let eq : some (some q) ≡ some (some k) =
                  sym e
                  ∙ ap (get_elem? (set m.qi k (by_value m k))) (sym j_is)
                  ∙ get_elem?-set_self m.qi k (by_value m k) lt
                  ∙ ap some (h.numbers k (omega (arith, lt, h.same))) in
                let q_is : q ≡ k = cc in q_is ∙ j_is
          ];
        })
]

step-IsNumbered : (m : Main) (s : Step) → IsNumbered m → IsNumbered (step by_value m s)
unfolding step
step-IsNumbered m main_goes h = main_step-IsNumbered m h
step-IsNumbered m (thread_runs k) h = thread_step-IsNumbered m k h

run-IsNumbered : (m : Main) (steps : List Step) → IsNumbered m → IsNumbered (run by_value m steps)
unfolding run
run-IsNumbered m [] h = h
run-IsNumbered m (s ∷ steps) h = run-IsNumbered (step by_value m s) steps (step-IsNumbered m s h)

start-IsNumbered : IsNumbered start
start-IsNumbered = record {
  in_range = omega arith;
  body_range = λ e. cc e;
  made = refl;
  numbers = λ k lt. elim lt [ ];
  same = refl;
  own = λ k q e. cc e;
}

-- However `main` and the threads of server9.c interleave: a thread that has read its argument works on the
-- queue of its own number, which is one of the two queues, so no two threads share a queue.
pub run_own_queue :
    (steps : List Step) (k q : ℕ)
    → get_elem? (run by_value start steps).qi k ≡ some (some q)
    → (q ≡ k) × (q < max_sender)
run_own_queue steps k q e =
    let h = run-IsNumbered start steps start-IsNumbered in
    let own = h.own k q e in
    let lt = get_elem?-lt (run by_value start steps).qi k (some q) e in
    (own, threads_fit (run by_value start steps) h k q own lt)
  where
    threads_fit : (m : Main) → IsNumbered m → (k q : ℕ) → q ≡ k → k < length m.qi → q < max_sender
    threads_fit m h k q own lt = elim (Bool-cases m.in_body) [
      | inl body ↦
          let size : length m.args ≡ m.i + 1 = h.made ∙ rw body refl in
          let below = h.body_range body in omega (arith, h.same)
      | inr top ↦
          let size : length m.args ≡ m.i = h.made ∙ rw top refl in
          let below = h.in_range in omega (arith, h.same)
    ]

-- In server9bug.c a thread that reads its argument once the loop of `main` is over gets 2, whichever
-- thread it is: no queue of the array, and the same for all.
pub thread_step_late :
    (m : Main) (k : ℕ)
    → m.i ≡ max_sender
    → get_elem? m.qi k ≡ some none
    → get_elem? (thread_step by_address m k).qi k ≡ some (some max_sender)
unfolding thread_step
thread_step_late m k over at =
    rw (at, thread_step)
      (get_elem?-set_self m.qi k (some m.i) (get_elem?-lt m.qi k none at)
        ∙ ap (λ i. some (some i)) over)
