-- ===== src/Tests/Threads.antt =====
-- The threads of the servers in small schedules.
use network_program.Prelude.{
  ℕ, ◌≤◌, ◌<◌, ◌≡◌, refl, ◌↔◌, ◌⊎◌, true, false, Option, none, some, List, [], ◌∷◌, get_elem?,
  replicate,
}
use network_program.Prefork.{Place, serving, step, run, start}
use network_program.Prefork.Exclusion.{is_inside, is_shown, run_excludes}
use network_program.Prefork.Progress.{run_hands_over}
use network_program.Spawn as Spawn
use network_program.Spawn.{Main, Step, main_goes, thread_runs, by_value, by_address, thread_step}
use network_program.Spawn.Queues.{run_own_queue}

-- Thread 0 accepts connection 7 and serves it, while thread 1 waits for the lock and takes it.
abbrev schedule : List (ℕ × Option ℕ)
schedule =
    (0, none)
    ∷ (1, none)
    ∷ (0, none)
    ∷ (0, some 7)
    ∷ (0, none)
    ∷ (1, none)
    ∷ (0, none)
    ∷ (1, none)
    ∷ []

serves_and_accepts : (run start schedule).places ≡ serving 7 ∷ Place.holding ∷ []
unfolding run start
serves_and_accepts = refl

-- The second thread.
abbrev second : ℕ
second = 1

run_excludes_example :
    ((second ≡ 0)
      ⊎ ((is_inside (get_elem? (run start schedule).places second) ≡ false)
          ⊎ (is_inside (get_elem? (run start schedule).places 0) ≡ false)))
    × ((is_inside (get_elem? (run start schedule).places second) ≡ true)
        ↔ ((run start schedule).lock ≡ some second))
    × ((is_shown (get_elem? (run start schedule).places second) ≡ true)
        ↔ ((run start schedule).lock_id ≡ some second))
run_excludes_example = run_excludes schedule second 0

abbrev first : List (ℕ × Option ℕ)
first = (0, none) ∷ []

run_hands_over_example :
    (n : ℕ) × (n ≤ 4)
    × ((run (run start first) (replicate n (0, some 7))).lock ≡ none)
    × ((step (run (run start first) (replicate n (0, some 7))) (1, none)).lock ≡ some 1)
unfolding run start
run_hands_over_example = run_hands_over first 0 1 (some 7) none refl refl

-- Both threads read their argument when both were made.
abbrev late : List Step
late = main_goes ∷ main_goes ∷ main_goes ∷ main_goes ∷ thread_runs 1 ∷ thread_runs 0 ∷ []

by_value_apart : (Spawn.run by_value Spawn.start late).qi ≡ some 0 ∷ some 1 ∷ []
unfolding Spawn.run
by_value_apart = refl

by_address_same : (Spawn.run by_address Spawn.start late).qi ≡ some 2 ∷ some 2 ∷ []
unfolding Spawn.run
by_address_same = refl

run_own_queue_example : (second ≡ second) × (second < Spawn.max_sender)
unfolding Spawn.run
run_own_queue_example = run_own_queue late 1 1 refl
