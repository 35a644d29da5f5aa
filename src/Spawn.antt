-- ===== src/Spawn.antt =====
-- How the sender threads get their queue: `main` and the beginning of `send_thread` of chapter05/server9.c,
-- which passes the number, and of chapter05/server9bug.c, which passes the address of the variable `i`.
pub mod Queues
use network_program.Prelude.{
  ℕ, ◌+◌, Bool, true, false, Option, none, some, List, [], ◌∷◌, ◌++◌, ltb, if◌then◌else◌, get_elem?,
  set,
}

-- MAXSENDER
abbrev pub max_sender : ℕ
max_sender = 2

-- `i`, whether `main` is between `pthread_create` and `i++`, and for each thread its argument and its
-- `qi`, `none` before it has read the argument.
pub record Main : Type 0 where
  pub i : ℕ
  pub in_body : Bool
  pub args : List ℕ
  pub qi : List (Option ℕ)

-- The loop of `main` goes on, or a thread runs.
pub data Step : Type 0 where
  main_goes : Step
  thread_runs : ℕ → Step

-- `for (i = 0; i < MAXSENDER; i++) pthread_create(..., send_thread, i)`; nothing behind the loop
-- writes `i`.
unfoldable pub main_step : Main → Main
main_step m =
    if m.in_body
    then record m { i = m.i + 1; in_body = false }
    else if ltb m.i max_sender
    then record m { in_body = true; args = m.args ++ m.i ∷ []; qi = m.qi ++ none ∷ [] }
    else m

-- `qi = (int) arg`
abbrev pub by_value : Main → ℕ → Option ℕ
by_value m k = get_elem? m.args k

-- `qi = *(int *) arg`
abbrev pub by_address : Main → ℕ → Option ℕ
by_address m k = some m.i

-- A thread reads its argument once.
unfoldable pub thread_step : (Main → ℕ → Option ℕ) → Main → ℕ → Main
thread_step read m k = elim (get_elem? m.qi k) [
  | none ↦ m
  | some (some q) ↦ m
  | some none ↦ record m { qi = set m.qi k (read m k) }
]

unfoldable pub step : (Main → ℕ → Option ℕ) → Main → Step → Main
unfolding main_step thread_step
step read m main_goes = main_step m
step read m (thread_runs k) = thread_step read m k

unfoldable pub run : (Main → ℕ → Option ℕ) → Main → List Step → Main
unfolding step
run read m [] = m
run read m (s ∷ steps) = run read (step read m s) steps

abbrev pub start : Main
start = record { i = 0; in_body = false; args = []; qi = [] }
