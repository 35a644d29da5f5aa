-- ===== src/Prefork.antt =====
-- The server whose threads are made beforehand: `accept_thread` of chapter05/server8.c. A schedule says
-- which thread makes its next step, and what `accept` gives it. The mutex does what POSIX says: a
-- thread that finds it locked waits.
pub mod Exclusion
pub mod Progress
use network_program.Prelude.{ℕ, Option, none, some, List, [], ◌∷◌, get_elem?, set, replicate}

-- Where a thread stands: before `pthread_mutex_lock`; behind it; behind `g_lock_id = pthread_self()`;
-- behind `accept`; behind `g_lock_id = -1`; in `send_recv_loop`. `none` is an `accept` that failed.
pub data Place : Type 0 where
  outside holding accepting : Place
  leaving cleared : Option ℕ → Place
  serving : ℕ → Place

-- The threads, the one that has the lock, and `g_lock_id`, `none` for -1.
pub record System : Type 0 where
  pub places : List Place
  pub lock : Option ℕ
  pub lock_id : Option ℕ

abbrev pub goes_to : System → ℕ → Place → System
goes_to s i p = record s { places = set s.places i p }

-- Behind `pthread_mutex_unlock`.
abbrev pub behind_unlock : Option ℕ → Place
behind_unlock none = outside
behind_unlock (some acc) = serving acc

-- The next step of the thread `i`, which stands at the place.
unfoldable pub step_from : System → ℕ → Option ℕ → Place → System
step_from s i acc outside = elim s.lock [
  | none ↦ record s { places = set s.places i holding; lock = some i }
  | some j ↦ s
]
step_from s i acc holding = record s { places = set s.places i accepting; lock_id = some i }
step_from s i acc accepting = goes_to s i (leaving acc)
step_from s i acc (leaving a) = record s { places = set s.places i (cleared a); lock_id = none }
step_from s i acc (cleared a) = record s { places = set s.places i (behind_unlock a); lock = none }
step_from s i acc (serving a) = goes_to s i outside

unfoldable pub step : System → ℕ × Option ℕ → System
unfolding step_from
step s (i, acc) = elim (get_elem? s.places i) [ none ↦ s | some p ↦ step_from s i acc p ]

unfoldable pub run : System → List (ℕ × Option ℕ) → System
unfolding step
run s [] = s
run s (e ∷ es) = run (step s e) es

-- NUM_CHILD
abbrev pub num_child : ℕ
num_child = 2

-- The threads that `main` makes.
unfoldable pub start : System
start = record { places = replicate num_child outside; lock = none; lock_id = none }
