-- ===== src/Tests/Multiplexing.antt =====
-- The servers over `select` and `poll` at small inputs.
use network_program.Prelude.{
  ℕ, ◌≤◌, ◌<◌, ◌≡◌, refl, ap, ◌↔◌, inl, inr, true, false, ◌||◌, Option, none, some, List, [], ◌∷◌,
  arith, ◌==◌, if◌then◌else◌, Bool-cases, length, replicate, Run, done, ◌>>=◌, count,
}
use network_program.Echo.{Round, buf_size}
use network_program.Echo.Reply.{Fits}
use network_program.Http.{str}
use network_program.Multiplex.{
  Table, Pass, Served, Wait, timed_out, ready, make_mask, select_pass, poll_pass, accept_loop,
  targets,
}
use network_program.Multiplex.Serve.{FitsAll, holds}
use network_program.Multiplex.View.{IsTable, CanOccur}
use network_program.Multiplex.Passes.{Refines, select_pass-Refines, accept_loop-IsTable}
use network_program.Multiplex.Polling.{poll_pass-select_pass}
use network_program.Multiplex.Mask.{Ascends, make_mask-covers}

-- Connections 6 and 5, and a free cell between them.
abbrev table : Table
table = record { child = some 6 ∷ none ∷ some 5 ∷ []; opened = λ fd. fd == 6 || (fd == 5 || false) }

abbrev hi_line : Round
hi_line = record { rv = count 3; stored = str "hi\n"; send_ok = true }

abbrev end_of_file : Round
end_of_file = record { rv = count 0; stored = []; send_ok = true }

-- 7 comes, 5 sends a line, and 6 is at its end.
abbrev pass : Pass
pass = record {
  accepted = some (some 7);
  is_ready = λ fd. fd == 6 || (fd == 5 || false);
  array = λ fd. replicate buf_size 0;
  round = λ fd. if fd == 5 then hi_line else end_of_file;
}

table-IsTable : IsTable table
table-IsTable = record { distinct = (refl, (refl, tt)); tracked = λ fd. refl; below = omega arith }

pass-CanOccur : CanOccur pass table
pass-CanOccur = record {
  asked = λ fd e. e;
  fresh = λ fd e. let same : fd ≡ 7 = cc in ap (λ k. holds k table.child) same;
}

pass-FitsAll : FitsAll pass
pass-FitsAll fd e = (refl, fits)
  where
    fits : Fits (pass.round fd)
    fits = elim (Bool-cases (fd == 5)) [
      | inl is ↦ rw is (inr (refl, omega arith))
      | inr not_it ↦ rw not_it (inr (refl, omega arith))
    ]

-- The children left, and what was sent.
abbrev after : Run Served → Run (List (Option ℕ) × List (ℕ × List ℕ))
after m = m >>= λ s. done (s.table.child, s.sent)

serves :
    after (select_pass pass table) ≡ done (none ∷ some 7 ∷ some 5 ∷ [], (5, str "hi:OK\r\n") ∷ [])
unfolding select_pass
serves = refl

polls : after (poll_pass pass table) ≡ done (none ∷ some 7 ∷ some 5 ∷ [], (5, str "hi:OK\r\n") ∷ [])
unfolding poll_pass
polls = refl

-- Two children, of which one is printed.
counts_one : make_mask 4 0 table.child ≡ (7, 1)
unfolding make_mask
counts_one = refl

select_pass-Refines_example :
    (s : Served) × (select_pass pass table ≡ done s) × Refines pass table s
select_pass-Refines_example =
    select_pass-Refines pass table table-IsTable pass-CanOccur pass-FitsAll

abbrev waits : List Wait
waits = timed_out ∷ ready pass ∷ []

accept_loop-IsTable_example : (s : Served) × (accept_loop table waits ≡ done s) × IsTable s.table
accept_loop-IsTable_example =
    accept_loop-IsTable table waits table-IsTable (pass-CanOccur, pass-FitsAll, λ s e. tt)

poll_pass-select_pass_example : poll_pass pass table ≡ select_pass pass table
poll_pass-select_pass_example = poll_pass-select_pass pass table table-IsTable pass-CanOccur

make_mask-covers_example :
    let m = make_mask 4 0 table.child in
    (3 < m.0)
    × ((fd : ℕ) → holds fd table.child ≡ true → fd < m.0)
    × (m.1 ≤ length (targets table.child))
    × ((m.1 ≡ length (targets table.child)) ↔ Ascends 4 table.child)
make_mask-covers_example = make_mask-covers 3 table.child
