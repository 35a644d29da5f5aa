-- ===== src/Multiplex/Passes.antt =====
-- Passes of `accept_loop` of chapter05/server2.c against what one expects of a set of connections.
use network_program.Prelude.{
  ℕ, ◌-◌, ◌≡◌, refl, sym, ap, ◌∙◌, Bool, true, false, not, ◌&&◌, ◌||◌, Option, none, some, List, [],
  ◌∷◌, arith, ltb, ◌==◌, if◌then◌else◌, ==→eq, length, done,
}
use network_program.Multiplex.{
  max_child, Slots, targets, Table, Pass, Served, accept_child, cons_sent, Wait, wait_failed,
  timed_out, ready, select_pass, accept_loop,
}
use network_program.Multiplex.Serve.{holds, is_lost, expected, drops, FitsAll, serve_children-done}
use network_program.Multiplex.View.{IsTable, CanOccur, admits, sent_to, accept_child-Accepts}
use network_program.Multiplex.Kept.{
  holds-kept, closing-holds, IsDistinct-kept, length-kept, sent_to-sent_of,
}

-- What a pass should do: who is connected afterwards, and what each connection gets.
pub record Refines (p : Pass) (t : Table) (s : Served) : Type 0 where
  pub table : IsTable s.table
  pub connected :
      (fd : ℕ)
      → holds fd s.table.child
        ≡ (admits t.child p.accepted fd || (holds fd t.child && not (drops p fd)))
  pub answered :
      (fd : ℕ) → sent_to fd s.sent ≡ (if p.is_ready fd then expected (p.round fd) else [])

-- A connection that was just accepted is not ready yet.
admits-drops :
    (a h d : Bool)
    → (d ≡ true → h ≡ true)
    → (a ≡ true → h ≡ false)
    → ((a || h) && not d) ≡ (a || (h && not d))
admits-drops true true d e f = cc (f refl)
admits-drops true false true e f = cc (e refl)
admits-drops true false false e f = refl
admits-drops false h d e f = refl

stays_open : (h d : Bool) → (h && not (h && d)) ≡ (h && not d)
stays_open true d = refl
stays_open false d = refl

and_left : (a b : Bool) → (a && b) ≡ true → a ≡ true
and_left true b h = refl
and_left false b h = h

drops-ready : (p : Pass) (fd : ℕ) → drops p fd ≡ true → p.is_ready fd ≡ true
drops-ready p fd h = and_left (p.is_ready fd) (is_lost (p.round fd)) h

admits-new :
    (cs : Slots) (acc : Option (Option ℕ)) (fd : ℕ)
    → ((x : ℕ) → acc ≡ some (some x) → holds x cs ≡ false)
    → admits cs acc fd ≡ true
    → holds fd cs ≡ false
admits-new cs none fd fresh h = cc
admits-new cs (some none) fd fresh h = cc
admits-new cs (some (some x)) fd fresh h =
    let e = and_left (fd == x) (ltb (length (targets cs)) (max_child - 1)) h in
    ap (λ k. holds k cs) (==→eq fd x e) ∙ fresh x refl

-- A reply is due only to a connection in the table.
due_held {ℓ} :
    {A : Type ℓ} (h r : Bool) (x y : A)
    → (r ≡ true → h ≡ true)
    → (if h && r then x else y) ≡ (if r then x else y)
due_held true r x y e = refl
due_held false true x y e = cc (e refl)
due_held false false x y e = refl

or_right : (a b : Bool) → b ≡ true → (a || b) ≡ true
or_right true b h = refl
or_right false b h = h

-- For a table whose connections are distinct, exactly the ones that are open and at most 19, and while
-- `select` reports only what it was asked for and no `recv` fills its array of 512 bytes, a pass of
-- server2.c writes nothing outside of its arrays, leaves such a table, and does what one expects: the
-- connection that was accepted is in it if fewer than 19 were there, the others stay unless they ended,
-- failed or could not be answered; and each connection gets the reply to what was received from it, if
-- it was ready, and nothing else.
pub select_pass-Refines :
    (p : Pass) (t : Table)
    → IsTable t
    → CanOccur p t
    → FitsAll p
    → (s : Served) × (select_pass p t ≡ done s) × Refines p t s
unfolding select_pass
select_pass-Refines p t h can fits =
    let t' = accept_child t p.accepted in
    let acc = accept_child-Accepts t p.accepted h can.fresh in
    (
      _,
      serve_children-done p t'.child t'.opened fits,
      record {
        table = record {
          distinct = IsDistinct-kept p t'.child acc.table.distinct;
          tracked = λ fd.
              closing-holds p fd t'.child t'.opened
              ∙ rw (acc.table.tracked fd) (stays_open (holds fd t'.child) (drops p fd))
              ∙ sym (holds-kept p fd t'.child);
          below = omega (arith, acc.table.below, length-kept p t'.child);
        };
        connected = λ fd.
            holds-kept p fd t'.child
            ∙ rw (acc.held fd) (
                admits-drops (admits t.child p.accepted fd) (holds fd t.child) (drops p fd)
                  (λ e. can.asked fd (drops-ready p fd e))
                  (admits-new t.child p.accepted fd can.fresh));
        answered = λ fd.
            sent_to-sent_of p fd t'.child acc.table.distinct
            ∙ due_held (holds fd t'.child) (p.is_ready fd) (expected (p.round fd)) [] (λ e.
              acc.held fd
              ∙ or_right (admits t.child p.accepted fd) (holds fd t.child) (can.asked fd e));
      },
    )

-- The same of the waits: each pass can occur when its turn comes.
abbrev pub WaitsCanOccur : Table → List Wait → Type 0
WaitsCanOccur t [] = Unit {0}
WaitsCanOccur t (wait_failed ∷ waits) = WaitsCanOccur t waits
WaitsCanOccur t (timed_out ∷ waits) = WaitsCanOccur t waits
WaitsCanOccur t (ready p ∷ waits) =
    CanOccur p t
    × FitsAll p
    × ((s : Served) → select_pass p t ≡ done s → WaitsCanOccur s.table waits)

-- However long server2.c runs from such a table, under the same conditions on each pass, it writes
-- nothing outside of its arrays, and the connections in its table are distinct, exactly the ones that are
-- open, and at most 19.
pub accept_loop-IsTable :
    (t : Table) (waits : List Wait)
    → IsTable t
    → WaitsCanOccur t waits
    → (s : Served) × (accept_loop t waits ≡ done s) × IsTable s.table
unfolding accept_loop
accept_loop-IsTable t [] h can = (_, refl, h)
accept_loop-IsTable t (wait_failed ∷ waits) h can = accept_loop-IsTable t waits h can
accept_loop-IsTable t (timed_out ∷ waits) h can = accept_loop-IsTable t waits h can
accept_loop-IsTable t (ready p ∷ waits) h can =
    let (s, runs, pass) = select_pass-Refines p t h can.0 can.1 in
    let (s', runs', h') = accept_loop-IsTable s.table waits pass.table (can.2 s runs) in
    (cons_sent s.sent s', rw (runs, runs') refl, h')
