-- ===== src/Multiplex/View.antt =====
-- The table of chapter05/server2.c seen as the set of its connections, with no cells.
use network_program.Prelude.{
  ℕ, zero, suc, ◌+◌, ◌-◌, ◌≤◌, ◌<◌, ◌≡◌, refl, sym, ap, ◌∙◌, inl, inr, Bool, true, false, ◌&&◌,
  ◌||◌, Option, none, some, List, [], ◌∷◌, ◌++◌, arith, ltb, leb, ◌==◌, if◌then◌else◌, lt→ltb,
  ge→ltb, ==→eq, Bool-cases, Option-cases, length, set, length-snoc, length-set,
}
use network_program.Multiplex.{
  max_child, Slots, Table, Pass, put_open, free_slot, add_child, accept_child, targets,
}
use network_program.Multiplex.Serve.{holds}

-- No connection has two cells.
abbrev pub IsDistinct : Slots → Type 0
IsDistinct [] = Unit {0}
IsDistinct (none ∷ cs) = IsDistinct cs
IsDistinct (some fd ∷ cs) = (holds fd cs ≡ false) × IsDistinct cs

-- The connections in the table are distinct and exactly the ones that are open, and the cells in use
-- leave the last one of the array free.
pub record IsTable (t : Table) : Type 0 where
  pub distinct : IsDistinct t.child
  pub tracked : (fd : ℕ) → t.opened fd ≡ holds fd t.child
  pub below : length t.child < max_child

-- `select` reports what it was asked for, and `accept` gives a descriptor that was not open.
pub record CanOccur (p : Pass) (t : Table) : Type 0 where
  pub asked : (fd : ℕ) → p.is_ready fd ≡ true → holds fd t.child ≡ true
  pub fresh : (fd : ℕ) → p.accepted ≡ some (some fd) → holds fd t.child ≡ false

-- The connection is the one accepted, and fewer than 19 were there.
abbrev pub admits : Slots → Option (Option ℕ) → ℕ → Bool
admits cs none fd = false
admits cs (some none) fd = false
admits cs (some (some acc)) fd = fd == acc && ltb (length (targets cs)) (max_child - 1)

-- What was sent to one connection.
abbrev pub sent_to : ℕ → List (ℕ × List ℕ) → List (List ℕ)
sent_to fd [] = []
sent_to fd ((x, r) ∷ rest) = if fd == x then r ∷ sent_to fd rest else sent_to fd rest

length-targets : (cs : Slots) → length (targets cs) ≤ length cs
unfolding targets
length-targets [] = omega arith
length-targets (none ∷ cs) = omega (arith, length-targets cs)
length-targets (some fd ∷ cs) = omega (arith, length-targets cs)

-- The first free cell, and the table with a connection in it.
pub record Takes (cs : Slots) (acc pos : ℕ) : Type 0 where
  pub room : length (targets cs) < length cs
  pub held : (fd : ℕ) → holds fd (set cs pos (some acc)) ≡ (fd == acc || holds fd cs)
  pub apart : holds acc cs ≡ false → IsDistinct cs → IsDistinct (set cs pos (some acc))

pub or_false : (a b : Bool) → (a || b) ≡ false → (a ≡ false) × (b ≡ false)
or_false true b e = cc
or_false false b e = (refl, e)

==_comm : (a b : ℕ) → (a == b) ≡ (b == a)
==_comm a b = ground arith

or_swap : (a b c : Bool) → (a || (b || c)) ≡ (b || (a || c))
or_swap a b c = ground arith

Takes-cons : (x : ℕ) (cs : Slots) (acc k : ℕ) → Takes cs acc k → Takes (some x ∷ cs) acc (suc k)
unfolding targets
Takes-cons x cs acc k h = record {
  room = omega (arith, h.room);
  held = λ fd. ap (λ b. fd == x || b) (h.held fd) ∙ or_swap (fd == x) (fd == acc) (holds fd cs);
  apart = λ away d.
      let (ne, away') = or_false (acc == x) (holds acc cs) away in
      (h.held x ∙ rw (==_comm x acc, ne, d.0) refl, h.apart away' d.1);
}

free_slot-Takes : (cs : Slots) (acc pos : ℕ) → free_slot cs ≡ some pos → Takes cs acc pos
unfolding free_slot targets
free_slot-Takes [] acc pos e = cc
free_slot-Takes (none ∷ cs) acc zero e = record {
  room = omega (arith, length-targets cs);
  held = λ fd. refl;
  apart = λ away d. (away, d);
}
free_slot-Takes (none ∷ cs) acc (suc pos) e = cc
free_slot-Takes (some x ∷ cs) acc pos e = elim (Option-cases (free_slot cs)) [
  | inl full ↦ cc
  | inr (k, at) ↦
      let here : pos ≡ suc k = cc in rw here (Takes-cons x cs acc k (free_slot-Takes cs acc k at))
]

free_slot-none : (cs : Slots) → free_slot cs ≡ none → length (targets cs) ≡ length cs
unfolding free_slot targets
free_slot-none [] e = refl
free_slot-none (none ∷ cs) e = cc
free_slot-none (some x ∷ cs) e = elim (Option-cases (free_slot cs)) [
  | inl full ↦ ap suc (free_slot-none cs full)
  | inr (k, at) ↦ cc
]

-- A connection behind the last cell in use.
holds-snoc : (fd acc : ℕ) (cs : Slots) → holds fd (cs ++ some acc ∷ []) ≡ (fd == acc || holds fd cs)
holds-snoc fd acc [] = refl
holds-snoc fd acc (none ∷ cs) = holds-snoc fd acc cs
holds-snoc fd acc (some x ∷ cs) =
    ap (λ b. fd == x || b) (holds-snoc fd acc cs) ∙ or_swap (fd == x) (fd == acc) (holds fd cs)

IsDistinct-snoc :
    (acc : ℕ) (cs : Slots) → holds acc cs ≡ false → IsDistinct cs → IsDistinct (cs ++ some acc ∷ [])
IsDistinct-snoc acc [] away d = (refl, tt)
IsDistinct-snoc acc (none ∷ cs) away d = IsDistinct-snoc acc cs away d
IsDistinct-snoc acc (some x ∷ cs) away d =
    let (ne, away') = or_false (acc == x) (holds acc cs) away in
    (holds-snoc x acc cs ∙ rw (==_comm x acc, ne, d.0) refl, IsDistinct-snoc acc cs away' d.1)

-- The descriptor that was opened, and closed again.
put_open-shut :
    (opened : ℕ → Bool) (acc fd : ℕ)
    → opened acc ≡ false
    → put_open (put_open opened acc true) acc false fd ≡ opened fd
put_open-shut opened acc fd away = elim (Bool-cases (fd == acc)) [
  | inl same ↦ rw (same, ==→eq fd acc same, away) refl
  | inr ne ↦ rw ne refl
]

put_open-held :
    (opened : ℕ → Bool) (acc fd : ℕ) (b : Bool)
    → opened fd ≡ b
    → put_open opened acc true fd ≡ (fd == acc || b)
put_open-held opened acc fd b e = elim (Bool-cases (fd == acc)) [
  | inl same ↦ rw same refl
  | inr ne ↦ rw ne e
]

and_room : (b c h : Bool) → c ≡ true → (b || h) ≡ ((b && c) || h)
and_room b c h e = ground arith

and_full : (b c h : Bool) → c ≡ false → h ≡ ((b && c) || h)
and_full b c h e = ground arith

-- The table behind `accept`.
pub record Accepts (t t' : Table) (acc : Option (Option ℕ)) : Type 0 where
  pub table : IsTable t'
  pub held : (fd : ℕ) → holds fd t'.child ≡ (admits t.child acc fd || holds fd t.child)

add_child-Accepts :
    (t : Table) (acc : ℕ)
    → IsTable t
    → holds acc t.child ≡ false
    → Accepts t (add_child t acc) (some (some acc))
unfolding add_child
add_child-Accepts t acc h away = elim (Option-cases (free_slot t.child)) [
  | inr (pos, at) ↦
      let takes = free_slot-Takes t.child acc pos at in
      rw (at, add_child)
        (record {
          table = record {
            distinct = takes.apart away h.distinct;
            tracked = λ fd.
                put_open-held t.opened acc fd (holds fd t.child) (h.tracked fd)
                ∙ sym (takes.held fd);
            below = omega (arith, h.below, length-set t.child pos (some acc));
          };
          held = λ fd.
              takes.held fd
              ∙ and_room (fd == acc) (ltb (length (targets t.child)) 19) (holds fd t.child)
                  (lt→ltb (length (targets t.child)) 19 (omega (arith, takes.room, h.below)));
        })
  | inl full ↦ elim (Bool-cases (leb max_child (length t.child + 1))) [
    | inl last ↦
        rw (full, last, add_child)
          (record {
            table = record {
              distinct = h.distinct;
              tracked = λ fd. put_open-shut t.opened acc fd (h.tracked acc ∙ away) ∙ h.tracked fd;
              below = h.below;
            };
            held = λ fd.
                and_full (fd == acc) (ltb (length (targets t.child)) 19) (holds fd t.child) (
                  ge→ltb (length (targets t.child)) 19
                    (ground (arith, free_slot-none t.child full)));
          })
    | inr room ↦
        rw (full, room, add_child)
          (record {
            table = record {
              distinct = IsDistinct-snoc acc t.child away h.distinct;
              tracked = λ fd.
                  put_open-held t.opened acc fd (holds fd t.child) (h.tracked fd)
                  ∙ sym (holds-snoc fd acc t.child);
              below = ground (arith, length-snoc t.child (some acc));
            };
            held = λ fd.
                holds-snoc fd acc t.child
                ∙ and_room (fd == acc) (ltb (length (targets t.child)) 19) (holds fd t.child) (
                    lt→ltb (length (targets t.child)) 19
                      (ground (arith, free_slot-none t.child full)));
          })
  ]
]

pub accept_child-Accepts :
    (t : Table) (acc : Option (Option ℕ))
    → IsTable t
    → ((fd : ℕ) → acc ≡ some (some fd) → holds fd t.child ≡ false)
    → Accepts t (accept_child t acc) acc
accept_child-Accepts t none h fresh = record { table = h; held = λ fd. refl }
accept_child-Accepts t (some none) h fresh = record { table = h; held = λ fd. refl }
accept_child-Accepts t (some (some acc)) h fresh = add_child-Accepts t acc h (fresh acc refl)
