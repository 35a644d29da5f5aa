-- ===== src/Multiplex/Mask.antt =====
-- The mask that chapter05/server2.c makes before each `select`.
use network_program.Prelude.{
  ℕ, ◌+◌, ◌≤◌, ◌<◌, ◌≡◌, ◌↔◌, inl, inr, Bool, true, false, ◌||◌, none, some, [], ◌∷◌, arith, ltb,
  ◌==◌, ==→eq, Bool-cases, length,
}
use network_program.Multiplex.{Slots, targets, make_mask}
use network_program.Multiplex.Serve.{holds}

-- Every descriptor of the table is below the width.
abbrev pub AllBelow : ℕ → Slots → Type 0
AllBelow width [] = Unit {0}
AllBelow width (none ∷ cs) = AllBelow width cs
AllBelow width (some fd ∷ cs) = (fd < width) × AllBelow width cs

-- The count is right if each descriptor is greater than those before it.
abbrev pub Ascends : ℕ → Slots → Type 0
Ascends width [] = Unit {0}
Ascends width (none ∷ cs) = Ascends width cs
Ascends width (some fd ∷ cs) = (width ≤ fd) × Ascends (fd + 1) cs

-- What the loop gives, from a width and a count.
pub record Covers (width shown : ℕ) (cs : Slots) (m : ℕ × ℕ) : Type 0 where
  pub grows : width ≤ m.0
  pub covers : AllBelow m.0 cs
  pub at_most : m.1 ≤ shown + length (targets cs)
  pub exact : (m.1 ≡ shown + length (targets cs)) ↔ Ascends width cs

make_mask-Covers : (width shown : ℕ) (cs : Slots) → Covers width shown cs (make_mask width shown cs)
unfolding make_mask targets
make_mask-Covers width shown [] = record {
  grows = omega arith;
  covers = tt;
  at_most = omega arith;
  exact = (λ e. tt, λ a. omega arith);
}
make_mask-Covers width shown (none ∷ cs) =
    let h = make_mask-Covers width shown cs in
    record { grows = h.grows; covers = h.covers; at_most = h.at_most; exact = h.exact }
make_mask-Covers width shown (some fd ∷ cs) = elim (Bool-cases (ltb width (fd + 1))) [
  | inl more ↦
      let h = make_mask-Covers (fd + 1) (shown + 1) cs in
      rw more (record {
        grows = ground (arith, h.grows);
        covers = (ground (arith, h.grows), h.covers);
        at_most = omega (arith, h.at_most);
        exact = (
          λ e. (ground (arith, more), h.exact.0 (omega (arith, e))),
          λ a. omega (arith, h.exact.1 a.1),
        );
      })
  | inr less ↦
      let h = make_mask-Covers width shown cs in
      rw less (record {
        grows = h.grows;
        covers = (ground (arith, h.grows), h.covers);
        at_most = omega (arith, h.at_most);
        exact = (λ e. absurd (omega (arith, e, h.at_most)), λ a. ground (arith, a.0));
      })
]

AllBelow-holds : (width fd : ℕ) (cs : Slots) → AllBelow width cs → holds fd cs ≡ true → fd < width
AllBelow-holds width fd [] h e = cc
AllBelow-holds width fd (none ∷ cs) h e = AllBelow-holds width fd cs h e
AllBelow-holds width fd (some x ∷ cs) h e = elim (Bool-cases (fd == x)) [
  | inl same ↦ ground (arith, ==→eq fd x same, h.0)
  | inr ne ↦ AllBelow-holds width fd cs h.1 (or_other ne e)
]
  where
    or_other : {a b : Bool} → a ≡ false → (a || b) ≡ true → b ≡ true
    or_other {a = true} n o = cc n
    or_other {a = false} n o = o

-- The width that server2.c gives `select` is above the server's socket and every connection in the
-- table. The number of children that it prints is never more than there are, and it is right exactly
-- if each connection's descriptor is greater than those in the cells before it.
pub make_mask-covers :
    (soc : ℕ) (cs : Slots)
    → let m = make_mask (soc + 1) 0 cs in
      (soc < m.0)
      × ((fd : ℕ) → holds fd cs ≡ true → fd < m.0)
      × (m.1 ≤ length (targets cs))
      × ((m.1 ≡ length (targets cs)) ↔ Ascends (soc + 1) cs)
make_mask-covers soc cs =
    let h = make_mask-Covers (soc + 1) 0 cs in
    (
      omega (arith, h.grows),
      λ fd e. AllBelow-holds _ fd cs h.covers e,
      omega (arith, h.at_most),
      (λ e. h.exact.0 (omega (arith, e)), λ a. omega (arith, h.exact.1 a)),
    )
