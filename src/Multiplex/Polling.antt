-- ===== src/Multiplex/Polling.antt =====
-- The pass of chapter05/server3.c, over `poll`, against the pass of chapter05/server2.c, over `select`.
use network_program.Prelude.{
  ℕ, zero, suc, ◌+◌, ◌≡◌, refl, sym, ap, ◌∙◌, inl, inr, false, Option, none, some, List, [], ◌∷◌,
  ◌++◌, leb, if◌then◌else◌, Bool-cases, Option-cases, length, set,
}
use network_program.Multiplex.{
  max_child, Slots, send_recv, Table, Pass, free_slot, add_child, accept_child, select_pass,
  targets, serve_targets, poll_pass,
}
use network_program.Multiplex.View.{IsTable, CanOccur, accept_child-Accepts}
use network_program.Multiplex.Targets.{
  bind-cong, settle, add_sent, serve_targets-ready, serve_targets-idle, serve_targets-targets,
}

ready_of : Pass → List ℕ → List ℕ
ready_of p [] = []
ready_of p (fd ∷ fds) = let rest = ready_of p fds in if p.is_ready fd then fd ∷ rest else rest

-- Targets that are not ready do not matter.
serve_targets-ready_of :
    (p : Pass) (fds : List ℕ) (t : Table)
    → serve_targets p fds t ≡ serve_targets p (ready_of p fds) t
unfolding ready_of
serve_targets-ready_of p [] t = refl
serve_targets-ready_of p (fd ∷ fds) t = elim (Bool-cases (p.is_ready fd)) [
  | inr idle ↦ serve_targets-idle p fd fds t idle ∙ serve_targets-ready_of p fds t ∙ rw idle refl
  | inl is ↦
      serve_targets-ready p fd fds t is
      ∙ bind-cong (send_recv (p.array fd) (p.round fd)) _ _
          (λ a. ap (add_sent fd a) (serve_targets-ready_of p fds (settle fd a t)))
      ∙ sym (serve_targets-ready p fd (ready_of p fds) t is)
      ∙ rw is refl
]

-- The connection that was accepted is not ready.
ready_of-set :
    (p : Pass) (acc pos : ℕ) (cs : Slots)
    → p.is_ready acc ≡ false
    → free_slot cs ≡ some pos
    → ready_of p (targets (set cs pos (some acc))) ≡ ready_of p (targets cs)
unfolding targets ready_of free_slot
ready_of-set p acc pos [] idle e = cc
ready_of-set p acc zero (none ∷ cs) idle e = rw idle refl
ready_of-set p acc (suc pos) (none ∷ cs) idle e = cc
ready_of-set p acc pos (some x ∷ cs) idle e = elim (Option-cases (free_slot cs)) [
  | inl full ↦ cc
  | inr (k, at) ↦
      let here : pos ≡ suc k = cc in
      rw here (ap (λ l. if p.is_ready x then x ∷ l else l) (ready_of-set p acc k cs idle at))
]

ready_of-snoc :
    (p : Pass) (acc : ℕ) (cs : Slots)
    → p.is_ready acc ≡ false
    → ready_of p (targets (cs ++ some acc ∷ [])) ≡ ready_of p (targets cs)
unfolding targets ready_of
ready_of-snoc p acc [] idle = rw idle refl
ready_of-snoc p acc (none ∷ cs) idle = ready_of-snoc p acc cs idle
ready_of-snoc p acc (some x ∷ cs) idle =
    ap (λ l. if p.is_ready x then x ∷ l else l) (ready_of-snoc p acc cs idle)

ready_of-add_child :
    (p : Pass) (t : Table) (acc : ℕ)
    → p.is_ready acc ≡ false
    → ready_of p (targets (add_child t acc).child) ≡ ready_of p (targets t.child)
unfolding add_child
ready_of-add_child p t acc idle = elim (Option-cases (free_slot t.child)) [
  | inr (pos, at) ↦ rw (at, add_child) (ready_of-set p acc pos t.child idle at)
  | inl full ↦ elim (Bool-cases (leb max_child (length t.child + 1))) [
    | inl last ↦ rw (full, last, add_child) refl
    | inr room ↦ rw (full, room, add_child) (ready_of-snoc p acc t.child idle)
  ]
]

ready_of-accept_child :
    (p : Pass) (t : Table) (acc : Option (Option ℕ))
    → ((x : ℕ) → acc ≡ some (some x) → p.is_ready x ≡ false)
    → ready_of p (targets (accept_child t acc).child) ≡ ready_of p (targets t.child)
ready_of-accept_child p t none h = refl
ready_of-accept_child p t (some none) h = refl
ready_of-accept_child p t (some (some acc)) h = ready_of-add_child p t acc (h acc refl)

fresh-idle :
    (p : Pass) (t : Table)
    → CanOccur p t
    → (x : ℕ) → p.accepted ≡ some (some x)
    → p.is_ready x ≡ false
fresh-idle p t can x e = elim (Bool-cases (p.is_ready x)) [
  | inr idle ↦ idle
  | inl is ↦ cc (can.asked x is, can.fresh x e)
]

-- On a table whose connections are distinct and exactly the ones that are open, and where the wait
-- reports only what it was asked for, a pass over `poll` does what a pass over `select` does: it
-- sends the same replies in the same order, leaves the same table, and writes outside of an array
-- where that does.
pub poll_pass-select_pass :
    (p : Pass) (t : Table) → IsTable t → CanOccur p t → poll_pass p t ≡ select_pass p t
unfolding poll_pass select_pass
poll_pass-select_pass p t h can =
    let t' = accept_child t p.accepted in
    let acc = accept_child-Accepts t p.accepted h can.fresh in
    serve_targets-ready_of p (targets t.child) t'
    ∙ ap (λ fds. serve_targets p fds t')
        (sym (ready_of-accept_child p t p.accepted (fresh-idle p t can)))
    ∙ sym (serve_targets-ready_of p (targets t'.child) t')
    ∙ serve_targets-targets p t'.child t'.opened acc.table.distinct
