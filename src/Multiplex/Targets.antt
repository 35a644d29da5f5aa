-- ===== src/Multiplex/Targets.antt =====
-- The loop of chapter05/server3.c over its targets against the loop of chapter05/server2.c over its cells.
use network_program.Prelude.{
  ℕ, ◌≡◌, refl, sym, ap, ◌∙◌, inl, inr, Bool, true, false, Option, none, some, List, [], ◌∷◌, ◌==◌,
  if◌then◌else◌, eq→==, Bool-cases, All, Run, done, blocked, fault, ◌>>=◌,
}
use network_program.Multiplex.{
  Slots, Answer, send_recv, Table, Pass, Served, put_open, with_fd, cons_child, cons_sent,
  serve_children, targets, release, serve_targets,
}
use network_program.Multiplex.Serve.{holds}
use network_program.Multiplex.View.{IsDistinct, or_false}

module _ {ℓ κ} {A : Type ℓ} {B : Type κ} where
  pub bind-cong : (m : Run A) (f g : A → Run B) → ((a : A) → f a ≡ g a) → (m >>= f) ≡ (m >>= g)
  bind-cong (done a) f g h = h a
  bind-cong blocked f g h = refl
  bind-cong fault f g h = refl

-- The cell is free, or its connection is none of these.
abbrev Avoids : Option ℕ → List ℕ → Type 0
Avoids none fds = Unit {0}
Avoids (some x) fds = All (λ fd. (x == fd) ≡ false) fds

Avoids-tail : (c : Option ℕ) (fd : ℕ) (fds : List ℕ) → Avoids c (fd ∷ fds) → Avoids c fds
Avoids-tail none fd fds h = tt
Avoids-tail (some x) fd fds h = h.1

release-Avoids :
    (c : Option ℕ) (fd : ℕ) (fds : List ℕ) (cs : Slots)
    → Avoids c (fd ∷ fds)
    → release fd (c ∷ cs) ≡ c ∷ release fd cs
unfolding release
release-Avoids none fd fds cs h = refl
release-Avoids (some x) fd fds cs h = rw h.0 refl

abbrev table_of : Slots → (ℕ → Bool) → Table
table_of cs opened = record { child = cs; opened = opened }

-- The table behind `send_recv`.
unfoldable pub settle : ℕ → Answer → Table → Table
settle fd a t =
    if a.ok then t else record { child = release fd t.child; opened = put_open t.opened fd false }

unfoldable pub add_sent : ℕ → Answer → Run Served → Run Served
add_sent fd a m = m >>= λ s. done (cons_sent (with_fd fd a.replies) s)

add_cell : Option ℕ → Run Served → Run Served
add_cell c m = m >>= λ s. done (cons_child c s)

add_cell-add_sent :
    (c : Option ℕ) (fd : ℕ) (a : Answer) (m : Run Served)
    → add_sent fd a (add_cell c m) ≡ add_cell c (add_sent fd a m)
unfolding add_sent add_cell
add_cell-add_sent c fd a (done s) = refl
add_cell-add_sent c fd a blocked = refl
add_cell-add_sent c fd a fault = refl

add_cell-bind :
    (c : Option ℕ) (m : Run Answer) (f : Answer → Run Served)
    → (m >>= λ a. add_cell c (f a)) ≡ add_cell c (m >>= f)
unfolding add_cell
add_cell-bind c (done a) f = refl
add_cell-bind c blocked f = refl
add_cell-bind c fault f = refl

serve_targets-nil :
    (p : Pass) (c : Option ℕ) (cs : Slots) (opened : ℕ → Bool)
    → serve_targets p [] (table_of (c ∷ cs) opened)
      ≡ add_cell c (serve_targets p [] (table_of cs opened))
unfolding serve_targets add_cell
serve_targets-nil p c cs opened = refl

pub serve_targets-ready :
    (p : Pass) (fd : ℕ) (fds : List ℕ) (t : Table)
    → p.is_ready fd ≡ true
    → serve_targets p (fd ∷ fds) t ≡ (
        send_recv (p.array fd) (p.round fd) >>= λ a.
        add_sent fd a (serve_targets p fds (settle fd a t)))
unfolding serve_targets settle add_sent
serve_targets-ready p fd fds t is = rw is refl

pub serve_targets-idle :
    (p : Pass) (fd : ℕ) (fds : List ℕ) (t : Table)
    → p.is_ready fd ≡ false
    → serve_targets p (fd ∷ fds) t ≡ serve_targets p fds t
unfolding serve_targets
serve_targets-idle p fd fds t idle = rw idle refl

settle-cons :
    (c : Option ℕ) (fd : ℕ) (fds : List ℕ) (cs : Slots) (opened : ℕ → Bool) (a : Answer)
    → Avoids c (fd ∷ fds)
    → settle fd a (table_of (c ∷ cs) opened)
      ≡ table_of
          (c ∷ (settle fd a (table_of cs opened)).child)
          (settle fd a (table_of cs opened)).opened
unfolding settle
settle-cons c fd fds cs opened a h = elim (Bool-cases a.ok) [
  | inl fine ↦ rw fine refl
  | inr bad ↦
      rw bad (ap (λ k. table_of k (put_open opened fd false)) (release-Avoids c fd fds cs h))
]

-- A cell that is none of the targets stays as it is.
serve_targets-cons :
    (p : Pass) (fds : List ℕ) (c : Option ℕ) (cs : Slots) (opened : ℕ → Bool)
    → Avoids c fds
    → serve_targets p fds (table_of (c ∷ cs) opened)
      ≡ add_cell c (serve_targets p fds (table_of cs opened))
serve_targets-cons p [] c cs opened h = serve_targets-nil p c cs opened
serve_targets-cons p (fd ∷ fds) c cs opened h =
    let h' = Avoids-tail c fd fds h in
    let t = table_of cs opened in
    elim (Bool-cases (p.is_ready fd)) [
      | inr idle ↦
          serve_targets-idle p fd fds (table_of (c ∷ cs) opened) idle
          ∙ serve_targets-cons p fds c cs opened h'
          ∙ ap (add_cell c) (sym (serve_targets-idle p fd fds t idle))
      | inl is ↦
          serve_targets-ready p fd fds (table_of (c ∷ cs) opened) is
          ∙ bind-cong (send_recv (p.array fd) (p.round fd)) _ _ (λ a.
            ap (λ k. add_sent fd a (serve_targets p fds k)) (settle-cons c fd fds cs opened a h)
            ∙ ap (add_sent fd a)
                (serve_targets-cons p fds c (settle fd a t).child (settle fd a t).opened h')
            ∙ add_cell-add_sent c fd a (serve_targets p fds (settle fd a t)))
          ∙ add_cell-bind c (send_recv (p.array fd) (p.round fd))
              (λ a. add_sent fd a (serve_targets p fds (settle fd a t)))
          ∙ ap (add_cell c) (sym (serve_targets-ready p fd fds t is))
    ]

-- The cells are distinct, so that the first cell is none of the other targets.
Avoids-targets : (x : ℕ) (cs : Slots) → holds x cs ≡ false → Avoids (some x) (targets cs)
unfolding targets
Avoids-targets x [] h = tt
Avoids-targets x (none ∷ cs) h = Avoids-targets x cs h
Avoids-targets x (some y ∷ cs) h =
    let (ne, h') = or_false (x == y) (holds x cs) h in (ne, Avoids-targets x cs h')

settle-head :
    (x : ℕ) (a : Answer) (cs : Slots) (opened : ℕ → Bool)
    → settle x a (table_of (some x ∷ cs) opened)
      ≡ table_of
          ((if a.ok then some x else none) ∷ cs)
          (if a.ok then opened else put_open opened x false)
unfolding settle release
settle-head x a cs opened = elim (Bool-cases a.ok) [
  | inl fine ↦ rw fine refl
  | inr bad ↦ rw (bad, eq→== x x refl) refl
]

add_both :
    (c : Option ℕ) (x : ℕ) (a : Answer) (m : Run Served)
    → (m >>= λ s. done (cons_sent (with_fd x a.replies) (cons_child c s)))
      ≡ add_sent x a (add_cell c m)
unfolding add_sent add_cell
add_both c x a (done s) = refl
add_both c x a blocked = refl
add_both c x a fault = refl

serve_children-none :
    (p : Pass) (cs : Slots) (opened : ℕ → Bool)
    → serve_children p (none ∷ cs) opened ≡ add_cell none (serve_children p cs opened)
unfolding serve_children add_cell
serve_children-none p cs opened = refl

serve_children-idle :
    (p : Pass) (x : ℕ) (cs : Slots) (opened : ℕ → Bool)
    → p.is_ready x ≡ false
    → serve_children p (some x ∷ cs) opened ≡ add_cell (some x) (serve_children p cs opened)
unfolding serve_children add_cell
serve_children-idle p x cs opened idle = rw idle refl

serve_children-ready :
    (p : Pass) (x : ℕ) (cs : Slots) (opened : ℕ → Bool)
    → p.is_ready x ≡ true
    → serve_children p (some x ∷ cs) opened ≡ (
        send_recv (p.array x) (p.round x) >>= λ a. add_sent x a (
          add_cell
            (if a.ok then some x else none)
            (serve_children p cs (if a.ok then opened else put_open opened x false))))
unfolding serve_children
serve_children-ready p x cs opened is = rw is (
    bind-cong (send_recv (p.array x) (p.round x)) _ _ (λ a.
      add_both (if a.ok then some x else none) x a
        (serve_children p cs (if a.ok then opened else put_open opened x false))))

Avoids-kept :
    (b : Bool) (x : ℕ) (fds : List ℕ)
    → Avoids (some x) fds
    → Avoids (if b then some x else none) fds
Avoids-kept true x fds h = h
Avoids-kept false x fds h = tt

serve_nothing :
    (p : Pass) (opened : ℕ → Bool)
    → serve_targets p [] (table_of [] opened) ≡ serve_children p [] opened
unfolding serve_targets serve_children
serve_nothing p opened = refl

pub serve_targets-targets :
    (p : Pass) (cs : Slots) (opened : ℕ → Bool)
    → IsDistinct cs
    → serve_targets p (targets cs) (table_of cs opened) ≡ serve_children p cs opened
unfolding targets
serve_targets-targets p [] opened d = serve_nothing p opened
serve_targets-targets p (none ∷ cs) opened d =
    serve_targets-cons p (targets cs) none cs opened tt
    ∙ ap (add_cell none) (serve_targets-targets p cs opened d)
    ∙ sym (serve_children-none p cs opened)
serve_targets-targets p (some x ∷ cs) opened d =
    let t = table_of (some x ∷ cs) opened in
    let away = Avoids-targets x cs d.0 in
    elim (Bool-cases (p.is_ready x)) [
      | inr idle ↦
          serve_targets-idle p x (targets cs) t idle
          ∙ serve_targets-cons p (targets cs) (some x) cs opened away
          ∙ ap (add_cell (some x)) (serve_targets-targets p cs opened d.1)
          ∙ sym (serve_children-idle p x cs opened idle)
      | inl is ↦
          serve_targets-ready p x (targets cs) t is
          ∙ bind-cong (send_recv (p.array x) (p.round x)) _ _ (λ a.
            let c = if a.ok then some x else none in
            let opened' = if a.ok then opened else put_open opened x false in
            ap (add_sent x a) (
              ap (serve_targets p (targets cs)) (settle-head x a cs opened)
              ∙ serve_targets-cons p (targets cs) c cs opened'
                  (Avoids-kept a.ok x (targets cs) away)
              ∙ ap (add_cell c) (serve_targets-targets p cs opened' d.1)))
          ∙ sym (serve_children-ready p x cs opened is)
    ]
