-- ===== src/Multiplex/Serve.antt =====
-- What the loop over the ready connections of chapter05/server2.c does to the table, and what it sends.
use network_program.Prelude.{
  ℕ, ◌≡◌, refl, ap, inl, inr, Bool, true, false, not, ◌&&◌, ◌||◌, none, some, List, [], ◌∷◌, ◌++◌,
  ◌==◌, if◌then◌else◌, Bool-cases, length, done, minus_one, count,
}
use network_program.Echo.{buf_size, Round}
use network_program.Echo.Reply.{reply_to, make_reply_lem, Fits}
use network_program.Multiplex.{Slots, send_recv, Pass, put_open, with_fd, serve_children, targets}

-- The connection is in the table.
abbrev pub holds : ℕ → Slots → Bool
holds fd [] = false
holds fd (none ∷ cs) = holds fd cs
holds fd (some x ∷ cs) = fd == x || holds fd cs

-- The connection has ended, or its reply could not be sent.
abbrev pub is_lost : Round → Bool
is_lost r = elim r.rv [ minus_one ↦ true | count len ↦ len == 0 || not r.send_ok ]

-- The replies that one expects: one to what was received.
abbrev pub expected : Round → List (List ℕ)
expected r = elim r.rv [
  | minus_one ↦ []
  | count len ↦ if len == 0 then [] else reply_to r.stored ∷ []
]

abbrev pub drops : Pass → ℕ → Bool
drops p fd = p.is_ready fd && is_lost (p.round fd)

-- Each ready connection finds an array of 512 bytes, and `recv` does not fill it.
abbrev pub FitsAll : Pass → Type 0
FitsAll p = (fd : ℕ) → p.is_ready fd ≡ true → (length (p.array fd) ≡ buf_size) × Fits (p.round fd)

abbrev pub kept : Pass → Slots → Slots
kept p [] = []
kept p (none ∷ cs) = none ∷ kept p cs
kept p (some fd ∷ cs) = (if drops p fd then none else some fd) ∷ kept p cs

abbrev pub closing : Pass → Slots → (ℕ → Bool) → ℕ → Bool
closing p [] opened = opened
closing p (none ∷ cs) opened = closing p cs opened
closing p (some fd ∷ cs) opened =
    closing p cs (if drops p fd then put_open opened fd false else opened)

abbrev pub sent_of : Pass → List ℕ → List (ℕ × List ℕ)
sent_of p [] = []
sent_of p (fd ∷ fds) =
    (if p.is_ready fd then with_fd fd (expected (p.round fd)) else []) ++ sent_of p fds

negated_twice : (b : Bool) → b ≡ not (not b)
negated_twice true = refl
negated_twice false = refl

pub send_recv_lem :
    (buf : List ℕ) (r : Round)
    → length buf ≡ buf_size
    → Fits r
    → send_recv buf r ≡ done (record { ok = not (is_lost r); replies = expected r })
unfolding send_recv
send_recv_lem buf r size (inl failed) = rw failed refl
send_recv_lem buf r size (inr (len, lt)) =
    let (buf', runs, sent, _) = make_reply_lem buf r.stored size lt in
    elim (Bool-cases (length r.stored == 0)) [
      | inl empty ↦ rw (len, empty) refl
      | inr some_bytes ↦
          rw (len, some_bytes, runs, sent)
            (ap (λ b. done (record { ok = b; replies = reply_to r.stored ∷ [] }))
              (negated_twice r.send_ok))
    ]

pub serve_children-done :
    (p : Pass) (cs : Slots) (opened : ℕ → Bool)
    → FitsAll p
    → serve_children p cs opened
      ≡ done (record {
        table = record { child = kept p cs; opened = closing p cs opened };
        sent = sent_of p (targets cs);
      })
unfolding serve_children targets
serve_children-done p [] opened h = refl
serve_children-done p (none ∷ cs) opened h = rw (serve_children-done p cs opened h) refl
serve_children-done p (some fd ∷ cs) opened h = elim (Bool-cases (p.is_ready fd)) [
  | inr idle ↦ rw (idle, serve_children-done p cs opened h) refl
  | inl ready ↦
      let (size, fits) = h fd ready in
      elim (Bool-cases (is_lost (p.round fd))) [
        | inl fail ↦
            rw
              (
                ready,
                send_recv_lem (p.array fd) (p.round fd) size fits,
                fail,
                serve_children-done p cs (put_open opened fd false) h,
              )
              refl
        | inr fine ↦
            rw
              (
                ready,
                send_recv_lem (p.array fd) (p.round fd) size fits,
                fine,
                serve_children-done p cs opened h,
              )
              refl
      ]
]
