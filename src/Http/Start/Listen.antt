-- ===== src/Http/Start/Listen.antt =====
-- The socket that `listen_socket` returns, and the others that it closes.
use network_program.Prelude.{
  ℕ, ◌≡◌, refl, ap, ◌⊎◌, inl, inr, Bool, true, false, Option, none, some, List, [], ◌∷◌, ◌++◌,
  eq→==, All,
}
use network_program.Http.Start.{Address, Listening, listen_socket, close}

-- An address on which all three calls succeed.
abbrev pub Serves : ℕ → Address → Type 0
Serves fd ai = (ai.socket ≡ some fd) × (ai.bind_ok ≡ true) × (ai.listen_ok ≡ true)

abbrev pub NoService : Address → Type 0
NoService ai = (fd : ℕ) → ¬ Serves fd ai

-- The first address that serves gives `fd`.
pub record FirstServes (res : List Address) (fd : ℕ) : Type 0 where
  pub before : List Address
  pub ai : Address
  pub after : List Address
  pub splits : res ≡ before ++ ai ∷ after
  pub none_before : All NoService before
  pub serves : Serves fd ai

-- None is returned and none is left open, or the one that is returned is left open.
abbrev pub Leaves : List Address → List ℕ → Listening → Type 0
Leaves res opened l =
    ((l.fd ≡ none) × (l.opened ≡ opened) × All NoService res)
    ⊎ ((fd : ℕ) × (l.fd ≡ some fd) × (l.opened ≡ fd ∷ opened) × FirstServes res fd)

Leaves-cons :
    (ai : Address) (res : List Address) (opened : List ℕ) (l : Listening)
    → NoService ai
    → Leaves res opened l
    → Leaves (ai ∷ res) opened l
Leaves-cons ai res opened l not_here (inl (a, b, all)) = inl (a, b, (not_here, all))
Leaves-cons ai res opened l not_here (inr (fd, a, b, first)) = inr (
  fd,
  a,
  b,
  record {
    before = ai ∷ first.before;
    ai = first.ai;
    after = first.after;
    splits = ap (λ k. ai ∷ k) first.splits;
    none_before = (not_here, first.none_before);
    serves = first.serves;
  },
)

close-head : (fd : ℕ) (fds : List ℕ) → close fd (fd ∷ fds) ≡ fds
close-head fd fds = rw (eq→== fd fd refl) refl

-- One address, where the loop goes on with the rest of them.
listen_socket-step :
    (socket : Option ℕ) (bind_ok listen_ok : Bool) (res : List Address) (opened : List ℕ)
    → Leaves res opened (listen_socket res opened)
    → let ai : Address = record { socket = socket; bind_ok = bind_ok; listen_ok = listen_ok } in
      Leaves (ai ∷ res) opened (listen_socket (ai ∷ res) opened)
unfolding listen_socket
listen_socket-step none b l res opened next = Leaves-cons _ res opened _ (λ fd s. cc) next
listen_socket-step (some sock) false l res opened next =
    rw (close-head sock opened) (Leaves-cons _ res opened _ (λ fd s. cc) next)
listen_socket-step (some sock) true false res opened next =
    rw (close-head sock opened) (Leaves-cons _ res opened _ (λ fd s. cc) next)
listen_socket-step (some sock) true true res opened next = inr (
  sock,
  refl,
  refl,
  record {
    before = [];
    ai = _;
    after = res;
    splits = refl;
    none_before = tt;
    serves = (refl, refl, refl);
  },
)

-- The socket that is returned is the one of the first address on which `socket`, `bind` and `listen` all
-- succeed; it is the only descriptor that the loop leaves open beside those that were open before. Where
-- there is no such address none is returned, and every socket that was opened is closed.
pub listen_socket-Leaves :
    (res : List Address) (opened : List ℕ) → Leaves res opened (listen_socket res opened)
unfolding listen_socket
listen_socket-Leaves [] opened = inl (refl, refl, tt)
listen_socket-Leaves (ai ∷ res) opened =
    listen_socket-step ai.socket ai.bind_ok ai.listen_ok res opened
      (listen_socket-Leaves res opened)
