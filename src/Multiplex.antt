-- ===== src/Multiplex.antt =====
-- The servers that wait for many connections at once: `accept_loop` and `send_recv` of chapter05/server2.c,
-- over `select`, and of chapter05/server3.c, over `poll`. What the system calls give in a pass is a record.
-- The array `child` is the list of its first `child_no` cells, `none` for -1: the cells behind are never
-- looked at.
pub mod Serve
pub mod View
pub mod Kept
pub mod Passes
pub mod Targets
pub mod Polling
pub mod Mask
use network_program.Prelude.{
  ℕ, suc, ◌+◌, Bool, true, false, Option, none, some, List, [], ◌∷◌, ◌++◌, map, ltb, leb, ◌==◌,
  if◌then◌else◌, length, set, Run, done, ◌>>=◌, minus_one, count,
}
use network_program.CString.{text}
use network_program.Echo.{make_reply, receive_into, Round}

-- MAX_CHILD
abbrev pub max_child : ℕ
max_child = 20

abbrev pub Slots : Type 0
Slots = List (Option ℕ)

-- What `send_recv` returns, true for 0, and what it sends.
pub record Answer : Type 0 where
  pub ok : Bool
  pub replies : List (List ℕ)

-- `buf` is the array before `recv`, and the round has what `recv` and `send` give.
unfoldable pub send_recv : List ℕ → Round → Run Answer
unfolding make_reply
send_recv buf r = elim r.rv [
  | minus_one ↦ done (record { ok = false; replies = [] })
  | count len ↦
      if len == 0
      then done (record { ok = false; replies = [] })
      else (make_reply (receive_into buf r.stored) len >>= λ joined.
          done (record { ok = r.send_ok; replies = text joined ∷ [] }))
]

-- The connections and the descriptors that are open, apart from the server's own socket.
pub record Table : Type 0 where
  pub child : Slots
  pub opened : ℕ → Bool

-- What a pass finds: whether the server's socket is ready and what `accept` then gives, which
-- connections are ready, and for each what `send_recv` finds in its array and gets from its calls.
pub record Pass : Type 0 where
  pub accepted : Option (Option ℕ)
  pub is_ready : ℕ → Bool
  pub array : ℕ → List ℕ
  pub round : ℕ → Round

-- What a pass leaves: the table, and the replies with the connection of each.
pub record Served : Type 0 where
  pub table : Table
  pub sent : List (ℕ × List ℕ)

-- The descriptor is opened, or closed.
abbrev pub put_open : (ℕ → Bool) → ℕ → Bool → ℕ → Bool
put_open opened fd b x = if x == fd then b else opened x

-- `child[pos] == -1` for the first `pos`
unfoldable pub free_slot : Slots → Option ℕ
free_slot [] = none
free_slot (none ∷ cs) = some 0
free_slot (some fd ∷ cs) = elim (free_slot cs) [ none ↦ none | some pos ↦ some (suc pos) ]

-- A connection that was accepted takes a free cell or, if there is none, the next one behind; it is
-- closed if that would be the last cell of the array.
unfoldable pub add_child : Table → ℕ → Table
unfolding free_slot
add_child t acc =
    let opened = put_open t.opened acc true in
    elim (free_slot t.child) [
      | some pos ↦ record { child = set t.child pos (some acc); opened = opened }
      | none ↦
          if leb max_child (length t.child + 1)
          then record { child = t.child; opened = put_open opened acc false }
          else record { child = t.child ++ some acc ∷ []; opened = opened }
    ]

abbrev pub accept_child : Table → Option (Option ℕ) → Table
accept_child t none = t
accept_child t (some none) = t
accept_child t (some (some acc)) = add_child t acc

abbrev pub with_fd : ℕ → List (List ℕ) → List (ℕ × List ℕ)
with_fd fd replies = map (λ r. (fd, r)) replies

abbrev pub cons_child : Option ℕ → Served → Served
cons_child c s = record s { table = record { child = c ∷ s.table.child; opened = s.table.opened } }

abbrev pub cons_sent : List (ℕ × List ℕ) → Served → Served
cons_sent sent s = record s { sent = sent ++ s.sent }

-- The loop over `child` behind `select`: the cells before are left, the cell is kept or set free.
unfoldable pub serve_children : Pass → Slots → (ℕ → Bool) → Run Served
unfolding send_recv
serve_children p [] opened =
    done (record { table = record { child = []; opened = opened }; sent = [] })
serve_children p (none ∷ cs) opened = serve_children p cs opened >>= λ s. done (cons_child none s)
serve_children p (some fd ∷ cs) opened =
    let rest = λ (o : ℕ → Bool). serve_children p cs o in
    if p.is_ready fd
    then (send_recv (p.array fd) (p.round fd) >>= λ a.
        rest (if a.ok then opened else put_open opened fd false) >>= λ s.
        done (cons_sent (with_fd fd a.replies) (cons_child (if a.ok then some fd else none) s)))
    else (rest opened >>= λ s. done (cons_child (some fd) s))

-- A pass of server2.c.
unfoldable pub select_pass : Pass → Table → Run Served
unfolding serve_children add_child
select_pass p t = let t' = accept_child t p.accepted in serve_children p t'.child t'.opened

-- The descriptors that `poll` is given: behind the server's socket, those of the cells in use.
unfoldable pub targets : Slots → List ℕ
targets [] = []
targets (none ∷ cs) = targets cs
targets (some fd ∷ cs) = fd ∷ targets cs

-- `child[j] = -1` for the first `j` with `child[j] == fd`
unfoldable pub release : ℕ → Slots → Slots
release fd [] = []
release fd (none ∷ cs) = none ∷ release fd cs
release fd (some x ∷ cs) = let rest = release fd cs in if x == fd then none ∷ cs else some x ∷ rest

-- The loop over `targets` behind `poll`.
unfoldable pub serve_targets : Pass → List ℕ → Table → Run Served
unfolding send_recv release
serve_targets p [] t = done (record { table = t; sent = [] })
serve_targets p (fd ∷ fds) t =
    let rest = λ (t' : Table). serve_targets p fds t' in
    if p.is_ready fd
    then (send_recv (p.array fd) (p.round fd) >>= λ a.
        rest (
          if a.ok
          then t
          else record { child = release fd t.child; opened = put_open t.opened fd false })
        >>= λ s. done (cons_sent (with_fd fd a.replies) s))
    else rest t

-- A pass of server3.c. The targets are those from before the `accept`.
unfoldable pub poll_pass : Pass → Table → Run Served
unfolding targets serve_targets add_child
poll_pass p t = serve_targets p (targets t.child) (accept_child t p.accepted)

-- What the wait gives; a failure and a timeout change nothing.
pub data Wait : Type 0 where
  wait_failed timed_out : Wait
  ready : Pass → Wait

-- The mask of server2.c before the wait: `width`, and `count`, which is printed as the number of children.
unfoldable pub make_mask : ℕ → ℕ → Slots → ℕ × ℕ
make_mask width shown [] = (width, shown)
make_mask width shown (none ∷ cs) = make_mask width shown cs
make_mask width shown (some fd ∷ cs) =
    if ltb width (fd + 1) then make_mask (fd + 1) (shown + 1) cs else make_mask width shown cs

-- The loop of server2.c as far as the waits given, and all that it sends.
unfoldable pub accept_loop : Table → List Wait → Run Served
unfolding select_pass
accept_loop t [] = done (record { table = t; sent = [] })
accept_loop t (wait_failed ∷ waits) = accept_loop t waits
accept_loop t (timed_out ∷ waits) = accept_loop t waits
accept_loop t (ready p ∷ waits) =
    select_pass p t >>= λ s. accept_loop s.table waits >>= λ s'. done (cons_sent s.sent s')
