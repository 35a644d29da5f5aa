-- ===== src/Server/Children.antt =====
-- The count of the children, and the connections that are open.
use network_program.Prelude.{
  ℕ, suc, ◌+◌, ◌<◌, ◌≡◌, refl, sym, ap, ◌∙◌, ◌≢◌, ◌⊎◌, inl, inr, Bool, true, false, Option, none,
  some, List, [], ◌∷◌, arith, leb, ◌==◌, ==→eq, ==→ne, ne→==, Bool-cases, length,
}
use network_program.Sender as Sender
use network_program.Sender.{receive, recv_failed, received}
use network_program.Server.{
  remove, close_acc, max_child, Loop, Event, server_ready, client_ready, Next, goes_on, returns,
  Wait, wait_failed, timed_out, ready, on_accept, on_end, on_client, handle, handle_all, and_then,
  accept_loop,
}
use network_program.Server.Socket.{remove-head}

-- A descriptor is in the list.
abbrev pub Has : ℕ → List ℕ → Type 0
Has fd [] = ⊥
Has fd (x ∷ xs) = (fd ≡ x) ⊎ Has fd xs

-- The count is the number of connections, which are all watched, and it stays below the limit.
pub record IsCounted (l : Loop) : Type 0 where
  pub counted : l.child_count ≡ length l.watched
  pub all_watched : l.opened ≡ l.watched
  pub below : l.child_count < max_child
  pub epoll : l.epoll_open ≡ true

-- An event that epoll can give: a connection is ready only while it is watched.
abbrev pub CanOccur : Loop → Event → Type 0
CanOccur l (server_ready acc add_ok) = Unit {0}
CanOccur l (client_ready fd r del_ok) = Has fd l.watched

-- What holds of the state, if the function has not returned.
abbrev pub IfGoesOn : Next → (Loop → Type 0) → Type 0
IfGoesOn (goes_on l) P = P l
IfGoesOn (returns l) P = Unit {0}

-- Each of the events can occur when its turn comes.
abbrev pub AllCanOccur : Loop → List Event → Type 0
AllCanOccur l [] = Unit {0}
AllCanOccur l (e ∷ events) = CanOccur l e × IfGoesOn (handle l e) (λ l'. AllCanOccur l' events)

-- The loop has a well-formed state as long as it goes on.
abbrev pub StaysCounted : Next → Type 0
StaysCounted (goes_on l) = IsCounted l
StaysCounted (returns l) = l.epoll_open ≡ false

Has-remove : (fd acc : ℕ) (xs : List ℕ) → fd ≢ acc → Has fd xs → Has fd (remove acc xs)
unfolding remove
Has-remove fd acc [] ne h = h
Has-remove fd acc (x ∷ xs) ne h = elim (Bool-cases (acc == x)) [
  | inl here ↦ elim h [
    | inl e ↦ absurd (ne (e ∙ sym (==→eq acc x here)))
    | inr there ↦ rw here there
  ]
  | inr elsewhere ↦ elim h [
    | inl e ↦ rw elsewhere (inl e)
    | inr there ↦ rw elsewhere (inr (Has-remove fd acc xs ne there))
  ]
]

length-remove : (fd : ℕ) (xs : List ℕ) → Has fd xs → suc (length (remove fd xs)) ≡ length xs
unfolding remove
length-remove fd [] h = elim h [ ]
length-remove fd (x ∷ xs) h = elim (Bool-cases (fd == x)) [
  | inl here ↦ rw here refl
  | inr elsewhere ↦ elim h [
    | inl e ↦ absurd (==→ne fd x elsewhere e)
    | inr there ↦ rw elsewhere (ap suc (length-remove fd xs there))
  ]
]

on_accept-StaysCounted :
    (l : Loop) (acc : Option ℕ) (add_ok : Bool)
    → IsCounted l
    → StaysCounted (on_accept l acc add_ok)
unfolding on_accept
on_accept-StaysCounted l none add_ok h = record {
  counted = h.counted;
  all_watched = h.all_watched;
  below = h.below;
  epoll = h.epoll;
}
on_accept-StaysCounted l (some acc) add_ok h =
    elim (Bool-cases (leb max_child (l.child_count + 1))) [
      | inl full ↦
          rw (full, on_accept)
            (record {
              counted = h.counted;
              all_watched = remove-head acc l.opened ∙ h.all_watched;
              below = h.below;
              epoll = h.epoll;
            })
      | inr room ↦
          rw (room, on_accept)
            (elim (Bool-cases add_ok) [
              | inl added ↦ rw added (record {
                counted = omega (arith, h.counted);
                all_watched = ap (λ k. acc ∷ k) h.all_watched;
                below = ground (arith, room);
                epoll = h.epoll;
              })
              | inr refused ↦ rw refused refl
            ])
    ]

on_end-StaysCounted :
    (l : Loop) (fd : ℕ) (del_ok : Bool)
    → IsCounted l
    → Has fd l.watched
    → StaysCounted (on_end l fd del_ok)
unfolding on_end
on_end-StaysCounted l fd false h has = refl
on_end-StaysCounted l fd true h has = record {
  counted = omega (arith, length-remove fd l.watched has, h.counted);
  all_watched = ap (remove fd) h.all_watched;
  below = omega (arith, h.below);
  epoll = h.epoll;
}

on_client-StaysCounted :
    (l : Loop) (fd : ℕ) (r : Sender.Recv) (del_ok : Bool)
    → IsCounted l
    → Has fd l.watched
    → StaysCounted (on_client l fd r del_ok)
unfolding on_client
on_client-StaysCounted l fd recv_failed del_ok h has =
    on_end-StaysCounted _ fd del_ok
      (record {
        counted = h.counted;
        all_watched = h.all_watched;
        below = h.below;
        epoll = h.epoll;
      })
      has
on_client-StaysCounted l fd (received []) del_ok h has =
    on_end-StaysCounted _ fd del_ok
      (record {
        counted = h.counted;
        all_watched = h.all_watched;
        below = h.below;
        epoll = h.epoll;
      })
      has
on_client-StaysCounted l fd (received (b ∷ bs)) del_ok h has =
    rw (ne→== (suc (length bs)) 0 (omega arith), on_client)
      (record {
        counted = h.counted;
        all_watched = h.all_watched;
        below = h.below;
        epoll = h.epoll;
      })

handle-StaysCounted :
    (l : Loop) (e : Event) → IsCounted l → CanOccur l e → StaysCounted (handle l e)
unfolding handle
handle-StaysCounted l (server_ready acc add_ok) h can = on_accept-StaysCounted l acc add_ok h
handle-StaysCounted l (client_ready fd r del_ok) h can = on_client-StaysCounted l fd r del_ok h can

and_then-StaysCounted :
    (P : Loop → Type 0) (n : Next) (f : Loop → Next)
    → StaysCounted n
    → IfGoesOn n P
    → ((l : Loop) → IsCounted l → P l → StaysCounted (f l))
    → StaysCounted (and_then n f)
and_then-StaysCounted P (goes_on l) f h can go = go l h can
and_then-StaysCounted P (returns l) f h can go = h

handle_all-StaysCounted :
    (l : Loop) (events : List Event)
    → IsCounted l
    → AllCanOccur l events
    → StaysCounted (handle_all l events)
unfolding handle_all
handle_all-StaysCounted l [] h can = h
handle_all-StaysCounted l (e ∷ events) h can =
    and_then-StaysCounted (λ l'. AllCanOccur l' events) (handle l e) (λ l'. handle_all l' events)
      (handle-StaysCounted l e h can.0) can.1
      (λ l' h' can'. handle_all-StaysCounted l' events h' can')

-- The same of the waits: each batch can occur when its turn comes.
abbrev pub WaitsCanOccur : Loop → List Wait → Type 0
WaitsCanOccur l [] = Unit {0}
WaitsCanOccur l (wait_failed ∷ waits) = WaitsCanOccur l waits
WaitsCanOccur l (timed_out ∷ waits) = WaitsCanOccur l waits
WaitsCanOccur l (ready events ∷ waits) =
    AllCanOccur l events × IfGoesOn (handle_all l events) (λ l'. WaitsCanOccur l' waits)

-- Whatever the system calls give, as long as epoll reports a connection only while it is watched: while the
-- accept loop goes on, its count is the number of the connections that are watched, these are exactly
-- the ones that are open, and there are at most 19; when it returns, the epoll descriptor is closed.
pub accept_loop-StaysCounted :
    (l : Loop) (waits : List Wait)
    → IsCounted l
    → WaitsCanOccur l waits
    → StaysCounted (accept_loop l waits)
unfolding accept_loop
accept_loop-StaysCounted l [] h can = h
accept_loop-StaysCounted l (wait_failed ∷ waits) h can = accept_loop-StaysCounted l waits h can
accept_loop-StaysCounted l (timed_out ∷ waits) h can = accept_loop-StaysCounted l waits h can
accept_loop-StaysCounted l (ready events ∷ waits) h can =
    and_then-StaysCounted (λ l'. WaitsCanOccur l' waits) (handle_all l events)
      (λ l'. accept_loop l' waits) (handle_all-StaysCounted l events h can.0) can.1
      (λ l' h' can'. accept_loop-StaysCounted l' waits h' can')

-- When EPOLL_CTL_DEL fails for a connection at its end, `accept_loop` returns, and the connection is still
-- open unless it is the one accepted last, which is closed instead.
pub on_end_keeps :
    (l : Loop) (fd acc : ℕ)
    → l.acc ≡ some acc
    → fd ≢ acc
    → Has fd l.opened
    → (l' : Loop) × (on_end l fd false ≡ returns l') × Has fd l'.opened
unfolding on_end
on_end_keeps l fd acc is ne has = (
  record l { opened = close_acc l.acc l.opened; epoll_open = false },
  refl,
  rw is (Has-remove fd acc l.opened ne has),
)
