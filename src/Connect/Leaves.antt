-- ===== src/Connect/Leaves.antt =====
-- What `client_socket_with_timeout` of chapter04/client-timeout.c returns, and what it leaves behind.
use network_program.Prelude.{
  ℕ, ◌≡◌, refl, inl, inr, Bool, true, false, Option, none, some, List, [], ◌∷◌, ◌==◌, if◌then◌else◌,
  Bool-cases, Option-cases, Run, done, blocked, eintr, eagain, other,
}
use network_program.Receive.{Socket, set_block}
use network_program.Server.Socket.{remove-head}
use network_program.Connect.{
  Connected, connected, refused, in_progress, Wait, wait_failed, timed_out, ready, Calls, Client,
  gives_up, succeeds_with, wait_loop, connect_socket, client_socket_with_timeout,
}

-- Whether the first result of `select` that decides is a connection; none if there is none.
abbrev pub decides : List Wait → Option Bool
decides [] = none
decides (wait_failed eintr ∷ ws) = decides ws
decides (wait_failed eagain ∷ ws) = some false
decides (wait_failed other ∷ ws) = some false
decides (timed_out ∷ ws) = some false
decides (ready false false value ∷ ws) = decides ws
decides (ready true readable none ∷ ws) = some false
decides (ready true readable (some v) ∷ ws) = some (v == 0)
decides (ready false true none ∷ ws) = some false
decides (ready false true (some v) ∷ ws) = some (v == 0)

-- Whether `connect` and what follows it end in a connection.
abbrev pub connects : Calls → Option Bool
connects c = elim c.connect [
  | connected ↦ some true
  | refused ↦ some false
  | in_progress ↦ if c.timed then decides c.waits else some false
]

-- What the call should leave: on success the socket alone is open besides what was, else nothing.
abbrev pub leaves : Option ℕ → List ℕ → List ℕ
leaves none opened = opened
leaves (some soc) opened = soc ∷ opened

abbrev pub result : Bool → ℕ → Option ℕ
result b soc = if b then some soc else none

-- The outcome for a socket that was made.
pub record IsLeft (opened : List ℕ) (soc : ℕ) (b : Bool) (r : Client) : Type 0 where
  pub value : r.rv ≡ result b soc
  pub open_ones : r.opened ≡ leaves r.rv opened
  pub freed : r.frees ≡ 1

abbrev pub Ends : List ℕ → ℕ → Option Bool → Run Client → Type 0
Ends opened soc none m = m ≡ blocked
Ends opened soc (some b) m = (r : Client) × (m ≡ done r) × IsLeft opened soc b r

gives_up-IsLeft :
    (s : Socket) (opened : List ℕ) (soc : ℕ)
    → IsLeft opened soc false (gives_up s (soc ∷ opened) soc)
unfolding gives_up
gives_up-IsLeft s opened soc = record {
  value = refl;
  open_ones = remove-head soc opened;
  freed = refl;
}

succeeds_with-IsLeft :
    (c : Calls) (s : Socket) (opened : List ℕ) (soc : ℕ)
    → IsLeft opened soc true (succeeds_with c s (soc ∷ opened) soc)
unfolding succeeds_with
succeeds_with-IsLeft c s opened soc = record { value = refl; open_ones = refl; freed = refl }

value-Ends :
    (c : Calls) (s : Socket) (opened : List ℕ) (soc v : ℕ)
    → Ends opened soc (some (v == 0)) (
        if v == 0
        then done (succeeds_with c s (soc ∷ opened) soc)
        else done (gives_up s (soc ∷ opened) soc))
value-Ends c s opened soc v = elim (Bool-cases (v == 0)) [
  | inl fine ↦ rw fine (_, refl, succeeds_with-IsLeft c s opened soc)
  | inr bad ↦ rw bad (_, refl, gives_up-IsLeft s opened soc)
]

wait_loop-Ends :
    (c : Calls) (s : Socket) (opened : List ℕ) (soc : ℕ) (ws : List Wait)
    → Ends opened soc (decides ws) (wait_loop c s (soc ∷ opened) soc ws)
unfolding wait_loop
wait_loop-Ends c s opened soc [] = refl
wait_loop-Ends c s opened soc (wait_failed eintr ∷ ws) = wait_loop-Ends c s opened soc ws
wait_loop-Ends c s opened soc (wait_failed eagain ∷ ws) = (_, refl, gives_up-IsLeft s opened soc)
wait_loop-Ends c s opened soc (wait_failed other ∷ ws) = (_, refl, gives_up-IsLeft s opened soc)
wait_loop-Ends c s opened soc (timed_out ∷ ws) = (_, refl, gives_up-IsLeft s opened soc)
wait_loop-Ends c s opened soc (ready false false value ∷ ws) = wait_loop-Ends c s opened soc ws
wait_loop-Ends c s opened soc (ready true readable none ∷ ws) =
    (_, refl, gives_up-IsLeft s opened soc)
wait_loop-Ends c s opened soc (ready true readable (some v) ∷ ws) = value-Ends c s opened soc v
wait_loop-Ends c s opened soc (ready false true none ∷ ws) = (_, refl, gives_up-IsLeft s opened soc)
wait_loop-Ends c s opened soc (ready false true (some v) ∷ ws) = value-Ends c s opened soc v

connect_socket-Ends :
    (c : Calls) (s : Socket) (opened : List ℕ) (soc : ℕ) (timed : Bool) (e : Connected)
    → c.timed ≡ timed
    → c.connect ≡ e
    → Ends opened soc (connects c) (connect_socket c s opened soc)
unfolding connect_socket
connect_socket-Ends c s opened soc true connected t e =
    rw (t, e, connect_socket) (_, refl, succeeds_with-IsLeft c _ opened soc)
connect_socket-Ends c s opened soc true refused t e =
    rw (t, e, connect_socket) (_, refl, gives_up-IsLeft _ opened soc)
connect_socket-Ends c s opened soc true in_progress t e =
    rw (t, e, connect_socket) (wait_loop-Ends c _ opened soc c.waits)
connect_socket-Ends c s opened soc false connected t e =
    rw (t, e, connect_socket) (_, refl, record { value = refl; open_ones = refl; freed = refl })
connect_socket-Ends c s opened soc false refused t e =
    rw (t, e, connect_socket) (_, refl, gives_up-IsLeft s opened soc)
connect_socket-Ends c s opened soc false in_progress t e =
    rw (t, e, connect_socket) (_, refl, gives_up-IsLeft s opened soc)

-- What the call should do, by the calls before `connect`.
abbrev pub WithoutSocket : List ℕ → ℕ → Run Client → Type 0
WithoutSocket opened frees m =
    (r : Client) × (m ≡ done r) × (r.rv ≡ none) × (r.opened ≡ opened) × (r.frees ≡ frees)

abbrev pub Outcome : List ℕ → Bool → Bool → Option ℕ → Option Bool → Run Client → Type 0
Outcome opened false gni socket b m = WithoutSocket opened 0 m
Outcome opened true false socket b m = WithoutSocket opened 1 m
Outcome opened true true none b m = WithoutSocket opened 1 m
Outcome opened true true (some soc) b m = Ends opened soc b m

-- `client_socket_with_timeout` returns the socket if the calls before `connect` succeed and either the
-- connection is made at once or, with a limit of time, the first result of `select` that is neither a
-- signal nor without news reports the socket with no error in SO_ERROR; it returns -1 on every
-- other way out, and goes on waiting only while no such result has come. A socket that is not
-- returned is closed, one that is returned is the only new open descriptor, and the addresses are
-- freed once if there are any.
pub client_socket_with_timeout-Outcome :
    (c : Calls) (s : Socket) (opened : List ℕ)
    → Outcome opened c.getaddrinfo_ok c.getnameinfo_ok c.socket
        (connects c)
        (client_socket_with_timeout c s opened)
unfolding client_socket_with_timeout
client_socket_with_timeout-Outcome c s opened = elim (Bool-cases c.getaddrinfo_ok) [
  | inr no_address ↦ rw (no_address, client_socket_with_timeout) (_, refl, refl, refl, refl)
  | inl address ↦ elim (Bool-cases c.getnameinfo_ok) [
    | inr no_name ↦ rw (address, no_name, client_socket_with_timeout) (_, refl, refl, refl, refl)
    | inl name ↦ elim (Option-cases c.socket) [
      | inl no_socket ↦
          rw (address, name, no_socket, client_socket_with_timeout) (_, refl, refl, refl, refl)
      | inr (soc, made) ↦
          rw (address, name, made, client_socket_with_timeout)
            (connect_socket-Ends c s opened soc c.timed c.connect refl refl)
    ]
  ]
]

-- The socket that is returned after waiting is blocking again, if `fcntl` succeeds.
succeeds_with_blocks :
    (c : Calls) (s : Socket) (opened : List ℕ) (soc : ℕ)
    → c.blocks.getfl_ok ≡ true
    → c.blocks.setfl_ok ≡ true
    → (succeeds_with c s opened soc).state.nonblock ≡ false
unfolding succeeds_with set_block
succeeds_with_blocks c s opened soc get set_ok = rw (get, set_ok) refl
