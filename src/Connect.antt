-- ===== src/Connect.antt =====
-- Connecting with a limit of time: `client_socket_with_timeout` of chapter04/client-timeout.c, with the
-- `set_block` of that file, whose text is the one of chapter06/timeout.c.
pub mod Leaves
use network_program.Prelude.{
  ℕ, Bool, true, false, not, ◌||◌, Option, none, some, List, [], ◌∷◌, ◌==◌, if◌then◌else◌, Run,
  done, blocked, Errno, eintr, eagain, other,
}
use network_program.Receive.{Socket, Fcntl, set_block}
use network_program.Server.{remove}

-- What `connect` gives: it is done, it failed, or it goes on (EINPROGRESS).
pub data Connected : Type 0 where
  connected refused in_progress : Connected

-- What `select` gives: an error, a timeout, or whether the socket can be written or read, and then what
-- `getsockopt` gives, the value of SO_ERROR if it succeeds.
pub data Wait : Type 0 where
  wait_failed : Errno → Wait
  timed_out : Wait
  ready : Bool → Bool → Option ℕ → Wait

-- What the calls give. `timed` is false for a limit below 0.
pub record Calls : Type 0 where
  pub getaddrinfo_ok : Bool
  pub getnameinfo_ok : Bool
  pub socket : Option ℕ
  pub timed : Bool
  pub unblocks : Fcntl
  pub connect : Connected
  pub waits : List Wait
  pub blocks : Fcntl

-- The value returned, the settings of the socket, what is open, and how often the list of addresses
-- was freed.
pub record Client : Type 0 where
  pub rv : Option ℕ
  pub state : Socket
  pub opened : List ℕ
  pub frees : ℕ

-- `close(soc); freeaddrinfo(res0); return (-1);`
unfoldable pub gives_up : Socket → List ℕ → ℕ → Client
unfolding remove
gives_up s opened soc = record { rv = none; state = s; opened = remove soc opened; frees = 1 }

-- `set_block(soc, 1); freeaddrinfo(res0); return(soc);`
unfoldable pub succeeds_with : Calls → Socket → List ℕ → ℕ → Client
unfolding set_block
succeeds_with c s opened soc = record {
  rv = some soc;
  state = (set_block c.blocks s 1).1;
  opened = opened;
  frees = 1;
}

abbrev pub is_eintr : Errno → Bool
is_eintr eintr = true
is_eintr eagain = false
is_eintr other = false

-- The loop that waits for the connection. With no more results of `select` it waits.
unfoldable pub wait_loop : Calls → Socket → List ℕ → ℕ → List Wait → Run Client
unfolding gives_up succeeds_with
wait_loop c s opened soc [] = blocked
wait_loop c s opened soc (wait_failed e ∷ ws) =
    let rest = wait_loop c s opened soc ws in
    if is_eintr e then rest else done (gives_up s opened soc)
wait_loop c s opened soc (timed_out ∷ ws) = done (gives_up s opened soc)
wait_loop c s opened soc (ready writable readable value ∷ ws) =
    let rest = wait_loop c s opened soc ws in
    if writable || readable
    then elim value [
      | none ↦ done (gives_up s opened soc)
      | some v ↦
          if v == 0 then done (succeeds_with c s opened soc) else done (gives_up s opened soc)
    ]
    else rest

-- Behind `socket`.
unfoldable pub connect_socket : Calls → Socket → List ℕ → ℕ → Run Client
unfolding gives_up succeeds_with wait_loop
connect_socket c s opened soc =
    let held = soc ∷ opened in
    if c.timed
    then (let s' = (set_block c.unblocks s 0).1 in
        elim c.connect [
          | connected ↦ done (succeeds_with c s' held soc)
          | refused ↦ done (gives_up s' held soc)
          | in_progress ↦ wait_loop c s' held soc c.waits
        ])
    else elim c.connect [
      | connected ↦ done (record { rv = some soc; state = s; opened = held; frees = 1 })
      | refused ↦ done (gives_up s held soc)
      | in_progress ↦ done (gives_up s held soc)
    ]

-- `s` is the state of a socket that was just made.
unfoldable pub client_socket_with_timeout : Calls → Socket → List ℕ → Run Client
unfolding connect_socket
client_socket_with_timeout c s opened =
    if not c.getaddrinfo_ok
    then done (record { rv = none; state = s; opened = opened; frees = 0 })
    else if not c.getnameinfo_ok
    then done (record { rv = none; state = s; opened = opened; frees = 1 })
    else elim c.socket [
      | none ↦ done (record { rv = none; state = s; opened = opened; frees = 1 })
      | some soc ↦ connect_socket c s opened soc
    ]
