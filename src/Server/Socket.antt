-- ===== src/Server/Socket.antt =====
-- What `server_socket` leaves behind on each of its ways out.
use network_program.Prelude.{
  ℕ, ◌≡◌, refl, Bool, true, false, ◌&&◌, Option, none, some, List, ◌∷◌, arith, if◌then◌else◌, eq→==,
}
use network_program.Server.{remove, Calls, Opening, server_socket}

pub remove-head : (fd : ℕ) (fds : List ℕ) → remove fd (fd ∷ fds) ≡ fds
unfolding remove
remove-head fd fds = rw (eq→== fd fd refl) refl

-- The descriptors that should be open behind the call.
abbrev held : Option ℕ → List ℕ → List ℕ
held none opened = opened
held (some soc) opened = soc ∷ opened

-- How often the addresses should be freed: once if there are any.
abbrev freed : Calls → ℕ
freed c = if c.getaddrinfo_ok then 1 else 0

abbrev succeeds : Calls → Bool
succeeds c =
    (c.getaddrinfo_ok && c.getnameinfo_ok) && (c.setsockopt_ok && (c.bind_ok && c.listen_ok))

-- Whether a socket is returned, what is open then, and the frees.
abbrev pub IsClean : Calls → List ℕ → Opening → Type 0
IsClean c opened o =
    (o.rv ≡ (if succeeds c then c.socket else none))
    × (o.opened ≡ held o.rv opened)
    × (o.frees ≡ freed c)

server_socket-by_calls :
    (gai gni : Bool) (socket : Option ℕ) (opt bind listen : Bool) (opened : List ℕ)
    → let c : Calls = record {
      getaddrinfo_ok = gai;
      getnameinfo_ok = gni;
      socket = socket;
      setsockopt_ok = opt;
      bind_ok = bind;
      listen_ok = listen;
    } in
      IsClean c opened (server_socket c opened)
unfolding server_socket
server_socket-by_calls false gni s o b l opened = (refl, refl, refl)
server_socket-by_calls true false s o b l opened = (refl, refl, refl)
server_socket-by_calls true true none o b l opened = (ground arith, refl, refl)
server_socket-by_calls true true (some soc) false b l opened =
    rw (remove-head soc opened) (refl, refl, refl)
server_socket-by_calls true true (some soc) true false l opened =
    rw (remove-head soc opened) (refl, refl, refl)
server_socket-by_calls true true (some soc) true true false opened =
    rw (remove-head soc opened) (refl, refl, refl)
server_socket-by_calls true true (some soc) true true true opened = (refl, refl, refl)

-- `server_socket` returns the socket if all six calls succeed, and it is then the only new open
-- descriptor; on every other way out a socket that was opened is closed. The addresses that `getaddrinfo`
-- gave are freed exactly once on every way out.
pub server_socket-IsClean :
    (c : Calls) (opened : List ℕ) → IsClean c opened (server_socket c opened)
server_socket-IsClean c opened =
    server_socket-by_calls c.getaddrinfo_ok c.getnameinfo_ok c.socket c.setsockopt_ok c.bind_ok
      c.listen_ok opened
