-- ===== src/Udp.antt =====
-- The UDP programs: chapter09/u-server.c and u-server-m.c (the socket, and the loop that answers
-- datagrams), chapter09/u-client.c (the loop over the socket and the keyboard). An address is a number.
pub mod Replies
pub mod Target
pub mod Arrays
pub mod Played
pub mod Typed
use network_program.Prelude.{
  ℕ, zero, suc, ◌+◌, ◌-◌, ◌*◌, ◌/◌, ◌%◌, ◌^◌, ◌≤◌, ◌<◌, min, ◌≡◌, refl, sym, ap, ◌∙◌, ◌≢◌, ◌↔◌, ◌⊎◌,
  inl, inr, Bool, true, false, not, ◌&&◌, ◌||◌, Option, none, some, List, [], ◌∷◌, ◌++◌, map,
  append_assoc, append-nil, arith, ltb, leb, ◌==◌, if◌then◌else◌, ltb→lt, lt→ltb, ltb→ge, ge→ltb,
  ==→eq, eq→==, ==→ne, ne→==, tests, Bool-cases, Option-cases, length, get_elem?, set, take, drop,
  replicate, All, length-append, length-snoc, length-set, length-take, length-drop,
  length-replicate, take-append-drop, take-append, drop-append, take-append_ge, drop-append_ge,
  take-append_le, drop-append_le, take-take, set-append, All-snoc, All-append, map-snoc,
  get_elem?-append, get_elem?-take, take-store, take-set, take-set_ge, take-nil, drop-nil,
  get_elem?-set_self, get_elem?-set_ne, get_elem?-lt, Run, done, blocked, fault, ◌>>=◌, write,
  write-lt, write-ge, Ret, minus_one, count, Errno, eintr, eagain, other,
}
use network_program.CString.{text}
use network_program.Echo.{receive_into, make_reply, Ending, waiting, over, overrun}
use network_program.Server.{remove, Opening, fails}

-- What the calls of `udp_server_socket` and `udp_server_socket_mcast` give, in their order.
pub record Calls : Type 0 where
  pub getaddrinfo_ok : Bool
  pub getnameinfo_ok : Bool
  pub socket : Option ℕ
  pub setsockopt_ok : Bool
  pub bind_ok : Bool
  pub membership_ok : Bool

-- Behind `socket`; `last_ok` is what the call behind `bind` gives.
unfoldable pub set_up : Calls → Bool → List ℕ → ℕ → Opening
unfolding remove
set_up c last_ok opened soc =
    let held = soc ∷ opened in
    if not c.setsockopt_ok
    then fails (remove soc held) 1
    else if not c.bind_ok
    then fails (remove soc held) 1
    else if not last_ok
    then fails (remove soc held) 1
    else record { rv = some soc; opened = held; frees = 1 }

abbrev open_socket : Calls → Bool → List ℕ → Opening
open_socket c last_ok opened =
    if not c.getaddrinfo_ok
    then fails opened 0
    else if not c.getnameinfo_ok
    then fails opened 1
    else elim c.socket [ none ↦ fails opened 1 | some soc ↦ set_up c last_ok opened soc ]

-- Nothing follows `bind` here.
unfoldable pub udp_server_socket : Calls → List ℕ → Opening
unfolding set_up
udp_server_socket c opened = open_socket c true opened

-- Here the socket joins the group.
unfoldable pub udp_server_socket_mcast : Calls → List ℕ → Opening
unfolding set_up
udp_server_socket_mcast c opened = open_socket c c.membership_ok opened

-- One pass of the server: what `recvfrom` gives, from whom, and whether `sendto` succeeds.
pub record Datagram : Type 0 where
  pub from : ℕ
  pub rv : Ret
  pub stored : List ℕ
  pub send_ok : Bool

-- The replies, each with the address it goes to.
pub record Answers : Type 0 where
  pub sent : List (ℕ × List ℕ)
  pub ending : Ending

abbrev pub ends_by : Ending → Answers
ends_by e = record { sent = []; ending = e }

-- `sendto(soc, buf, strlen(buf), ...)`; where it fails the loop is over.
abbrev pub after_reply : Run (List ℕ) → Datagram → (List ℕ → Answers) → Answers
after_reply fault d rest = ends_by overrun
after_reply blocked d rest = ends_by waiting
after_reply (done buf) d rest =
    if d.send_ok
    then record (rest buf) { sent = (d.from, text buf) ∷ (rest buf).sent }
    else ends_by over

-- The server's loop. A failed `recvfrom` is only reported, and `buf[-1] = '\0'` follows.
unfoldable pub answer_loop : List ℕ → List Datagram → Answers
unfolding make_reply
answer_loop buf [] = ends_by waiting
answer_loop buf (d ∷ ds) =
    let go = λ (b : List ℕ). answer_loop b ds in
    elim d.rv [
      | minus_one ↦ ends_by overrun
      | count len ↦ after_reply (make_reply (receive_into buf d.stored) len) d go
    ]

-- What is left behind the delimiters at the front.
abbrev pub skip_delims : (ℕ → Bool) → List ℕ → List ℕ
skip_delims delim [] = []
skip_delims delim (c ∷ cs) = let rest = skip_delims delim cs in if delim c then rest else c ∷ cs

-- The token at the front, and what stands behind the delimiter that ends it.
abbrev pub cut_token : (ℕ → Bool) → List ℕ → List ℕ × List ℕ
cut_token delim [] = ([], [])
cut_token delim (c ∷ cs) =
    let rest = cut_token delim cs in if delim c then ([], cs) else (c ∷ rest.0, rest.1)

-- `strtok`, with what it keeps for the next call as an argument and a result.
unfoldable pub strtok : (ℕ → Bool) → List ℕ → Option (List ℕ × List ℕ)
strtok delim s = elim (skip_delims delim s) [ [] ↦ none | c ∷ cs ↦ some (cut_token delim (c ∷ cs)) ]

abbrev pub is_colon : ℕ → Bool
is_colon c = c == b':'

abbrev pub ends_line : ℕ → Bool
ends_line c = c == b'\r' || c == b'\n'

abbrev pub with_port : List ℕ → Option (List ℕ × List ℕ) → Option (List ℕ × List ℕ)
with_port hostnm none = none
with_port hostnm (some (portnm, _)) = some (hostnm, portnm)

abbrev pub with_host : Option (List ℕ × List ℕ) → Option (List ℕ × List ℕ)
with_host none = none
with_host (some (hostnm, rest)) = with_port hostnm (strtok ends_line rest)

-- `hostnm` and `portnm` of a line.
unfoldable pub target : List ℕ → Option (List ℕ × List ℕ)
target line = with_host (strtok is_colon line)

-- What `getaddrinfo` and `getnameinfo` give for a host and a port.
pub record Lookup : Type 0 where
  pub address : Option ℕ
  pub getnameinfo_ok : Bool

-- The address, none where -1 is returned, and how often the list of addresses was freed.
unfoldable pub get_sockaddr_info : Lookup → Option ℕ × ℕ
get_sockaddr_info l = elim l.address [
  | none ↦ (none, 0)
  | some saddr ↦ (if l.getnameinfo_ok then some saddr else none, 1)
]

pub record Arrival : Type 0 where
  pub rv : Ret
  pub stored : List ℕ

-- What `fgets` gives, a line of at most 511 bytes, and whether the input is then at its end.
pub record Key : Type 0 where
  pub line : List ℕ
  pub eof : Bool
  pub send_ok : Bool

-- One pass of the client: `select` fails or times out, or it reports the socket, the keyboard or both.
pub data Event : Type 0 where
  quiet : Event
  ready : Option Arrival → Option Key → Event

-- How a pass leaves the loop: going on with `buf`, or not.
pub data Next : Type 0 where
  goes_on : List ℕ → Next
  stops : Ending → Next

pub record Pass : Type 0 where
  pub shown : List (List ℕ)
  pub sent : List (ℕ × List ℕ)
  pub next : Next

abbrev pub stays : List ℕ → Pass
stays buf = record { shown = []; sent = []; next = goes_on buf }

abbrev pub ends : Ending → Pass
ends e = record { shown = []; sent = []; next = stops e }

abbrev pub shows : Run (List ℕ) → Pass
shows (done buf) = record { shown = text buf ∷ []; sent = []; next = goes_on buf }
shows blocked = ends waiting
shows fault = ends overrun

unfoldable pub on_socket : List ℕ → Option Arrival → Pass
on_socket buf none = stays buf
on_socket buf (some a) = elim a.rv [
  | minus_one ↦ ends over
  | count len ↦ shows (write (receive_into buf a.stored) len 0)
]

abbrev pub found : (List ℕ → List ℕ → Lookup) → Option (List ℕ × List ℕ) → Option ℕ
found lookup none = none
found lookup (some (hostnm, portnm)) = (get_sockaddr_info (lookup hostnm portnm)).0

-- The address of a line's host and port.
abbrev pub address_of : (List ℕ → List ℕ → Lookup) → List ℕ → Option ℕ
address_of lookup line = found lookup (target line)

abbrev pub send_to : Option ℕ → Bool → List ℕ → Pass
send_to none send_ok buf = stays buf
send_to (some to) send_ok buf =
    if send_ok
    then record { shown = []; sent = (to, text buf) ∷ []; next = goes_on buf }
    else ends over

unfoldable pub on_keyboard : (List ℕ → List ℕ → Lookup) → List ℕ → Option Key → Pass
on_keyboard lookup buf none = stays buf
on_keyboard lookup buf (some k) =
    if k.eof
    then ends over
    else let buf' = receive_into buf (k.line ++ 0 ∷ []) in
      send_to (address_of lookup (text buf')) k.send_ok buf'

-- A pass, and what follows where it lets the loop go on.
abbrev pub followed_by : Pass → (List ℕ → Pass) → Pass
followed_by p rest = elim p.next [
  | goes_on buf ↦ record {
    shown = p.shown ++ (rest buf).shown;
    sent = p.sent ++ (rest buf).sent;
    next = (rest buf).next;
  }
  | stops e ↦ p
]

unfoldable pub pass : (List ℕ → List ℕ → Lookup) → List ℕ → Event → Pass
unfolding on_socket on_keyboard
pass lookup buf quiet = stays buf
pass lookup buf (ready a k) = followed_by (on_socket buf a) (λ b. on_keyboard lookup b k)

-- The client's loop. Where the events end first it waits for the next.
unfoldable pub client_loop : (List ℕ → List ℕ → Lookup) → List ℕ → List Event → Pass
unfolding pass
client_loop lookup buf [] = ends waiting
client_loop lookup buf (e ∷ es) = followed_by (pass lookup buf e) (λ b. client_loop lookup b es)
