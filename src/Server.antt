-- ===== src/Server.antt =====
-- The accept thread of the threaded server (chapter05/server9.c): `server_socket` and `accept_loop`. What
-- the system calls give is an argument. The descriptors that are open are a list, last opened first; the
-- server's own socket is not in it.
pub mod Children
pub mod Socket
use network_program.Prelude.{
  ℕ, ◌+◌, ◌-◌, ◌%◌, Bool, false, not, Option, none, some, List, [], ◌∷◌, leb, ◌==◌, if◌then◌else◌,
  length,
}
use network_program.Sender as Sender
use network_program.Sender.{Queue, receive, recv_failed, received}

-- `close(fd)`, and EPOLL_CTL_DEL on the list of those that are watched.
unfoldable pub remove : ℕ → List ℕ → List ℕ
remove fd [] = []
remove fd (x ∷ xs) = let rest = remove fd xs in if fd == x then xs else x ∷ rest

-- What the calls of `server_socket` give, in their order.
pub record Calls : Type 0 where
  pub getaddrinfo_ok : Bool
  pub getnameinfo_ok : Bool
  pub socket : Option ℕ
  pub setsockopt_ok : Bool
  pub bind_ok : Bool
  pub listen_ok : Bool

-- The value returned, what is open, and how often the list of addresses was freed.
pub record Opening : Type 0 where
  pub rv : Option ℕ
  pub opened : List ℕ
  pub frees : ℕ

abbrev pub fails : List ℕ → ℕ → Opening
fails opened frees = record { rv = none; opened = opened; frees = frees }

-- Behind `socket`.
unfoldable pub set_up : Calls → List ℕ → ℕ → Opening
unfolding remove
set_up c opened soc =
    let held = soc ∷ opened in
    if not c.setsockopt_ok
    then fails (remove soc held) 1
    else if not c.bind_ok
    then fails (remove soc held) 1
    else if not c.listen_ok
    then fails (remove soc held) 1
    else record { rv = some soc; opened = held; frees = 1 }

unfoldable pub server_socket : Calls → List ℕ → Opening
unfolding set_up
server_socket c opened =
    if not c.getaddrinfo_ok
    then fails opened 0
    else if not c.getnameinfo_ok
    then fails opened 1
    else elim c.socket [ none ↦ fails opened 1 | some soc ↦ set_up c opened soc ]

-- MAX_CHILD
abbrev pub max_child : ℕ
max_child = 20

-- The variables of `accept_loop`, the connections that epoll watches and those that are open. `acc` is
-- none before the first `accept`, and after one that failed. `queues` is `g_queue`.
pub record Loop : Type 0 where
  pub child_count : ℕ
  pub watched : List ℕ
  pub opened : List ℕ
  pub acc : Option ℕ
  pub queues : ℕ → Queue
  pub epoll_open : Bool

-- A ready descriptor: the server socket, with what `accept` and EPOLL_CTL_ADD give, or a connection, with
-- what `recv` and EPOLL_CTL_DEL give.
pub data Event : Type 0 where
  server_ready : Option ℕ → Bool → Event
  client_ready : ℕ → Sender.Recv → Bool → Event

-- The loop goes on, or the function returns.
pub data Next : Type 0 where
  goes_on : Loop → Next
  returns : Loop → Next

abbrev max_sender : ℕ
max_sender = 2

-- `g_queue[qi]`
abbrev pub put_queue : (ℕ → Queue) → ℕ → Queue → ℕ → Queue
put_queue queues qi q i = if i == qi then q else queues i

abbrev pub close_acc : Option ℕ → List ℕ → List ℕ
close_acc none opened = opened
close_acc (some fd) opened = remove fd opened

-- `close(acc); close(epollfd); return;`
abbrev pub give_up : Loop → Next
give_up l = returns (record l { opened = close_acc l.acc l.opened; epoll_open = false })

unfoldable pub on_accept : Loop → Option ℕ → Bool → Next
unfolding remove
on_accept l none add_ok = goes_on (record l { acc = none })
on_accept l (some acc) add_ok =
    let l' = record l { acc = some acc; opened = acc ∷ l.opened } in
    if leb max_child (l.child_count + 1)
    then goes_on (record l' { opened = remove acc l'.opened })
    else if add_ok
    then goes_on (record l' { watched = acc ∷ l.watched; child_count = l.child_count + 1 })
    else give_up l'

-- A connection that is at its end, or broken.
unfoldable pub on_end : Loop → ℕ → Bool → Next
unfolding remove
on_end l fd del_ok =
    if del_ok
    then goes_on (record l {
      watched = remove fd l.watched;
      opened = remove fd l.opened;
      child_count = l.child_count - 1;
    })
    else give_up l

unfoldable pub on_client : Loop → ℕ → Sender.Recv → Bool → Next
unfolding on_end
on_client l fd r del_ok =
    let qi = fd % max_sender in
    let l' = record l { queues = put_queue l.queues qi (receive (l.queues qi) fd r) } in
    elim r [
      | recv_failed ↦ on_end l' fd del_ok
      | received bs ↦ if length bs == 0 then on_end l' fd del_ok else goes_on l'
    ]

unfoldable pub handle : Loop → Event → Next
unfolding on_accept on_client
handle l (server_ready acc add_ok) = on_accept l acc add_ok
handle l (client_ready fd r del_ok) = on_client l fd r del_ok

-- What follows, if the function has not returned.
abbrev pub and_then : Next → (Loop → Next) → Next
and_then (goes_on l) f = f l
and_then (returns l) f = returns l

-- The events of one `epoll_wait` in their order.
unfoldable pub handle_all : Loop → List Event → Next
unfolding handle
handle_all l [] = goes_on l
handle_all l (e ∷ events) = and_then (handle l e) λ l'. handle_all l' events

-- What `epoll_wait` gives; a failure and a timeout change nothing.
pub data Wait : Type 0 where
  wait_failed timed_out : Wait
  ready : List Event → Wait

-- The loop as far as the waits given, behind `epoll_create` and the EPOLL_CTL_ADD of the server's socket,
-- where the function returns at once if one of them fails.
unfoldable pub accept_loop : Loop → List Wait → Next
unfolding handle_all
accept_loop l [] = goes_on l
accept_loop l (wait_failed ∷ waits) = accept_loop l waits
accept_loop l (timed_out ∷ waits) = accept_loop l waits
accept_loop l (ready events ∷ waits) = and_then (handle_all l events) λ l'. accept_loop l' waits
