-- ===== src/RawUdp/Session.antt =====
-- The loop of the raw UDP client (chapter10/raw-u-client.c, `send_recv_loop`) over the keyboard and the
-- socket. The array of 512 bytes serves both.
use network_program.Prelude.{
  ℕ, Bool, Option, none, some, List, [], ◌∷◌, ◌++◌, length, Run, done, blocked, fault, minus_one,
  count,
}
use network_program.CString.{text}
use network_program.Echo.{receive_into, Ending, waiting, over, overrun}
use network_program.RawUdp.{Sending, send_udp_raw, check_packet}

-- `recv` on the raw socket
pub data Recv : Type 0 where
  recv_failed : Recv
  received : List ℕ → Recv

-- `fgets` from the keyboard, and `feof` behind it
pub data Input : Type 0 where
  typed : List ℕ → Input
  at_eof : Input

-- What `select` gives, with the two descriptors where they are ready.
pub data Event : Type 0 where
  select_failed timed_out : Event
  ready : Option Recv → Option Input → Event

-- What was printed and sent, and how the loop stands.
pub record Session : Type 0 where
  pub printed : List (List ℕ)
  pub sent : List (List ℕ)
  pub ending : Ending

abbrev pub stands : Ending → Session
stands e = record { printed = []; sent = []; ending = e }

abbrev pub printing : Run (Option (List ℕ)) → Session → Session
printing fault s = stands overrun
printing blocked s = stands waiting
printing (done none) s = s
printing (done (some payload)) s = record s { printed = payload ∷ s.printed }

abbrev pub packets : Option (List ℕ) → List (List ℕ)
packets none = []
packets (some p) = p ∷ []

-- A failed `send_udp_raw` ends the loop.
abbrev pub sending : Run Sending → Session → Session
sending fault s = stands overrun
sending blocked s = stands waiting
sending (done r) s = elim r.rv [
  | minus_one ↦ record { printed = []; sent = packets r.packet; ending = over }
  | count size ↦ record s { sent = packets r.packet ++ s.sent }
]

-- A failed `recv` leaves the switch, so the keyboard waits for the next pass: `next`.
abbrev pub on_socket : Option Recv → List ℕ → (List ℕ → Session) → (List ℕ → Session) → Session
on_socket none buf keyboard next = keyboard buf
on_socket (some recv_failed) buf keyboard next = next buf
on_socket (some (received bs)) buf keyboard next =
    printing (check_packet (receive_into buf bs) (length bs)) (keyboard (receive_into buf bs))

module _ (hwaddr : Option (List ℕ)) (send_ok : List ℕ → Bool) where
  abbrev pub on_keyboard : Option Input → List ℕ → (List ℕ → Session) → Session
  on_keyboard none buf next = next buf
  on_keyboard (some at_eof) buf next = stands over
  on_keyboard (some (typed bs)) buf next =
      sending (send_udp_raw hwaddr (send_ok (text bs)) (text bs))
        (next (receive_into buf (bs ++ 0 ∷ [])))

  unfoldable pub send_recv_loop : List Event → List ℕ → Session
  unfolding send_udp_raw check_packet
  send_recv_loop [] buf = stands waiting
  send_recv_loop (select_failed ∷ events) buf = send_recv_loop events buf
  send_recv_loop (timed_out ∷ events) buf = send_recv_loop events buf
  send_recv_loop (ready soc input ∷ events) buf =
      let next = λ (b : List ℕ). send_recv_loop events b in
      on_socket soc buf (λ b. on_keyboard input b next) next
