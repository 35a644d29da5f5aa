-- ===== src/RawUdp/Safe.antt =====
-- When the loop of the raw UDP client stays inside its arrays, and what it sends.
use network_program.Prelude.{
  ℕ, ◌≤◌, ◌<◌, ◌≡◌, refl, ◌≢◌, Bool, Option, none, some, List, [], ◌∷◌, lt→ltb, length, All,
}
use network_program.CString.{text}
use network_program.Echo.{overrun}
use network_program.RawUdp.{send_udp_raw, data_size}
use network_program.RawUdp.Checksum.{IsBytes}
use network_program.RawUdp.Packet.{IsUdpPacket}
use network_program.RawUdp.Session.{
  Recv, recv_failed, received, Input, typed, at_eof, Event, select_failed, timed_out, ready,
  Session, send_recv_loop,
}

-- A received packet is as long as its headers, and fits the array.
abbrev FitsSocket : Option Recv → Type 0
FitsSocket none = Unit {0}
FitsSocket (some recv_failed) = Unit {0}
FitsSocket (some (received bs)) = (42 ≤ length bs) × (length bs ≤ 512)

-- A typed line has at most 256 bytes.
abbrev FitsKeyboard : Option Input → Type 0
FitsKeyboard none = Unit {0}
FitsKeyboard (some at_eof) = Unit {0}
FitsKeyboard (some (typed bs)) = IsBytes (text bs) × (length (text bs) ≤ data_size)

abbrev pub Fits : Event → Type 0
Fits select_failed = Unit {0}
Fits timed_out = Unit {0}
Fits (ready soc input) = FitsSocket soc × FitsKeyboard input

-- A packet that carries something, as a receiver accepts it.
abbrev pub IsValid : List ℕ → Type 0
IsValid packet = (payload : List ℕ) × IsUdpPacket payload packet

abbrev pub IsSafe : Session → Type 0
IsSafe s = (s.ending ≢ overrun) × All IsValid s.sent

module _ (a b c d e f : ℕ) (send_ok : List ℕ → Bool) where
  abbrev address : Option (List ℕ)
  address = some (a ∷ b ∷ c ∷ d ∷ e ∷ f ∷ [])

-- A typed line of more than 256 bytes makes `send_udp_raw` write outside of its array.
pub send_recv_loop_long_line :
    (hwaddr : Option (List ℕ)) (send_ok : List ℕ → Bool) (bs buf : List ℕ) (events : List Event)
    → data_size < length (text bs)
    → (send_recv_loop hwaddr send_ok (ready none (some (typed bs)) ∷ events) buf).ending ≡ overrun
unfolding send_recv_loop send_udp_raw
send_recv_loop_long_line hwaddr send_ok bs buf events long =
    rw (lt→ltb data_size (length (text bs)) long, send_udp_raw) refl
