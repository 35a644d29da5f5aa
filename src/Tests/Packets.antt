-- ===== src/Tests/Packets.antt =====
-- The checksum and the raw packet at small inputs.
use network_program.Prelude.{
  ℕ, ◌≡◌, refl, true, none, some, List, [], ◌∷◌, arith, length, replicate, done, minus_one, count,
}
use network_program.RawUdp.{checksum, send_udp_raw, check_packet}
use network_program.RawUdp.Session.{Event, received, typed, ready}
use network_program.RawUdp.Packet.{IsUdpPacket, send_udp_raw_lem}

abbrev three_bytes : List ℕ
three_bytes = 0x45 ∷ 0 ∷ 255 ∷ []

checksum_of_three : checksum three_bytes ≡ 0xFEBB
unfolding checksum
checksum_of_three = refl

abbrev hwaddr : List ℕ
hwaddr = 2 ∷ 0 ∷ 0 ∷ 0 ∷ 0 ∷ 1 ∷ []

send_udp_raw_lem_example :
    (packet : List ℕ) × (send_udp_raw (some hwaddr) true three_bytes
      ≡ done (record { packet = some packet; rv = count 3 }))
    × IsUdpPacket three_bytes packet
    × (check_packet packet (length packet) ≡ done none)
    × (send_udp_raw none true three_bytes ≡ done (record { packet = none; rv = minus_one }))
send_udp_raw_lem_example = send_udp_raw_lem 2 0 0 0 0 1 true three_bytes (omega arith) (omega arith)

-- A line is typed, a packet comes in, and a long line is typed.
abbrev typed_line : Event
typed_line = ready none (some (typed (b'h' ∷ b'i' ∷ b'\n' ∷ [])))

abbrev other_packet : Event
other_packet = ready (some (received (replicate 60 1))) none
