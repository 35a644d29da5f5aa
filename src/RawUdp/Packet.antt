-- ===== src/RawUdp/Packet.antt =====
-- The packet that the client sends is well-formed.
use network_program.Prelude.{
  ℕ, ◌+◌, ◌≤◌, ◌≡◌, refl, Bool, none, some, List, [], ◌∷◌, ◌++◌, arith, if◌then◌else◌, ge→ltb,
  length, take, drop, done, minus_one, count,
}
use network_program.RawUdp.{
  data_size, le16, pseudo_header, udp_front, ip_front, ip_back, udp_check, ip_sum, build_packet,
  send_udp_raw, checksum, check_packet, net16,
}
use network_program.RawUdp.Checksum.{IsBytes, checksum_verifies}

ip_sum_verifies : (n : ℕ) → checksum (ip_front n ++ (le16 (ip_sum n) ++ ip_back)) ≡ 0xFFFF
unfolding ip_sum
ip_sum_verifies n = checksum_verifies (ip_front n) ip_back (omega arith) (omega arith) (omega arith)

udp_check_verifies :
    (payload : List ℕ)
    → IsBytes payload
    → checksum (
        pseudo_header (length payload)
        ++ (udp_front (length payload) ++ (le16 (udp_check payload) ++ payload)))
      ≡ 0xFFFF
unfolding udp_check
udp_check_verifies payload h =
    checksum_verifies (pseudo_header (length payload) ++ udp_front (length payload)) payload
      (omega arith) h (omega arith)

-- What a receiver finds in a packet that carries `payload`.
pub record IsUdpPacket (payload packet : List ℕ) : Type 0 where
  pub size : length packet ≡ 42 + length payload
  pub ip_valid : checksum (take 20 (drop 14 packet)) ≡ 0xFFFF
  pub udp_valid : checksum (pseudo_header (length payload) ++ drop 34 packet) ≡ 0xFFFF
  pub ip_len : net16 packet 16 ≡ 28 + length payload
  pub udp_len : net16 packet 38 ≡ 8 + length payload
  pub carries : drop 42 packet ≡ payload

module _ (a b c d e f : ℕ) where
  abbrev address : List ℕ
  address = a ∷ b ∷ c ∷ d ∷ e ∷ f ∷ []

  build_packet_valid :
      (payload : List ℕ)
      → IsBytes payload
      → length payload ≤ data_size
      → IsUdpPacket payload (build_packet address payload)
  unfolding build_packet
  build_packet_valid payload h small = record {
    size = omega arith;
    ip_valid = ip_sum_verifies (length payload);
    udp_valid = udp_check_verifies payload h;
    ip_len = omega arith;
    udp_len = omega arith;
    carries = refl;
  }

  -- For a payload of at most 256 bytes, `send_udp_raw` stays inside its arrays. Where SIOCGIFHWADDR
  -- gives the address of the interface, it sends a packet of 42 bytes and the payload: the IP header
  -- and the UDP packet with its pseudo header are accepted by the checksum, both lengths are right, and
  -- the payload stands behind the headers. It returns the payload's length, or -1 if `send` fails. The
  -- client's own packet, read back, is not taken for a reply. Where SIOCGIFHWADDR fails, it sends
  -- nothing and returns -1.
  pub send_udp_raw_lem :
      (ok : Bool) (payload : List ℕ)
      → IsBytes payload
      → length payload ≤ data_size
      → (packet : List ℕ) × (send_udp_raw (some address) ok payload
          ≡ done (record {
            packet = some packet;
            rv = if ok then count (length payload) else minus_one;
          }))
        × IsUdpPacket payload packet
        × (check_packet packet (length packet) ≡ done none)
        × (send_udp_raw none ok payload ≡ done (record { packet = none; rv = minus_one }))
  unfolding send_udp_raw check_packet
  send_udp_raw_lem ok payload h small =
      let valid = build_packet_valid payload h small in
      (
        build_packet address payload,
        rw (ge→ltb data_size (length payload) small),
        valid,
        refl,
        rw (ge→ltb data_size (length payload) small) refl,
      )
