-- ===== src/Pdump/Headers.antt =====
-- The texts that chapter10/pdump.c prints of the IP, TCP, UDP and ICMP headers.
use network_program.Prelude.{
  ℕ, ◌+◌, ◌*◌, ◌/◌, ◌%◌, ◌^◌, ◌||◌, List, [], ◌∷◌, ◌++◌, ◌==◌, if◌then◌else◌, Run, done,
}
use network_program.Http.{str}
use network_program.Http.Number.{decimal}
use network_program.RawUdp.{byte_at, net16}
use network_program.Pdump.Print.{◌>>◌, hex, field, named, show_bytes, part}

-- `proto` of `print_ip`, and of `print_ipv6`
abbrev pub proto : List (List ℕ)
proto =
    str "undefined"
    ∷ str "ICMP"
    ∷ str "IGMP"
    ∷ str "undefined"
    ∷ str "IPIP"
    ∷ str "undefined"
    ∷ str "TCP"
    ∷ str "undefined"
    ∷ str "EGP"
    ∷ str "undefined"
    ∷ str "undefined"
    ∷ str "undefined"
    ∷ str "PUP"
    ∷ str "undefined"
    ∷ str "undefined"
    ∷ str "undefined"
    ∷ str "undefined"
    ∷ str "UDP"
    ∷ []

-- `ntohl` of the four bytes at `i`.
abbrev pub net32 : List ℕ → ℕ → ℕ
net32 bs i = net16 bs i * 2 ^ 16 + net16 bs (i + 2)

-- The bytes at `i` as a little-endian host reads them.
abbrev pub host16 : List ℕ → ℕ → ℕ
host16 bs i = byte_at bs i + byte_at bs (i + 1) * 256

abbrev pub host32 : List ℕ → ℕ → ℕ
host32 bs i = host16 bs i + host16 bs (i + 2) * 2 ^ 16

-- `inet_ntoa` of four bytes.
unfoldable pub inet_ntoa : List ℕ → Run (List ℕ)
unfolding show_bytes
inet_ntoa addr = show_bytes (b'.' ∷ []) decimal 0 4 addr

abbrev pub number : List ℕ → ℕ → List ℕ → Run (List ℕ)
number name n behind = field name (decimal n) behind

unfoldable pub print_ip : List ℕ → Run (List ℕ)
unfolding inet_ntoa
print_ip ip =
    done (str "ip------------------------------------------------------------------------------\n")
    >> number (str "ip_v = ") (byte_at ip 0 / 16) (str ", ")
    >> number (str "ip_hl = ") (byte_at ip 0 % 16) (str ", ")
    >> field (str "ip_tos = ") (hex (byte_at ip 1)) (str ", ")
    >> number (str "ip_len = ") (net16 ip 2) (str "\n")
    >> number (str "ip_id = ") (net16 ip 4) (str ", ")
    >> field (str "ip_off = ") (hex (net16 ip 6 / 2 ^ 13)) (str ", ")
    >> number [] (net16 ip 6 % 2 ^ 13) (str "\n")
    >> number (str "ip_ttl = ") (byte_at ip 8) (str ", ")
    >> number (str "ip_p = ") (byte_at ip 9) []
    >> named proto 17 (str "(undefined)") (byte_at ip 9)
    >> number (str ", ip_sum = ") (net16 ip 10) (str "\n")
    >> done (str "ip_src = ")
    >> inet_ntoa (part 12 4 ip)
    >> done (str "\nip_dst = ")
    >> inet_ntoa (part 16 4 ip)
    >> done (str "\n")

-- `inet_ntop` of an IPv6 address is the argument.
unfoldable pub print_ipv6 : (List ℕ → List ℕ) → List ℕ → Run (List ℕ)
print_ipv6 inet_ntop ip6_hdr =
    done (str "ip6-----------------------------------------------------------------------------\n")
    >> number (str "ip6_vfc = ") (byte_at ip6_hdr 0) (str "\n")
    >> number (str "ip6_flow = ") (host32 ip6_hdr 0) (str "\n")
    >> number (str "ip6_plen = ") (host16 ip6_hdr 4) (str "\n")
    >> named proto 17 (str "(undefined)") (byte_at ip6_hdr 6)
    >> number (str ", ip6_hlim = ") (byte_at ip6_hdr 7) (str "\n")
    >> done (str "ip6_src = " ++ (inet_ntop (part 8 16 ip6_hdr) ++ str "\n"))
    >> done (str "ip6_dst = " ++ (inet_ntop (part 24 16 ip6_hdr) ++ str "\n"))

-- A flag of the byte at 13.
abbrev pub flag : List ℕ → ℕ → ℕ
flag tcphdr bit = byte_at tcphdr 13 / 2 ^ bit % 2

unfoldable pub print_tcphdr : List ℕ → Run (List ℕ)
print_tcphdr tcphdr =
    done (str "tcphdr--------------------------------------------------------------------------\n")
    >> number (str "source = ") (net16 tcphdr 0) (str ", ")
    >> number (str "dest = ") (net16 tcphdr 2) (str "\n")
    >> number (str "seq = ") (net32 tcphdr 4) (str "\n")
    >> number (str "ack_seq = ") (net32 tcphdr 8) (str "\n")
    >> number (str "doff = ") (byte_at tcphdr 12 / 16) (str ", ")
    >> number (str "urg = ") (flag tcphdr 5) (str ", ")
    >> number (str "ack = ") (flag tcphdr 4) (str ", ")
    >> number (str "psh = ") (flag tcphdr 3) (str ", ")
    >> number (str "rst = ") (flag tcphdr 2) (str ", ")
    >> number (str "syn = ") (flag tcphdr 1) (str ", ")
    >> number (str "fin = ") (flag tcphdr 0) (str ", ")
    >> number (str "th_win = ") (net16 tcphdr 14) (str "\n")
    >> number (str "th_sum = ") (net16 tcphdr 16) (str ", ")
    >> number (str "th_urp = ") (net16 tcphdr 18) (str "\n")

unfoldable pub print_tcp_optpad : List ℕ → ℕ → Run (List ℕ)
unfolding show_bytes hex
print_tcp_optpad opts size =
    done (str "option, pad = ") >> show_bytes (str ", ") hex 0 size opts >> done (str "\n")

unfoldable pub print_udphdr : List ℕ → Run (List ℕ)
print_udphdr udphdr =
    done (str "udphdr--------------------------------------------------------------------------\n")
    >> number (str "source = ") (net16 udphdr 0) (str ", ")
    >> number (str "dest = ") (net16 udphdr 2) (str "\n")
    >> number (str "len = ") (net16 udphdr 4) (str ", ")
    >> number (str "check = ") (net16 udphdr 6) (str "\n")

-- `type` of `print_icmp`
abbrev pub icmp_types : List (List ℕ)
icmp_types =
    str "Echo Reply"
    ∷ str "undefined"
    ∷ str "undefined"
    ∷ str "Destination Unreachable"
    ∷ str "Source Quench"
    ∷ str "Redirect"
    ∷ str "undefined"
    ∷ str "undefined"
    ∷ str "Echo Request"
    ∷ str "Router Adverisement"
    ∷ str "Router Selection"
    ∷ str "Time Exceeded for Datagram"
    ∷ str "Parameter Problem on Datagram"
    ∷ str "Timestamp Request"
    ∷ str "Timestamp Reply"
    ∷ str "Information Request"
    ∷ str "Information Reply"
    ∷ str "Address Mask Request"
    ∷ str "Address Mask Reply"
    ∷ []

-- What `print_icmp` prints of the header by its type; of `icmp_void`, 32 bits of the network's order, the
-- two bytes that `ntohs` leaves.
abbrev pub icmp_detail : List ℕ → Run (List ℕ)
icmp_detail icmp =
    let kind = byte_at icmp 0 in
    if kind == 0 || kind == 8
    then (number (str "icmp_id = ") (net16 icmp 4) (str ", ")
        >> number (str "icmp_seq = ") (net16 icmp 6) (str "\n"))
    else if kind == 3
    then (if byte_at icmp 1 == 4
        then (number (str "icmp_pmvoid = ") (net16 icmp 4) (str "\n")
            >> number (str "icmp_nextmtu = ") (net16 icmp 6) (str "\n"))
        else number (str "icmp_void = ") (net16 icmp 4) (str "\n"))
    else if kind == 5
    then (done (str "icmp_gwaddr = ") >> inet_ntoa (part 4 4 icmp) >> done (str "\n"))
    else if kind == 11
    then number (str "icmp_void = ") (net16 icmp 4) (str "\n")
    else done []

-- The part of `print_icmp` before the data or the header of the packet that is carried.
unfoldable pub print_icmp_header : List ℕ → Run (List ℕ)
unfolding inet_ntoa
print_icmp_header icmp =
    done (str "icmp----------------------------------------------------------------------------\n")
    >> number (str "icmp_type = ") (byte_at icmp 0) []
    >> named icmp_types 18 (str "(undefined)") (byte_at icmp 0)
    >> number (str ", icmp_code = ") (byte_at icmp 1) (str ", ")
    >> number (str "icmp_cksum = ") (net16 icmp 2) (str "\n")
    >> icmp_detail icmp
