-- ===== src/Pdump/Analyze.antt =====
-- What `analyze_packet` prints of a packet (chapter10/pdump.c). `len` is a `size_t` and wraps at 2^64.
use network_program.Prelude.{
  ℕ, ◌+◌, ◌-◌, ◌*◌, ◌/◌, ◌%◌, ◌^◌, ◌||◌, List, [], ◌∷◌, ◌++◌, ltb, leb, ◌==◌, if◌then◌else◌, length,
  take, drop, Run, done, fault, ◌>>=◌,
}
use network_program.Http.{str}
use network_program.RawUdp.{byte_at, net16}
use network_program.Pdump.{Param, is_target_port, print_data}

-- What is printed, in parts.
pub data Item : Type 0 where
  separator : Item
  title : List ℕ → Item
  ether_header ether_arp ip_header ipv6_header tcp_header udp_header icmp_header : List ℕ → Item
  optpad : List ℕ → Item
  data_rows : List (List ℕ) → Item

-- `memcpy` of `n` bytes at `ptr` from the array.
abbrev pub grab : List ℕ → ℕ → ℕ → Run (List ℕ)
grab buf ptr n = if leb (ptr + n) (length buf) then done (take n (drop ptr buf)) else fault

-- `len -= n` on `size_t`
abbrev pub minus : ℕ → ℕ → ℕ
minus len n = (len + 2 ^ 64 - n) % 2 ^ 64

-- `if (len > 0) print_data(ptr, len)`
unfoldable pub show_data : List ℕ → ℕ → ℕ → Run (List Item)
unfolding print_data
show_data buf ptr len =
    if ltb 0 len
    then (print_data (drop ptr buf) len >>= λ rows. done (data_rows rows ∷ []))
    else done []

-- A packet between its separators.
abbrev pub framed : List ℕ → List Item → Run (List Item) → Run (List Item)
framed name headers more =
    more >>= λ items. done (separator ∷ title name ∷ (headers ++ (items ++ separator ∷ [])))

-- The high half of the byte at 12: `doff`
abbrev pub doff_of : List ℕ → ℕ
doff_of tcphdr = byte_at tcphdr 12 / 16

-- `if (lest > 0) print_tcp_optpad(ptr, lest)`, where `lest` is negative for a `doff` below 5.
unfoldable pub show_options : List ℕ → ℕ → ℕ → Run (List Item)
show_options buf ptr doff =
    if ltb 20 (doff * 4)
    then (grab buf ptr (doff * 4 - 20) >>= λ opts. done (optpad opts ∷ []))
    else done []

-- The TCP header at `ptr`, with `len` bytes from there on.
unfoldable pub analyze_tcp : Param → List ℕ → ℕ → ℕ → List ℕ → List Item → Run (List Item)
unfolding is_target_port show_options show_data
analyze_tcp g buf ptr len name headers =
    if g.tcp
    then (grab buf ptr 20 >>= λ tcphdr.
        (if is_target_port g.port (net16 tcphdr 0) (net16 tcphdr 2)
          then framed name (headers ++ tcp_header tcphdr ∷ []) (
              show_options buf (ptr + 20) (doff_of tcphdr) >>= λ opts.
              show_data buf (ptr + doff_of tcphdr * 4) (minus len (doff_of tcphdr * 4)) >>= λ rows.
              done (opts ++ rows))
          else done []))
    else done []

unfoldable pub analyze_udp : Param → List ℕ → ℕ → ℕ → List ℕ → List Item → Run (List Item)
unfolding is_target_port show_data
analyze_udp g buf ptr len name headers =
    if g.udp
    then (grab buf ptr 8 >>= λ udphdr.
        (if is_target_port g.port (net16 udphdr 0) (net16 udphdr 2)
          then framed name (headers ++ udp_header udphdr ∷ [])
              (show_data buf (ptr + 8) (minus len 8))
          else done []))
    else done []

-- The header that `print_icmp` finds in the IP packet that an error message carries.
unfoldable pub carried : List ℕ → ℕ → ℕ → Run (List Item)
carried buf ptr ip_p =
    if ip_p == 6
    then (grab buf ptr 20 >>= λ tcphdr. done (tcp_header tcphdr ∷ []))
    else if ip_p == 17
    then (grab buf ptr 8 >>= λ udphdr. done (udp_header udphdr ∷ []))
    else done []

unfoldable pub print_icmp : List ℕ → ℕ → ℕ → List ℕ → Run (List Item)
unfolding print_data carried
print_icmp buf hptr size icmp =
    let kind = byte_at icmp 0 in
    if kind == 0 || kind == 8
    then (print_data (drop (hptr + 8) buf) (minus size 8) >>= λ rows.
        done (icmp_header icmp ∷ data_rows rows ∷ []))
    else if kind == 3 || (kind == 5 || kind == 11)
    then (carried buf (hptr + 28) (byte_at icmp 17) >>= λ items.
        done (icmp_header icmp ∷ ip_header (drop 8 icmp) ∷ items))
    else done (icmp_header icmp ∷ [])

unfoldable pub analyze_icmp : Param → List ℕ → ℕ → ℕ → List Item → Run (List Item)
unfolding print_icmp
analyze_icmp g buf ptr len headers =
    if g.icmp
    then (grab buf ptr 28 >>= λ icmp. framed (str "[ICMP]") headers (print_icmp buf ptr len icmp))
    else done []

abbrev pub ethertype_ip : ℕ
ethertype_ip = 0x0800

unfoldable pub analyze_ip : Param → List ℕ → List ℕ → Run (List Item)
unfolding analyze_tcp analyze_udp analyze_icmp
analyze_ip g buf eh = grab buf 14 20 >>= λ ip.
    (let len = minus (net16 ip 2) 20 in
      let headers = ether_header eh ∷ ip_header ip ∷ [] in
      if byte_at ip 9 == 6
      then analyze_tcp g buf 34 len (str "[TCP]") headers
      else if byte_at ip 9 == 17
      then analyze_udp g buf 34 len (str "[UDP]") headers
      else if byte_at ip 9 == 1
      then analyze_icmp g buf 34 len headers
      else done [])

unfoldable pub analyze_ipv6 : Param → List ℕ → ℕ → List ℕ → Run (List Item)
unfolding analyze_tcp analyze_udp
analyze_ipv6 g buf len eh = grab buf 14 40 >>= λ ip6_hdr.
    (let len' = minus len 40 in
      let headers = ether_header eh ∷ ipv6_header ip6_hdr ∷ [] in
      if byte_at ip6_hdr 6 == 6
      then analyze_tcp g buf 54 len' (str "[TCP6]") headers
      else if byte_at ip6_hdr 6 == 17
      then analyze_udp g buf 54 len' (str "[UDP6]") headers
      else done [])

unfoldable pub analyze_arp : Param → List ℕ → List ℕ → Run (List Item)
analyze_arp g buf eh =
    if g.arp
    then (grab buf 14 28 >>= λ arp.
        framed (str "[ARP]") (ether_header eh ∷ ether_arp arp ∷ []) (done []))
    else done []

-- `buf` is the array of 2048 bytes, of which the first `len` were received.
unfoldable pub analyze_packet : Param → List ℕ → ℕ → Run (List Item)
unfolding analyze_ip analyze_ipv6 analyze_arp
analyze_packet g buf len = grab buf 0 14 >>= λ eh.
    (let ether_type = net16 eh 12 in
      if ether_type == 0x0806 || ether_type == 0x8035
      then analyze_arp g buf eh
      else if ether_type == ethertype_ip
      then analyze_ip g buf eh
      else if ether_type == 0x86DD
      then analyze_ipv6 g buf (minus len 14) eh
      else done [])
