-- ===== src/Pdump/Printed.antt =====
-- The print functions of chapter10/pdump.c stay inside of their tables and arrays, but for one.
use network_program.Prelude.{
  ℕ, zero, suc, ◌+◌, ◌≤◌, ◌<◌, ◌≡◌, refl, inl, inr, Bool, true, false, ◌||◌, List, [], ◌∷◌, ◌++◌,
  arith, leb, ◌==◌, Bool-cases, length, drop, length-take, length-drop, Run, done, blocked, fault,
}
use network_program.Http.{str}
use network_program.Http.Number.{decimal}
use network_program.RawUdp.{byte_at}
use network_program.Pdump.Print.{
  ◌>>◌, hex, hex2, entry, named, show_bytes, part, ether_addr, proto_addr, print_ether_header,
}
use network_program.Pdump.Headers.{
  proto, inet_ntoa, print_ip, print_ipv6, print_tcphdr, print_tcp_optpad, print_udphdr, icmp_types,
  icmp_detail, print_icmp_header,
}

-- A text is printed, with no read outside of an array or a table.
abbrev pub Prints : Run (List ℕ) → Type 0
Prints m = (t : List ℕ) × (m ≡ done t)

abbrev is_done : Run (List ℕ) → Bool
is_done (done t) = true
is_done blocked = false
is_done fault = false

pub of_done : (m : Run (List ℕ)) → is_done m ≡ true → Prints m
of_done (done t) h = (t, refl)
of_done blocked h = cc
of_done fault h = cc

text-Prints : (t : List ℕ) → Prints (done t)
text-Prints t = (t, refl)

>>-Prints : (a b : Run (List ℕ)) → Prints a → Prints b → Prints (a >> b)
>>-Prints a b (s, p) (t, q) = (s ++ t, rw (p, q) refl)

-- What comes behind a text or a fault.
>>-fault : (a b : Run (List ℕ)) → Prints a → b ≡ fault → (a >> b) ≡ fault
>>-fault a b (s, p) q = rw (p, q) refl

fault->> : (a b : Run (List ℕ)) → a ≡ fault → (a >> b) ≡ fault
fault->> a b p = rw p refl

entry-Prints : (table : List (List ℕ)) (i : ℕ) → i < length table → Prints (entry table i)
entry-Prints [] i h = elim h [ ]
entry-Prints (t ∷ table) zero h = (t, refl)
entry-Prints (t ∷ table) (suc i) h = entry-Prints table i (omega arith)

pub named-Prints :
    (table : List (List ℕ)) (last : ℕ) (otherwise : List ℕ) (i : ℕ)
    → last < length table
    → Prints (named table last otherwise i)
named-Prints table last otherwise i h = elim (Bool-cases (leb i last)) [
  | inr out ↦ rw out (text-Prints otherwise)
  | inl below ↦ rw below (
      >>-Prints _ _ (text-Prints (b'(' ∷ []))
        (>>-Prints _ _ (entry-Prints table i (ground (arith, below))) (text-Prints (b')' ∷ []))))
]

show_bytes-Prints :
    (sep : List ℕ) (show : ℕ → List ℕ) (i n : ℕ) (arr : List ℕ)
    → n ≤ length arr
    → Prints (show_bytes sep show i n arr)
unfolding show_bytes
show_bytes-Prints sep show i zero arr h = ([], refl)
show_bytes-Prints sep show i (suc n) [] h = elim h [ ]
show_bytes-Prints sep show i (suc n) (b ∷ arr) h =
    >>-Prints _ _ (text-Prints _) (show_bytes-Prints sep show (i + 1) n arr (omega arith))

show_bytes_past :
    (sep : List ℕ) (show : ℕ → List ℕ) (i n : ℕ) (arr : List ℕ)
    → length arr < n
    → show_bytes sep show i n arr ≡ fault
unfolding show_bytes
show_bytes_past sep show i zero arr h = elim h [ ]
show_bytes_past sep show i (suc n) [] h = refl
show_bytes_past sep show i (suc n) (b ∷ arr) h =
    >>-fault _ _ (text-Prints _) (show_bytes_past sep show (i + 1) n arr (omega arith))

length-part : (at n : ℕ) (hdr : List ℕ) → at + n ≤ length hdr → length (part at n hdr) ≡ n
length-part at n hdr h = omega (arith, length-take n (drop at hdr), length-drop at hdr)

module _ (name : List ℕ) (at n size : ℕ) (hdr : List ℕ) (fits : at + size ≤ length hdr) where
  pub ether_addr-Prints : n ≤ size → Prints (ether_addr name (part at size hdr) n)
  ether_addr-Prints h = >>-Prints _ _ (text-Prints name) (
      >>-Prints _ _
        (show_bytes-Prints (b':' ∷ []) hex2 0 n (part at size hdr)
          (omega (arith, length-part at size hdr fits)))
        (text-Prints _))

  pub proto_addr-Prints : n ≤ size → Prints (proto_addr name (part at size hdr) n)
  proto_addr-Prints h = >>-Prints _ _ (text-Prints name) (
      >>-Prints _ _
        (show_bytes-Prints (b'.' ∷ []) decimal 0 n (part at size hdr)
          (omega (arith, length-part at size hdr fits)))
        (text-Prints _))

  pub ether_addr_past : size < n → ether_addr name (part at size hdr) n ≡ fault
  ether_addr_past h = >>-fault _ _ (text-Prints name) (
      fault->> _ (done (b'\n' ∷ [])) (
        show_bytes_past (b':' ∷ []) hex2 0 n (part at size hdr)
          (omega (arith, length-part at size hdr fits))))

  pub proto_addr_past : size < n → proto_addr name (part at size hdr) n ≡ fault
  proto_addr_past h = >>-fault _ _ (text-Prints name) (
      fault->> _ (done (b'\n' ∷ [])) (
        show_bytes_past (b'.' ∷ []) decimal 0 n (part at size hdr)
          (omega (arith, length-part at size hdr fits))))

module _ (inet_ntop : List ℕ → List ℕ) (hdr : List ℕ) where
  print_ether_header-Prints : 14 ≤ length hdr → Prints (print_ether_header hdr)
  unfolding print_ether_header
  print_ether_header-Prints h =
      let (t, p) =
        show_bytes-Prints (b':' ∷ []) hex2 0 6 (part 0 6 hdr)
          (omega (arith, length-part 0 6 hdr (omega arith))) in
      let (t', p') =
        show_bytes-Prints (b':' ∷ []) hex2 0 6 (part 6 6 hdr)
          (omega (arith, length-part 6 6 hdr (omega arith))) in
      of_done _ (rw (p, p') refl)

  print_ip-Prints : 20 ≤ length hdr → Prints (print_ip hdr)
  unfolding print_ip inet_ntoa
  print_ip-Prints h =
      let (t, p) = named-Prints proto 17 (str "(undefined)") (byte_at hdr 9) (omega arith) in
      let (a, src) =
        show_bytes-Prints (b'.' ∷ []) decimal 0 4 (part 12 4 hdr)
          (omega (arith, length-part 12 4 hdr (omega arith))) in
      let (b, dst) =
        show_bytes-Prints (b'.' ∷ []) decimal 0 4 (part 16 4 hdr)
          (omega (arith, length-part 16 4 hdr (omega arith))) in
      of_done _ (rw (p, src, dst) refl)

  print_ipv6-Prints : Prints (print_ipv6 inet_ntop hdr)
  unfolding print_ipv6
  print_ipv6-Prints =
      let (t, p) = named-Prints proto 17 (str "(undefined)") (byte_at hdr 6) (omega arith) in
      of_done _ (rw p refl)

  icmp_detail-Prints : 28 ≤ length hdr → Prints (icmp_detail hdr)
  unfolding inet_ntoa
  icmp_detail-Prints h =
      let kind = byte_at hdr 0 in
      let (a, gw) =
        show_bytes-Prints (b'.' ∷ []) decimal 0 4 (part 4 4 hdr)
          (omega (arith, length-part 4 4 hdr (omega arith))) in
      elim (Bool-cases (kind == 0 || kind == 8)) [
        | inl echo ↦ of_done _ (rw echo refl)
        | inr no_echo ↦ elim (Bool-cases (kind == 3)) [
          | inl unreachable ↦ elim (Bool-cases (byte_at hdr 1 == 4)) [
            | inl mtu ↦ of_done _ (rw (no_echo, unreachable, mtu) refl)
            | inr no_mtu ↦ of_done _ (rw (no_echo, unreachable, no_mtu) refl)
          ]
          | inr reachable ↦ elim (Bool-cases (kind == 5)) [
            | inl redirect ↦ of_done _ (rw (no_echo, reachable, redirect, gw) refl)
            | inr no_redirect ↦ elim (Bool-cases (kind == 11)) [
              | inl exceeded ↦ of_done _ (rw (no_echo, reachable, no_redirect, exceeded) refl)
              | inr no_more ↦ of_done _ (rw (no_echo, reachable, no_redirect, no_more) refl)
            ]
          ]
        ]
      ]

  print_icmp_header-Prints : 28 ≤ length hdr → Prints (print_icmp_header hdr)
  unfolding print_icmp_header
  print_icmp_header-Prints h =
      let (t, p) = named-Prints icmp_types 18 (str "(undefined)") (byte_at hdr 0) (omega arith) in
      let (d, detail) = icmp_detail-Prints h in of_done _ (rw (p, detail) refl)

  print_tcp_optpad-Prints : (size : ℕ) → size ≤ length hdr → Prints (print_tcp_optpad hdr size)
  unfolding print_tcp_optpad
  print_tcp_optpad-Prints size h =
      let (t, p) = show_bytes-Prints (str ", ") hex 0 size hdr h in of_done _ (rw p refl)

  print_tcphdr-Prints : Prints (print_tcphdr hdr)
  unfolding print_tcphdr
  print_tcphdr-Prints = (_, refl)

  print_udphdr-Prints : Prints (print_udphdr hdr)
  unfolding print_udphdr
  print_udphdr-Prints = (_, refl)

-- Of headers that are there in full, `print_ether_header`, `print_ip`, `print_ipv6`, `print_tcphdr`,
-- `print_udphdr` and `print_icmp` (up to the packet that it carries) print a text whatever the bytes
-- are, and read nothing outside of their tables of names and arrays; so does `print_tcp_optpad` of as
-- many bytes as there are.
pub headers-Prints :
    (inet_ntop : List ℕ → List ℕ) (eh ip ip6 tcp udp icmp opts : List ℕ)
    → 14 ≤ length eh
    → 20 ≤ length ip
    → 28 ≤ length icmp
    → Prints (print_ether_header eh)
      × Prints (print_ip ip)
      × Prints (print_ipv6 inet_ntop ip6)
      × Prints (print_tcphdr tcp)
      × Prints (print_udphdr udp)
      × Prints (print_icmp_header icmp)
      × Prints (print_tcp_optpad opts (length opts))
headers-Prints inet_ntop eh ip ip6 tcp udp icmp opts e i c = (
  print_ether_header-Prints inet_ntop eh e,
  print_ip-Prints inet_ntop ip i,
  print_ipv6-Prints inet_ntop ip6,
  print_tcphdr-Prints inet_ntop tcp,
  print_udphdr-Prints inet_ntop udp,
  print_icmp_header-Prints inet_ntop icmp c,
  print_tcp_optpad-Prints inet_ntop opts (length opts) (omega arith),
)
