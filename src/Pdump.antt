-- ===== src/Pdump.antt =====
-- The packet dump (chapter10/pdump.c): the parameters and the port filter, and the rows of the data dump.
-- Pdump/Analyze has what is printed of a packet, where what `print_ether_header` and the like print of a
-- header is one item that holds the header's bytes.
pub mod Rows
pub mod Print
pub mod Headers
pub mod Printed
pub mod Arp
pub mod Device
pub mod Analyze
pub mod Pieces
pub mod Tcp
pub mod Filter
pub mod Capture
use network_program.Prelude.{
  ℕ, zero, suc, ◌+◌, ◌-◌, ◌*◌, ◌/◌, ◌%◌, ◌^◌, ◌≤◌, ◌<◌, min, ◌≡◌, refl, sym, ap, ◌∙◌, ◌≢◌, ◌↔◌, ◌⊎◌,
  inl, inr, Bool, true, false, not, ◌&&◌, ◌||◌, Option, none, some, List, [], ◌∷◌, ◌++◌, map,
  append_assoc, append-nil, arith, ltb, leb, ◌==◌, if◌then◌else◌, ltb→lt, lt→ltb, ltb→ge, ge→ltb,
  ==→eq, eq→==, ==→ne, ne→==, tests, Bool-cases, Option-cases, length, get_elem?, set, take, drop,
  replicate, All, length-append, length-snoc, length-set, length-take, length-drop,
  length-replicate, take-append-drop, take-append, drop-append, take-append_ge, drop-append_ge,
  take-append_le, drop-append_le, take-take, set-append, All-snoc, All-append, map-snoc,
  get_elem?-append, get_elem?-take, take-store, take-set, take-set_ge, take-nil, drop-nil,
  get_elem?-set_self, get_elem?-set_ne, get_elem?-lt, Run, done, blocked, fault, ◌>>=◌, write,
  write-lt, write-ge, Ret, minus_one, count, Errno, eintr, eagain, other,
}
use network_program.Http.{str, equal_text}
use network_program.Http.Number.{to_int, atol}
use network_program.Integer.{ℤ, pos, negsuc}
use network_program.RawUdp.{byte_at, net16}

-- `g_param`, without the device
pub record Param : Type 0 where
  pub arp : Bool
  pub icmp : Bool
  pub tcp : Bool
  pub udp : Bool
  pub port : ℤ

abbrev pub all_shown : Param
all_shown = record { arp = true; icmp = true; tcp = true; udp = true; port = pos 0 }

-- One argument of the loop in `main`.
unfoldable pub parse_arg : Param → List ℕ → Param
parse_arg g a =
    if equal_text a (str "-tcp")
    then record g { tcp = false }
    else if equal_text a (str "-udp")
    then record g { udp = false }
    else if equal_text a (str "-arp")
    then record g { arp = false }
    else if equal_text a (str "-icmp")
    then record g { icmp = false }
    else record g { port = to_int (atol a) }

unfoldable pub parse_args : Param → List (List ℕ) → Param
unfolding parse_arg
parse_args g [] = g
parse_args g (a ∷ args) = parse_args (parse_arg g a) args

-- `g_param.port` against the two ports of a packet
unfoldable pub is_target_port : ℤ → ℕ → ℕ → Bool
is_target_port (pos n) port1 port2 =
    if n == 0 then true else if n == port1 || n == port2 then true else false
is_target_port (negsuc n) port1 port2 = if suc n == port1 || suc n == port2 then false else true

-- The rows of `print_data`: `mem` is the memory from `data` on, and each row shows the same bytes twice,
-- in hexadecimal and as text. The inner loop counts `i` up with the bytes, and the outer one once more.
unfoldable pub print_rows : ℕ → List ℕ → ℕ → ℕ → Run (List (List ℕ))
print_rows zero mem i size = blocked
print_rows (suc fuel) mem i size =
    let n = min 16 (size - i) in
    let rest = print_rows fuel (drop n mem) (i + n + 1) size in
    if ltb i size
    then (if leb n (length mem) then (rest >>= λ rows. done (take n mem ∷ rows)) else fault)
    else done []

unfoldable pub print_data : List ℕ → ℕ → Run (List (List ℕ))
unfolding print_rows
print_data mem size = print_rows (suc (length mem)) mem 0 size
