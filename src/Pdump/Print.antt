-- ===== src/Pdump/Print.antt =====
-- The texts that chapter10/pdump.c prints of the headers: the print functions, on the bytes of a header. A
-- read outside of an array or of a table of names is a fault.
use network_program.Prelude.{
  ℕ, zero, suc, ◌+◌, ◌-◌, ◌/◌, ◌%◌, none, some, List, [], ◌∷◌, ◌++◌, ltb, leb, ◌==◌, if◌then◌else◌,
  get_elem?, take, drop, Run, done, fault, ◌>>=◌,
}
use network_program.Http.{str}
use network_program.Http.Number.{decimal}
use network_program.RawUdp.{byte_at, net16}

-- One text behind the other.
infixr 5 ◌>>◌
abbrev pub ◌>>◌ : Run (List ℕ) → Run (List ℕ) → Run (List ℕ)
a >> b = a >>= λ x. b >>= λ y. done (x ++ y)

abbrev pub hex_digit : ℕ → ℕ → ℕ
hex_digit letter d = if ltb d 10 then b'0' + d else letter + (d - 10)

-- The digits of a number below 2^32 in front of `rest`, on fuel, with the letter for ten.
unfoldable pub hex_digits : ℕ → ℕ → ℕ → List ℕ → List ℕ
hex_digits zero letter n rest = rest
hex_digits (suc fuel) letter n rest =
    let next = hex_digit letter (n % 16) ∷ rest in
    let more = hex_digits fuel letter (n / 16) next in if n / 16 == 0 then next else more

-- `%x`
unfoldable pub hex : ℕ → List ℕ
unfolding hex_digits
hex n = hex_digits 8 b'a' n []

-- `%02X`
unfoldable pub hex2 : ℕ → List ℕ
unfolding hex_digits
hex2 n = if ltb n 16 then b'0' ∷ hex_digits 8 b'A' n [] else hex_digits 8 b'A' n []

-- `name`, a number, and what follows.
abbrev pub field : List ℕ → List ℕ → List ℕ → Run (List ℕ)
field name value behind = done (name ++ (value ++ behind))

-- The text of a table.
abbrev pub entry : List (List ℕ) → ℕ → Run (List ℕ)
entry table i = elim (get_elem? table i) [ none ↦ fault | some t ↦ done t ]

-- `if (i <= last) printf("(%s)", table[i]); else printf(otherwise)`
abbrev pub named : List (List ℕ) → ℕ → List ℕ → ℕ → Run (List ℕ)
named table last otherwise i =
    if leb i last then (done (b'(' ∷ []) >> entry table i >> done (b')' ∷ [])) else done otherwise

-- The loop over the first `n` bytes of an array, from the index `i` on.
unfoldable pub show_bytes : List ℕ → (ℕ → List ℕ) → ℕ → ℕ → List ℕ → Run (List ℕ)
show_bytes sep show i zero arr = done []
show_bytes sep show i (suc n) [] = fault
show_bytes sep show i (suc n) (b ∷ arr) =
    let rest = show_bytes sep show (i + 1) n arr in
    done ((if i == 0 then [] else sep) ++ show b) >> rest

-- `n` bytes of a header at `at`.
abbrev pub part : ℕ → ℕ → List ℕ → List ℕ
part at n hdr = take n (drop at hdr)

abbrev pub ether_addr_len : ℕ
ether_addr_len = 6

abbrev pub ether_addr : List ℕ → List ℕ → ℕ → Run (List ℕ)
ether_addr name arr n = done name >> show_bytes (b':' ∷ []) hex2 0 n arr >> done (b'\n' ∷ [])

abbrev pub ether_kind : ℕ → List ℕ
ether_kind kind =
    if kind == 0x0200
    then str "(Xerox PUP)\n"
    else if kind == 0x0800
    then str "(IP)\n"
    else if kind == 0x0806
    then str "(Address resolution)\n"
    else if kind == 0x8035
    then str "(Reverse ARP)\n"
    else if kind == 0x86DD
    then str "(IPv6)\n"
    else str "(unknown)\n"

unfoldable pub print_ether_header : List ℕ → Run (List ℕ)
unfolding show_bytes hex2
print_ether_header eh =
    done (str "ether_header--------------------------------------------------------------------\n")
    >> ether_addr (str "ether_dhost = ") (part 0 6 eh) ether_addr_len
    >> ether_addr (str "ether_shost = ") (part 6 6 eh) ether_addr_len
    >> field (str "ether_type = ") (hex2 (net16 eh 12)) (ether_kind (net16 eh 12))

-- `hrd` of `print_ether_arp`
abbrev pub hrd : List (List ℕ)
hrd =
    str "From KA9Q: NET/ROM pseudo."
    ∷ str "Ethernet 10/100Mbps."
    ∷ str "Experimental Ethernet."
    ∷ str "AX.25 Level 2."
    ∷ str "PROnet token ring."
    ∷ str "Chaosnet."
    ∷ str "IEEE 802.2 Ethernet/TR/TB."
    ∷ str "ARCnet."
    ∷ str "APPLEtalk."
    ∷ str "undefine"
    ∷ str "undefine"
    ∷ str "undefine"
    ∷ str "undefine"
    ∷ str "undefine"
    ∷ str "undefine"
    ∷ str "Frame Relay DLCI."
    ∷ str "undefine"
    ∷ str "undefine"
    ∷ str "undefine"
    ∷ str "ATM."
    ∷ str "undefine"
    ∷ str "undefine"
    ∷ str "undefine"
    ∷ str "Metricom STRIP (new IANA id)."
    ∷ []

-- `op` of `print_ether_arp`
abbrev pub op : List (List ℕ)
op =
    str "undefined"
    ∷ str "ARP request."
    ∷ str "ARP reply."
    ∷ str "RARP request."
    ∷ str "RARP reply."
    ∷ str "undefined"
    ∷ str "undefined"
    ∷ str "undefined"
    ∷ str "InARP request."
    ∷ str "InARP reply."
    ∷ str "(ATM)ARP NAK."
    ∷ []

abbrev pub arp_kind : ℕ → List ℕ
arp_kind kind =
    if kind == 0x0200
    then str "(Xerox POP)\n"
    else if kind == 0x0800
    then str "(IP)\n"
    else if kind == 0x0806
    then str "(Address resolution)\n"
    else if kind == 0x8035
    then str "(Reverse ARP)\n"
    else str "(unknown)\n"

abbrev pub proto_addr : List ℕ → List ℕ → ℕ → Run (List ℕ)
proto_addr name arr n = done name >> show_bytes (b'.' ∷ []) decimal 0 n arr >> done (b'\n' ∷ [])

-- `arp_sha` and `arp_tha` are arrays of 6 bytes, `arp_spa` and `arp_tpa` of 4; the loops run to the
-- lengths that the packet states.
unfoldable pub print_ether_arp : List ℕ → Run (List ℕ)
unfolding show_bytes hex2
print_ether_arp arp =
    let hln = byte_at arp 4 in
    let pln = byte_at arp 5 in
    done (str "ether_arp-----------------------------------------------------------------------\n")
    >> field (str "arp_hrd = ") (decimal (net16 arp 0)) []
    >> named hrd 23 (str "(undefined)") (net16 arp 0)
    >> field (str ", arp_pro = ") (decimal (net16 arp 2)) (arp_kind (net16 arp 2))
    >> field (str "arp_hln = ") (decimal hln) (str ", ")
    >> field (str "arp_pln = ") (decimal pln) (str ", ")
    >> field (str "arp_op = ") (decimal (net16 arp 6)) []
    >> named op 10 (str "(undefine)") (net16 arp 6)
    >> done (b'\n' ∷ [])
    >> ether_addr (str "arp_sha = ") (part 8 6 arp) hln
    >> proto_addr (str "arp_spa = ") (part 14 4 arp) pln
    >> ether_addr (str "arp_tha = ") (part 18 6 arp) hln
    >> proto_addr (str "arp_tpa = ") (part 24 4 arp) pln
