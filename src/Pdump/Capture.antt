-- ===== src/Pdump/Capture.antt =====
-- The loop of chapter10/pdump.c that captures packets, with the texts that it prints.
use network_program.Prelude.{
  ℕ, zero, suc, ◌+◌, Bool, ◌&&◌, List, [], ◌∷◌, ◌++◌, ltb, leb, ◌==◌, if◌then◌else◌, length, Run,
  done, ◌>>=◌,
}
use network_program.Echo.{receive_into}
use network_program.Http.{str}
use network_program.Pdump.{Param}
use network_program.Pdump.Analyze.{
  Item, separator, title, ether_header, ether_arp, ip_header, ipv6_header, tcp_header, udp_header,
  icmp_header, optpad, data_rows, analyze_packet,
}
use network_program.Pdump.Print.{◌>>◌, hex2, print_ether_header, print_ether_arp}
use network_program.Pdump.Headers.{
  print_ip, print_ipv6, print_tcphdr, print_tcp_optpad, print_udphdr, print_icmp_header,
}

-- The cells of a row from `j` on: a byte, or blanks behind the last.
unfoldable pub hex_cells : ℕ → ℕ → List ℕ → List ℕ
unfolding hex2
hex_cells zero j row = []
hex_cells (suc n) j [] = (if j == 0 then [] else str " ") ++ (str "  " ++ hex_cells n (j + 1) [])
hex_cells (suc n) j (b ∷ row) =
    (if j == 0 then [] else str " ") ++ (hex2 b ++ hex_cells n (j + 1) row)

-- `isascii(c) && isprint(c)`
abbrev pub is_printable : ℕ → Bool
is_printable c = leb 32 c && ltb c 127

unfoldable pub char_cells : ℕ → List ℕ → List ℕ
char_cells zero row = []
char_cells (suc n) [] = b' ' ∷ char_cells n []
char_cells (suc n) (b ∷ row) = (if is_printable b then b else b'.') ∷ char_cells n row

unfoldable pub row_text : List ℕ → List ℕ
unfolding hex_cells char_cells
row_text row = hex_cells 16 0 row ++ (str "    " ++ (char_cells 16 row ++ str "\n"))

abbrev pub rows_text : List (List ℕ) → List ℕ
rows_text [] = []
rows_text (row ∷ rows) = row_text row ++ rows_text rows

-- The text of an item.
unfoldable pub print_item : (List ℕ → List ℕ) → Item → Run (List ℕ)
unfolding row_text
print_item ntop separator =
    done (str "================================================================================\n")
print_item ntop (title name) = done (name ++ str "\n")
print_item ntop (ether_header eh) = print_ether_header eh
print_item ntop (ether_arp arp) = print_ether_arp arp
print_item ntop (ip_header ip) = print_ip ip
print_item ntop (ipv6_header ip6_hdr) = print_ipv6 ntop ip6_hdr
print_item ntop (tcp_header tcphdr) = print_tcphdr tcphdr
print_item ntop (udp_header udphdr) = print_udphdr udphdr
print_item ntop (icmp_header icmp) = print_icmp_header icmp
print_item ntop (optpad opts) = print_tcp_optpad opts (length opts)
print_item ntop (data_rows rows) = done (
    str "data----------------------------------------------------------------------------\n"
    ++ rows_text rows)

-- The items of a packet, and the empty line behind the last separator.
unfoldable pub print_items : (List ℕ → List ℕ) → List Item → Run (List ℕ)
unfolding print_item
print_items ntop [] = done (str "\n")
print_items ntop (i ∷ items) = print_item ntop i >> print_items ntop items

unfoldable pub print_packet : (List ℕ → List ℕ) → List Item → Run (List ℕ)
unfolding print_items
print_packet ntop [] = done []
print_packet ntop (i ∷ items) = print_items ntop (i ∷ items)

-- What a pass finds: `g_gotsig` is set, or what `select` and `recv` give.
pub data Wait : Type 0 where
  signalled wait_failed timed_out recv_failed : Wait
  packet : List ℕ → Wait

-- The loop as far as the waits given. `buf` outlives a pass.
unfoldable pub capture_loop : (List ℕ → List ℕ) → Param → List ℕ → List Wait → Run (List ℕ)
unfolding print_packet
capture_loop ntop g buf [] = done []
capture_loop ntop g buf (signalled ∷ waits) = done []
capture_loop ntop g buf (wait_failed ∷ waits) = capture_loop ntop g buf waits
capture_loop ntop g buf (timed_out ∷ waits) = capture_loop ntop g buf waits
capture_loop ntop g buf (recv_failed ∷ waits) = capture_loop ntop g buf waits
capture_loop ntop g buf (packet bs ∷ waits) =
    let buf' = receive_into buf bs in
    let rest = capture_loop ntop g buf' waits in
    (analyze_packet g buf' (length bs) >>= λ items. print_packet ntop items) >> rest
