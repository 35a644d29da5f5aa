-- ===== src/Tests/Printing.antt =====
-- The texts of chapter10/pdump.c at small inputs.
use network_program.Prelude.{ℕ, ◌≤◌, ◌≡◌, refl, ◌↔◌, true, false, some, List, [], ◌∷◌, done}
use network_program.RawUdp.{byte_at}
use network_program.Http.{str}
use network_program.Pdump.Print.{print_ether_arp, ether_addr, hex2, show_bytes}
use network_program.Pdump.Headers.{print_tcp_optpad}
use network_program.Pdump.Printed.{Prints}
use network_program.Pdump.Arp.{print_ether_arp-Prints}
use network_program.Pdump.Capture.{row_text}
use network_program.Pdump.Device.{Device, Calls, Closing, captures, ex_ok}

-- An ARP request of Ethernet and IPv4.
abbrev request : List ℕ
request =
    0 ∷ 1 ∷ 8 ∷ 0 ∷ 6 ∷ 4 ∷ 0 ∷ 1 ∷ 0 ∷ 17 ∷ 34 ∷ 51 ∷ 68 ∷ 171 ∷ 192 ∷ 168 ∷ 0 ∷ 2 ∷ 0 ∷ 0 ∷ 0 ∷ 0
    ∷ 0 ∷ 0 ∷ 192 ∷ 168 ∷ 0 ∷ 1 ∷ []

shows_address :
    ether_addr (str "arp_sha = ") (0 ∷ 17 ∷ 34 ∷ 51 ∷ 68 ∷ 171 ∷ []) 6
    ≡ done (str "arp_sha = 00:11:22:33:44:AB\n")
unfolding hex2 show_bytes
shows_address = refl

shows_options : print_tcp_optpad (2 ∷ 4 ∷ 5 ∷ 180 ∷ []) 4 ≡ done (str "option, pad = 2, 4, 5, b4\n")
unfolding print_tcp_optpad
shows_options = refl

shows_row :
    row_text (str "hi\n")
    ≡ str "68 69 0A                                           hi.             \n"
unfolding row_text
shows_row = refl

print_ether_arp-Prints_example :
    Prints (print_ether_arp request) ↔ ((byte_at request 4 ≤ 6) × (byte_at request 5 ≤ 4))
print_ether_arp-Prints_example = print_ether_arp-Prints request refl

abbrev all_fine : Calls
all_fine = record {
  socket = some 3;
  index_ok = true;
  bind_ok = true;
  get_flags_ok = true;
  set_flags_ok = true;
}

abbrev ends_fine : Closing
ends_fine = record { index_ok = true; get_flags_ok = true; set_flags_ok = true }

-- An interface that was promiscuous before is not any more.
abbrev device : Device
device = record { promisc = true; up = true }

clears_flag :
    captures all_fine ends_fine device [] ≡ (ex_ok, record { promisc = false; up = true }, [])
unfolding captures
clears_flag = refl
