-- ===== src/Tests/Dumps.antt =====
-- The packet dump at small inputs.
use network_program.Prelude.{ℕ, ◌≡◌, refl, true, false, List, [], ◌∷◌, arith, All, done}
use network_program.Integer.{negsuc}
use network_program.Http.Number.{to_int}
use network_program.Http.{str, equal_text}
use network_program.Http.Number.{atol, decimal}
use network_program.Pdump.{is_target_port, all_shown, print_data, parse_args, parse_arg}
use network_program.Pdump.Rows.{concat, IsRow, print_data-shown}
use network_program.Pdump.Filter.{is_target_port-decimal}

abbrev digits : List ℕ
digits = str "0123456789abcdef!"

-- The last of 17 bytes is not shown.
seventeen : print_data digits 17 ≡ done (str "0123456789abcdef" ∷ [])
unfolding print_data
seventeen = refl

print_data-shown_example :
    (rows : List (List ℕ)) × (print_data digits 17 ≡ done rows)
    × (concat rows ≡ str "0123456789abcdef")
    × All IsRow rows
print_data-shown_example = print_data-shown digits 17 (omega arith)

is_target_port-decimal_example :
    (is_target_port (to_int (atol (decimal 80))) 80 4000 ≡ true)
    × (is_target_port (to_int (atol (b'-' ∷ decimal 80))) 80 4000 ≡ false)
is_target_port-decimal_example = is_target_port-decimal 80 80 4000 (omega arith) (omega arith)

without_udp_and_port_80 :
    parse_args all_shown (str "-udp" ∷ str "-80" ∷ [])
    ≡ record all_shown { udp = false; port = negsuc 79 }
unfolding parse_args parse_arg equal_text atol
without_udp_and_port_80 = refl

abbrev eh : List ℕ
eh = 1 ∷ 2 ∷ 3 ∷ 4 ∷ 5 ∷ 6 ∷ 7 ∷ 8 ∷ 9 ∷ 10 ∷ 11 ∷ 12 ∷ 8 ∷ 0 ∷ []

abbrev ip : List ℕ
ip = 0x45 ∷ 0 ∷ 0 ∷ 43 ∷ 0 ∷ 0 ∷ 0 ∷ 0 ∷ 64 ∷ 6 ∷ 0 ∷ 0 ∷ 10 ∷ 0 ∷ 0 ∷ 1 ∷ 10 ∷ 0 ∷ 0 ∷ 2 ∷ []

abbrev tcphdr : List ℕ
tcphdr = 0 ∷ 80 ∷ 200 ∷ 1 ∷ 0 ∷ 0 ∷ 0 ∷ 1 ∷ 0 ∷ 0 ∷ 0 ∷ 2 ∷ 0x50 ∷ 24 ∷ 1 ∷ 0 ∷ 0 ∷ 0 ∷ 0 ∷ 0 ∷ []
