-- ===== src/Pdump/Arp.antt =====
-- The lengths that an ARP packet states, and the arrays of chapter10/pdump.c.
use network_program.Prelude.{
  ℕ, ◌≤◌, ◌<◌, ◌≡◌, refl, sym, ◌∙◌, ◌↔◌, inl, inr, List, arith, leb, Bool-cases, length, Run, fault,
}
use network_program.Http.{str}
use network_program.RawUdp.{byte_at, net16}
use network_program.Pdump.Print.{named, hrd, op, print_ether_arp}
use network_program.Pdump.Printed.{
  Prints, of_done, named-Prints, ether_addr-Prints, proto_addr-Prints, ether_addr_past,
  proto_addr_past,
}

module _ (arp : List ℕ) (size : length arp ≡ 28) where
  abbrev hln : ℕ
  hln = byte_at arp 4

  abbrev pln : ℕ
  pln = byte_at arp 5

  hrd-Prints : Prints (named hrd 23 (str "(undefined)") (net16 arp 0))
  hrd-Prints = named-Prints hrd 23 (str "(undefined)") (net16 arp 0) (omega arith)

  op-Prints : Prints (named op 10 (str "(undefine)") (net16 arp 6))
  op-Prints = named-Prints op 10 (str "(undefine)") (net16 arp 6) (omega arith)

  arp_short : hln ≤ 6 → pln ≤ 4 → Prints (print_ether_arp arp)
  unfolding print_ether_arp
  arp_short h p =
      let (_, names) = hrd-Prints in
      let (_, ops) = op-Prints in
      let (_, sha) = ether_addr-Prints (str "arp_sha = ") 8 hln 6 arp (omega arith) h in
      let (_, spa) = proto_addr-Prints (str "arp_spa = ") 14 pln 4 arp (omega arith) p in
      let (_, tha) = ether_addr-Prints (str "arp_tha = ") 18 hln 6 arp (omega arith) h in
      let (_, tpa) = proto_addr-Prints (str "arp_tpa = ") 24 pln 4 arp (omega arith) p in
      of_done _ (rw (names, ops, sha, spa, tha, tpa) refl)

  arp_long_hln : 6 < hln → print_ether_arp arp ≡ fault
  unfolding print_ether_arp
  arp_long_hln h =
      let (_, names) = hrd-Prints in
      let (_, ops) = op-Prints in
      rw (names, ops, ether_addr_past (str "arp_sha = ") 8 hln 6 arp (omega arith) h) refl

  arp_long_pln : hln ≤ 6 → 4 < pln → print_ether_arp arp ≡ fault
  unfolding print_ether_arp
  arp_long_pln h p =
      let (_, names) = hrd-Prints in
      let (_, ops) = op-Prints in
      let (_, sha) = ether_addr-Prints (str "arp_sha = ") 8 hln 6 arp (omega arith) h in
      rw (names, ops, sha, proto_addr_past (str "arp_spa = ") 14 pln 4 arp (omega arith) p) refl

fault_text : (m : Run (List ℕ)) → m ≡ fault → ¬ Prints m
fault_text m e (t, p) = cc (sym e ∙ p)

-- `print_ether_arp` prints a text, and reads nothing outside of its tables and the arrays of the packet's
-- four addresses, exactly if the packet states lengths of at most 6 and 4 bytes for them; else it
-- reads past an array. Which hardware, protocol or operation the packet states does not matter.
pub print_ether_arp-Prints :
    (arp : List ℕ)
    → length arp ≡ 28
    → Prints (print_ether_arp arp) ↔ ((byte_at arp 4 ≤ 6) × (byte_at arp 5 ≤ 4))
print_ether_arp-Prints arp size = (
  λ prints. elim (Bool-cases (leb (byte_at arp 4) 6)) [
    | inr long ↦ absurd (fault_text _ (arp_long_hln arp size (ground (arith, long))) prints)
    | inl short ↦ elim (Bool-cases (leb (byte_at arp 5) 4)) [
      | inr long ↦ absurd (
          fault_text _ (arp_long_pln arp size (ground (arith, short)) (ground (arith, long)))
            prints)
      | inl fine ↦ (ground (arith, short), ground (arith, fine))
    ]
  ],
  λ h. arp_short arp size h.0 h.1,
)
