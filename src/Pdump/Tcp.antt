-- ===== src/Pdump/Tcp.antt =====
-- What is printed of a TCP packet over IPv4.
use network_program.Prelude.{
  ℕ, ◌+◌, ◌*◌, ◌^◌, ◌<◌, ◌≡◌, ap, ◌∙◌, Bool, ◌&&◌, List, [], ◌∷◌, ◌++◌, append_assoc, arith, length,
  length-append, done,
}
use network_program.Http.{str}
use network_program.RawUdp.{byte_at, net16}
use network_program.Pdump.{Param}
use network_program.Pdump.Filter.{passes}
use network_program.Pdump.Analyze.{
  Item, separator, title, ether_header, ip_header, tcp_header, optpad, minus, show_data, doff_of,
  ethertype_ip,
}
use network_program.Pdump.Pieces.{ShowsData, show_data-ShowsData}

-- A TCP packet in the array: its headers, its options, its payload, and whatever stands behind them. The
-- lengths that the headers state are right.
pub record IsTcp (eh ip tcphdr opts payload : List ℕ) : Type 0 where
  pub eh_size : length eh ≡ 14
  pub ip_size : length ip ≡ 20
  pub tcp_size : length tcphdr ≡ 20
  pub type_ip : net16 eh 12 ≡ ethertype_ip
  pub proto_tcp : byte_at ip 9 ≡ 6
  pub total : net16 ip 2 ≡ 40 + length opts + length payload
  pub small : length opts + length payload < 2 ^ 16
  pub doff : doff_of tcphdr * 4 ≡ 20 + length opts

abbrev pub packet : List ℕ → List ℕ → List ℕ → List ℕ → List ℕ → List ℕ → List ℕ
packet eh ip tcphdr opts payload junk = eh ++ (ip ++ (tcphdr ++ (opts ++ (payload ++ junk))))

-- The options' line, where there are any.
abbrev pub options_of : List ℕ → List Item
options_of [] = []
options_of (o ∷ opts) = optpad (o ∷ opts) ∷ []

-- Whether the packet is for the ports that are shown.
abbrev pub is_shown : Param → List ℕ → Bool
is_shown g tcphdr = g.tcp && passes g.port (net16 tcphdr 0) (net16 tcphdr 2)

-- All that is printed of the packet.
abbrev pub printed : List ℕ → List ℕ → List ℕ → List ℕ → List Item → List Item
printed eh ip tcphdr opts rows =
    separator
    ∷ title (str "[TCP]")
    ∷ ether_header eh
    ∷ ip_header ip
    ∷ tcp_header tcphdr
    ∷ ((options_of opts ++ rows) ++ separator ∷ [])

module _ (g : Param) (eh ip tcphdr opts payload junk : List ℕ)
    (t : IsTcp eh ip tcphdr opts payload) where
  buf : List ℕ
  buf = packet eh ip tcphdr opts payload junk

  behind_opts : buf ≡ (eh ++ (ip ++ (tcphdr ++ opts))) ++ (payload ++ junk)
  unfolding buf
  behind_opts = simp append_assoc

  data_at :
      (rows : List Item) × (show_data buf
          (34 + doff_of tcphdr * 4)
          (minus (minus (net16 ip 2) 20) (doff_of tcphdr * 4))
        ≡ done rows)
      × ShowsData payload rows
  data_at =
      let n : minus (minus (net16 ip 2) 20) (doff_of tcphdr * 4) ≡ length payload =
        omega (arith, t.total, t.doff, t.small) in
      let front = eh ++ (ip ++ (tcphdr ++ opts)) in
      let (rows, runs, shows) = show_data-ShowsData front payload junk (34 + doff_of tcphdr * 4) (
        omega (
          arith,
          t.eh_size,
          t.ip_size,
          t.tcp_size,
          t.doff,
          length-append eh (ip ++ (tcphdr ++ opts)),
          length-append ip (tcphdr ++ opts),
          length-append tcphdr opts,
        )) in
      (
        rows,
        ap
              (λ b.
                show_data b (34 + doff_of tcphdr * 4)
                  (minus (minus (net16 ip 2) 20) (doff_of tcphdr * 4)))
              behind_opts
            ∙ ap (show_data (front ++ (payload ++ junk)) (34 + doff_of tcphdr * 4)) n
            ∙ runs,
        shows,
      )
