-- ===== src/Telnet/Nonblocking.antt =====
-- What the loop of chapter05/telnet3.c makes of a socket that does not block.
use network_program.Prelude.{
  ℕ, zero, suc, ◌≡◌, refl, ap, ◌≢◌, true, none, List, [], ◌∷◌, ◌++◌, ne→==, replicate, done, eagain,
}
use network_program.Telnet.{
  Recv, byte, at_end, failed, Sends, iac, Client, recv_data, recv_next, is_eagain, on_pass,
  nonblocking_loop,
}

-- A command that comes in two parts, on the socket of telnet3.c, which does not block: what came first
-- is lost, the verb and the option of the command are shown as text, and no answer is sent. (With
-- no key typed, and neither byte being IAC.)
pub nonblocking_loop_split :
    (ok : Sends) (t : Client) (verb option : ℕ) (rs : List Recv)
    → verb ≢ iac
    → option ≢ iac
    → nonblocking_loop ok t
        (byte iac ∷ failed eagain ∷ byte verb ∷ byte option ∷ rs)
        (none ∷ none ∷ none ∷ [])
      ≡ done
          (true, record t { screen = (t.screen ++ verb ∷ []) ++ option ∷ []; errno = eagain }, rs)
unfolding nonblocking_loop on_pass recv_data recv_next
nonblocking_loop_split ok t verb option rs hv ho = rw (ne→== verb iac hv, ne→== option iac ho) refl

-- Once `errno` is EAGAIN, the loop of telnet3.c does not end at the end of the connection: however often
-- `recv` reports it, the loop goes on, with nothing shown and nothing sent.
pub nonblocking_loop_spins :
    (ok : Sends) (t : Client) (n : ℕ)
    → t.errno ≡ eagain
    → nonblocking_loop ok t (replicate n at_end) (replicate n none) ≡ done (true, t, [])
unfolding nonblocking_loop on_pass recv_data recv_next
nonblocking_loop_spins ok t zero h = refl
nonblocking_loop_spins ok t (suc n) h =
    let is : is_eagain t.errno ≡ true = ap is_eagain h in rw is (nonblocking_loop_spins ok t n h)
