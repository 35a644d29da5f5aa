-- ===== src/Tests/Strings.antt =====
-- The string functions and the echo dialogue at small inputs.
use network_program.Prelude.{
  ℕ, ◌≡◌, refl, inr, true, List, [], ◌∷◌, arith, replicate, length-replicate, done, fault, count,
}
use network_program.CString.{mystrlcat}
use network_program.Echo.{buf_size, ok_suffix, Round, over, send_recv_loop}
use network_program.Echo.Reply.{dialogue, send_recv_loop-dialogue}

-- "hi" in an array of eight bytes.
abbrev hi : List ℕ
hi = b'h' ∷ b'i' ∷ 0 ∷ 7 ∷ 7 ∷ 7 ∷ 7 ∷ 7 ∷ []

append_fits : mystrlcat hi (b'!' ∷ []) 6 ≡ done (b'h' ∷ b'i' ∷ b'!' ∷ 0 ∷ 0 ∷ 0 ∷ 7 ∷ 7 ∷ [], 3)
unfolding mystrlcat
append_fits = refl

append_cut : mystrlcat hi ok_suffix 5 ≡ done (b'h' ∷ b'i' ∷ b':' ∷ b'O' ∷ 0 ∷ 7 ∷ 7 ∷ 7 ∷ [], 7)
unfolding mystrlcat
append_cut = refl

no_nul : mystrlcat (1 ∷ 2 ∷ []) ok_suffix 2 ≡ fault
unfolding mystrlcat
no_nul = refl

abbrev array : List ℕ
array = replicate buf_size 170

-- "a\nb" comes in, and then the connection is closed.
abbrev short_talk : List Round
short_talk =
    record { rv = count 3; stored = b'a' ∷ b'\n' ∷ b'b' ∷ []; send_ok = true }
    ∷ record { rv = count 0; stored = []; send_ok = true }
    ∷ []

send_recv_loop-dialogue_example : send_recv_loop array short_talk ≡ dialogue short_talk
send_recv_loop-dialogue_example =
    send_recv_loop-dialogue array short_talk (length-replicate {A = ℕ} buf_size 170)
      (inr (refl, omega arith), (inr (refl, omega arith), tt))

short_talk_replies :
    dialogue short_talk
    ≡ record { sent = (b'a' ∷ b':' ∷ b'O' ∷ b'K' ∷ b'\r' ∷ b'\n' ∷ []) ∷ []; ending = over }
unfolding dialogue
short_talk_replies = refl

abbrev full_round : Round
full_round = record { rv = count buf_size; stored = replicate buf_size b'x'; send_ok = true }
