-- ===== src/Load.antt =====
-- The load client chapter05/testclient.c: `send_recv_loop`, which sends numbered lines and compares
-- what comes back with what the echo servers should answer.
pub mod Served
use network_program.Prelude.{
  ℕ, ◌+◌, ◌-◌, Bool, not, Option, none, some, List, [], ◌∷◌, ◌++◌, ltb, ◌==◌, if◌then◌else◌, length,
  take, Run, done, ◌>>=◌, write, Ret, minus_one, count,
}
use network_program.CString.{text}
use network_program.Echo.{buf_size, receive_into, make_reply}
use network_program.Http.{equal_text}
use network_program.Http.Number.{decimal}

-- SEND_COUNT
abbrev pub send_count : ℕ
send_count = 50

-- `snprintf(buf, sizeof(buf), "%d:%d\n", ...)`, where `self` is how the thread's number is printed.
abbrev pub numbered : List ℕ → ℕ → List ℕ
numbered self n = take (buf_size - 1) (self ++ (b':' ∷ (decimal n ++ (b'\n' ∷ []))))

-- Whether `send` succeeds, and what `recv` gives and stores.
pub record Exchange : Type 0 where
  pub send_ok : Bool
  pub rv : Ret
  pub stored : List ℕ

-- One pass behind `snprintf`: none where it fails, else the two arrays. The text that is expected is
-- made from the line in the way of the servers.
unfoldable pub exchange : List ℕ → List ℕ → List ℕ → Exchange → Run (Option (List ℕ × List ℕ))
unfolding make_reply
exchange line buf rbuf e = if not e.send_ok then done none else elim e.rv [
  | minus_one ↦ done none
  | count len ↦
      if len == 0
      then done none
      else write (receive_into rbuf e.stored) len 0 >>= λ got.
          make_reply (receive_into buf line) (length line) >>= λ expected.
          done (if equal_text (text expected) (text got) then some (expected, got) else none)
]

-- Waiting for the next answer, or returned 0 or -1.
pub data Result : Type 0 where
  waiting succeeded failed : Result

abbrev pub go_on : ℕ → Option (List ℕ × List ℕ) → (List ℕ → List ℕ → Run Result) → Run Result
go_on n none rest = done failed
go_on n (some (buf, rbuf)) rest = if ltb send_count n then done succeeded else rest buf rbuf

-- `n` is `count` before the pass.
unfoldable pub load_loop : List ℕ → ℕ → List ℕ → List ℕ → List Exchange → Run Result
unfolding exchange
load_loop self n buf rbuf [] = done waiting
load_loop self n buf rbuf (e ∷ es) =
    let go = λ (b r : List ℕ). load_loop self (n + 1) b r es in
    exchange (numbered self (n + 1)) buf rbuf e >>= λ arrays. go_on (n + 1) arrays go
