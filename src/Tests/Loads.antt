-- ===== src/Tests/Loads.antt =====
-- Runs of the load client.
use network_program.Prelude.{ℕ, ◌+◌, ◌≡◌, refl, List, [], ◌∷◌, map, arith, replicate, done}
use network_program.Http.{str}
use network_program.Echo.{buf_size}
use network_program.Echo as Echo
use network_program.Load.{send_count, numbered, waiting, succeeded, failed, load_loop}
use network_program.Load.Served.{rounds, answered, replies, load_loop-send_recv_loop}

abbrev cells : List ℕ
cells = replicate buf_size 0

t_numbered : numbered (str "7") 12 ≡ str "7:12\n"
unfolding network_program.Http.Number.decimal
t_numbered = refl

-- A reply to another line is not accepted.
t_other : load_loop (str "7") 0 cells cells (answered (str "7:2:OK\r\n") ∷ []) ≡ done failed
unfolding load_loop network_program.Http.equal_text network_program.Http.Number.decimal
t_other = refl

load_loop-send_recv_loop_example :
    ((Echo.send_recv_loop cells (rounds (str "7") 0 (send_count + 1))).sent
      ≡ replies (str "7") 0 (send_count + 1))
    × (load_loop
          (str "7")
          0
          cells
          cells
          (map answered (Echo.send_recv_loop cells (rounds (str "7") 0 (send_count + 1))).sent)
        ≡ done succeeded)
    × (load_loop (str "7") 0 cells cells (map answered (replies (str "7") 0 2)) ≡ done waiting)
load_loop-send_recv_loop_example =
    load_loop-send_recv_loop (str "7") cells cells cells 2 refl refl refl (omega arith)
