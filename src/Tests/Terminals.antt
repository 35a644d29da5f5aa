-- ===== src/Tests/Terminals.antt =====
-- The telnet clients at small inputs.
use network_program.Prelude.{
  ◌≡◌, refl, true, false, none, some, List, [], ◌∷◌, ◌++◌, map, arith, All, done, other,
}
use network_program.Http.{str}
use network_program.Telnet.{at_end, Client, recv_loop, send_thread, send_recv_loop}
use network_program.Telnet.Items.{
  Item, char_item, command, IsItem, encode_all, all_sent, shown, recv_loop-shown,
}
use network_program.Telnet.Waits.{
  Turn, quiet, turn, IsTurn, undisturbed, wait_of, items_of, played, send_recv_loop-played,
}

abbrev start : Client
start = record { screen = []; sent = []; errno = other }

-- "hi" with DO ECHO inside
abbrev items : List Item
items = char_item b'h' ∷ command 253 1 ∷ char_item b'i' ∷ []

items-IsItem : All IsItem items
items-IsItem = (omega arith, (tt, (omega arith, tt)))

shows_text :
    recv_loop 4 all_sent start (encode_all items ++ at_end ∷ [])
    ≡ done (record start { screen = str "hi"; sent = (255 ∷ 252 ∷ 1 ∷ []) ∷ [] }, [])
unfolding recv_loop
shows_text = refl

recv_loop-shown_example :
    recv_loop 4 all_sent start (encode_all items ++ at_end ∷ []) ≡ done (shown items start, [])
recv_loop-shown_example = recv_loop-shown items start [] items-IsItem

-- At the end of its input the thread sends the byte 255 in each pass.
sends_255 :
    (send_thread all_sent start ((false, none) ∷ (false, none) ∷ (true, none) ∷ [])).sent
    ≡ (255 ∷ []) ∷ (255 ∷ []) ∷ []
unfolding send_thread
sends_255 = refl

-- A letter, nothing, and a command while a key is typed.
abbrev turns : List Turn
turns =
    turn (some (char_item b'h')) none ∷ quiet ∷ turn (some (command 253 1)) (some (some b'x')) ∷ []

turns-IsTurn : All IsTurn turns
turns-IsTurn = (omega arith, (tt, (tt, tt)))

send_recv_loop-played_example :
    (send_recv_loop all_sent start (encode_all (items_of turns) ++ []) (map undisturbed turns)
      ≡ done (true, played turns start, []))
    × (send_recv_loop all_sent start
          (encode_all (items_of (turns ++ quiet ∷ [])) ++ [])
          (map undisturbed turns ++ (wait_of quiet, true) ∷ [])
        ≡ done (false, played (turns ++ quiet ∷ []) start, []))
send_recv_loop-played_example = send_recv_loop-played turns quiet start [] [] turns-IsTurn tt
