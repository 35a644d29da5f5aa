-- ===== src/Telnet/Waits.antt =====
-- The loop of chapter05/telnet1.c over the socket and the keyboard.
use network_program.Prelude.{
  ℕ, ◌≡◌, refl, sym, ap, ◌∙◌, Bool, true, false, Option, none, some, List, [], ◌∷◌, ◌++◌, map,
  append_assoc, append-nil, All, done, eintr,
}
use network_program.Telnet.{
  Recv, iac, wont, Client, key_byte, Wait, wait_failed, timed_out, ready, serve_wait, on_wait,
  send_recv_loop,
}
use network_program.Telnet.Items.{
  Item, char_item, command, encode, encode_all, IsItem, shows, all_sent, recv_data-item, text_of,
  refusals,
}

-- What a pass of telnet1.c finds: nothing, a `select` that was interrupted, or an item of the server's,
-- a key, or both.
pub data Turn : Type 0 where
  quiet interrupted : Turn
  turn : Option Item → Option (Option ℕ) → Turn

abbrev pub wait_of : Turn → Wait
wait_of quiet = timed_out
wait_of interrupted = wait_failed eintr
wait_of (turn none key) = ready false key
wait_of (turn (some i) key) = ready true key

-- A pass in which none of the signals that end the client is caught.
abbrev pub undisturbed : Turn → Wait × Bool
undisturbed w = (wait_of w, false)

abbrev pub items_of : List Turn → List Item
items_of [] = []
items_of (turn (some i) key ∷ turns) = i ∷ items_of turns
items_of (_ ∷ turns) = items_of turns

abbrev pub item_sent : Option Item → List (List ℕ)
item_sent none = []
item_sent (some i) = refusals (i ∷ [])

abbrev pub key_sent : Option (Option ℕ) → List (List ℕ)
key_sent none = []
key_sent (some key) = (key_byte key ∷ []) ∷ []

-- What the client should send: the answer to the item, and the key.
abbrev pub sent_of : List Turn → List (List ℕ)
sent_of [] = []
sent_of (turn item key ∷ turns) = item_sent item ++ (key_sent key ++ sent_of turns)
sent_of (_ ∷ turns) = sent_of turns

abbrev pub IsTurn : Turn → Type 0
IsTurn (turn (some i) key) = IsItem i
IsTurn _ = Unit {0}

abbrev pub played : List Turn → Client → Client
played turns t = record t {
  screen = t.screen ++ text_of (items_of turns);
  sent = t.sent ++ sent_of turns;
}

keyed : Option (Option ℕ) → Client → Client
keyed none t = t
keyed (some key) t = record t { sent = t.sent ++ (key_byte key ∷ []) ∷ [] }

heard : Option Item → Client → Client
heard none t = t
heard (some i) t = shows i t

-- What comes in for a turn.
abbrev received : Turn → List Recv
received (turn (some i) key) = encode i
received _ = []

abbrev after : Turn → Client → Client
after (turn item key) t = keyed key (heard item t)
after _ t = t

on_wait-turn :
    (w : Turn) (t : Client) (rs : List Recv)
    → IsTurn w
    → on_wait all_sent t (received w ++ rs) (undisturbed w) ≡ done (true, after w t, rs)
unfolding on_wait serve_wait keyed heard
on_wait-turn quiet t rs h = refl
on_wait-turn interrupted t rs h = refl
on_wait-turn (turn none none) t rs h = refl
on_wait-turn (turn none (some key)) t rs h = refl
on_wait-turn (turn (some i) none) t rs h = rw (recv_data-item i t rs h) refl
on_wait-turn (turn (some i) (some key)) t rs h = rw (recv_data-item i t rs h) refl

on_wait-last :
    (w : Turn) (t : Client) (rs : List Recv)
    → IsTurn w
    → on_wait all_sent t (received w ++ rs) (wait_of w, true) ≡ done (false, after w t, rs)
unfolding on_wait serve_wait keyed heard
on_wait-last quiet t rs h = refl
on_wait-last interrupted t rs h = refl
on_wait-last (turn none none) t rs h = refl
on_wait-last (turn none (some key)) t rs h = refl
on_wait-last (turn (some i) none) t rs h = rw (recv_data-item i t rs h) refl
on_wait-last (turn (some i) (some key)) t rs h = rw (recv_data-item i t rs h) refl

abbrev played_all : List Turn → Client → Client
played_all [] t = t
played_all (w ∷ turns) t = played_all turns (after w t)

received_all :
    (w : Turn) (turns : List Turn) (rs : List Recv)
    → encode_all (items_of (w ∷ turns)) ++ rs ≡ received w ++ (encode_all (items_of turns) ++ rs)
received_all quiet turns rs = refl
received_all interrupted turns rs = refl
received_all (turn none key) turns rs = refl
received_all (turn (some i) key) turns rs = append_assoc (encode i) (encode_all (items_of turns)) rs

send_recv_loop-played_all :
    (turns : List Turn) (t : Client) (rs : List Recv)
    → All IsTurn turns
    → send_recv_loop all_sent t (encode_all (items_of turns) ++ rs) (map undisturbed turns)
      ≡ done (true, played_all turns t, rs)
unfolding send_recv_loop
send_recv_loop-played_all [] t rs h = refl
send_recv_loop-played_all (w ∷ turns) t rs h =
    rw (received_all w turns rs, on_wait-turn w t (encode_all (items_of turns) ++ rs) h.0)
      (send_recv_loop-played_all turns (after w t) rs h.1)

send_recv_loop-last :
    (turns : List Turn) (last : Turn) (t : Client) (rs : List Recv) (ws : List (Wait × Bool))
    → All IsTurn turns
    → IsTurn last
    → send_recv_loop all_sent t
        (encode_all (items_of (turns ++ last ∷ [])) ++ rs)
        (map undisturbed turns ++ (wait_of last, true) ∷ ws)
      ≡ done (false, played_all (turns ++ last ∷ []) t, rs)
unfolding send_recv_loop
send_recv_loop-last [] last t rs ws h k =
    rw (received_all last [] rs, on_wait-last last t rs k) refl
send_recv_loop-last (w ∷ turns) last t rs ws h k =
    rw
      (
        received_all w (turns ++ last ∷ []) rs,
        on_wait-turn w t (encode_all (items_of (turns ++ last ∷ [])) ++ rs) h.0,
      )
      (send_recv_loop-last turns last (after w t) rs ws h.1 k)

grown : List ℕ → List (List ℕ) → Client → Client
grown xs bs t = record t { screen = t.screen ++ xs; sent = t.sent ++ bs }

grown-grown :
    (xs ys : List ℕ) (bs cs : List (List ℕ)) (t : Client)
    → grown ys cs (grown xs bs t) ≡ grown (xs ++ ys) (bs ++ cs) t
unfolding grown
grown-grown xs ys bs cs t =
    ap (λ k. record t { screen = k; sent = (t.sent ++ bs) ++ cs }) (append_assoc t.screen xs ys)
    ∙ ap (λ k. record t { screen = t.screen ++ (xs ++ ys); sent = k }) (append_assoc t.sent bs cs)

grown-nil : (t : Client) → grown [] [] t ≡ t
unfolding grown
grown-nil t =
    ap (λ k. record t { screen = k; sent = t.sent ++ [] }) (append-nil t.screen)
    ∙ ap (λ k. record t { sent = k }) (append-nil t.sent)

keyed-grown : (key : Option (Option ℕ)) (t : Client) → keyed key t ≡ grown [] (key_sent key) t
unfolding keyed grown
keyed-grown none t = sym (grown-nil t)
keyed-grown (some key) t =
    ap (λ k. record t { screen = k; sent = t.sent ++ (key_byte key ∷ []) ∷ [] })
      (sym (append-nil t.screen))

abbrev item_text : Option Item → List ℕ
item_text none = []
item_text (some i) = text_of (i ∷ [])

heard-grown :
    (item : Option Item) (t : Client) → heard item t ≡ grown (item_text item) (item_sent item) t
unfolding heard grown
heard-grown none t = sym (grown-nil t)
heard-grown (some (char_item c)) t =
    ap (λ k. record t { screen = t.screen ++ c ∷ []; sent = k }) (sym (append-nil t.sent))
heard-grown (some (command verb option)) t =
    ap (λ k. record t { screen = k; sent = t.sent ++ (iac ∷ wont ∷ option ∷ []) ∷ [] })
      (sym (append-nil t.screen))

after-grown :
    (item : Option Item) (key : Option (Option ℕ)) (xs : List ℕ) (bs : List (List ℕ)) (t : Client)
    → grown xs bs (after (turn item key) t)
      ≡ grown (item_text item ++ xs) (item_sent item ++ (key_sent key ++ bs)) t
after-grown item key xs bs t =
    ap (grown xs bs) (keyed-grown key (heard item t))
    ∙ grown-grown [] xs (key_sent key) bs (heard item t)
    ∙ ap (grown xs (key_sent key ++ bs)) (heard-grown item t)
    ∙ grown-grown (item_text item) xs (item_sent item) (key_sent key ++ bs) t

text_of-turn :
    (item : Option Item) (key : Option (Option ℕ)) (turns : List Turn)
    → item_text item ++ text_of (items_of turns) ≡ text_of (items_of (turn item key ∷ turns))
text_of-turn none key turns = refl
text_of-turn (some (char_item c)) key turns = refl
text_of-turn (some (command verb option)) key turns = refl

played_all-played :
    (turns : List Turn) (t : Client)
    → played_all turns t ≡ grown (text_of (items_of turns)) (sent_of turns) t
played_all-played [] t = sym (grown-nil t)
played_all-played (quiet ∷ turns) t = played_all-played turns t
played_all-played (interrupted ∷ turns) t = played_all-played turns t
played_all-played (turn item key ∷ turns) t =
    played_all-played turns (after (turn item key) t)
    ∙ after-grown item key (text_of (items_of turns)) (sent_of turns) t
    ∙ ap (λ xs. grown xs (item_sent item ++ (key_sent key ++ sent_of turns)) t)
        (text_of-turn item key turns)

-- However the server's items and the keys come, also at once, and with timeouts and interrupted calls of
-- `select` between them, and while every `send` succeeds: as long as none of the signals that end it is
-- caught, the client of telnet1.c goes on, shows the text received and nothing else, and has sent the
-- refusals of the commands and the keys in the order of the passes, within a pass the refusal first. The
-- pass in which such a signal is caught is done as the others are, and the client then ends.
pub send_recv_loop-played :
    (turns : List Turn) (last : Turn) (t : Client) (rs : List Recv) (ws : List (Wait × Bool))
    → All IsTurn turns
    → IsTurn last
    → (send_recv_loop all_sent t (encode_all (items_of turns) ++ rs) (map undisturbed turns)
        ≡ done (true, played turns t, rs))
      × (send_recv_loop all_sent t
            (encode_all (items_of (turns ++ last ∷ [])) ++ rs)
            (map undisturbed turns ++ (wait_of last, true) ∷ ws)
          ≡ done (false, played (turns ++ last ∷ []) t, rs))
unfolding grown
send_recv_loop-played turns last t rs ws h k = (
  send_recv_loop-played_all turns t rs h ∙ ap (λ k. done (true, k, rs)) (played_all-played turns t),
  send_recv_loop-last turns last t rs ws h k
      ∙ ap (λ k. done (false, k, rs)) (played_all-played (turns ++ last ∷ []) t),
)
