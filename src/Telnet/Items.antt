-- ===== src/Telnet/Items.antt =====
-- What `recv_data` and the loop of chapter05/telnet5.c make of the server's text and commands.
use network_program.Prelude.{
  ℕ, suc, ◌+◌, ◌≡◌, refl, sym, ap, ◌∙◌, ◌≢◌, true, false, Option, none, some, List, [], ◌∷◌, ◌++◌,
  append_assoc, append-nil, arith, ne→==, length, All, done,
}
use network_program.Telnet.{
  Recv, byte, at_end, Sends, iac, wont, Client, recv_data, recv_loop, recv_next,
}

-- What a server sends: a byte of text, or a command with its option.
pub data Item : Type 0 where
  char_item : ℕ → Item
  command : ℕ → ℕ → Item

abbrev pub encode : Item → List Recv
encode (char_item c) = byte c ∷ []
encode (command verb option) = byte iac ∷ byte verb ∷ byte option ∷ []

abbrev pub encode_all : List Item → List Recv
encode_all [] = []
encode_all (i ∷ items) = encode i ++ encode_all items

-- Text is not IAC.
abbrev pub IsItem : Item → Type 0
IsItem (char_item c) = c ≢ iac
IsItem (command verb option) = Unit {0}

-- What the client should do with an item.
abbrev pub shows : Item → Client → Client
shows (char_item c) t = record t { screen = t.screen ++ c ∷ [] }
shows (command verb option) t = record t { sent = t.sent ++ (iac ∷ wont ∷ option ∷ []) ∷ [] }

abbrev pub shows_all : List Item → Client → Client
shows_all [] t = t
shows_all (i ∷ items) t = shows_all items (shows i t)

abbrev pub all_sent : Sends
all_sent n = none

pub recv_data-item :
    (i : Item) (t : Client) (rs : List Recv)
    → IsItem i
    → recv_data all_sent t (encode i ++ rs) ≡ done (true, shows i t, rs)
unfolding recv_data recv_next
recv_data-item (char_item c) t rs h = rw (ne→== c iac h) refl
recv_data-item (command verb option) t rs h = refl

recv_data-end :
    (t : Client) (rs : List Recv) → recv_data all_sent t (at_end ∷ rs) ≡ done (false, t, rs)
unfolding recv_data recv_next
recv_data-end t rs = refl

recv_loop-go :
    (n : ℕ) (ok : Sends) (t t' : Client) (rs rs' : List Recv)
    → recv_data ok t rs ≡ done (true, t', rs')
    → recv_loop (suc n) ok t rs ≡ recv_loop n ok t' rs'
unfolding recv_loop
recv_loop-go n ok t t' rs rs' e = rw e refl

recv_loop-stop :
    (n : ℕ) (ok : Sends) (t t' : Client) (rs rs' : List Recv)
    → recv_data ok t rs ≡ done (false, t', rs')
    → recv_loop (suc n) ok t rs ≡ done (t', rs')
unfolding recv_loop
recv_loop-stop n ok t t' rs rs' e = rw e refl

recv_loop-items :
    (items : List Item) (fuel : ℕ) (t : Client) (rs : List Recv)
    → All IsItem items
    → recv_loop (length items + fuel) all_sent t (encode_all items ++ rs)
      ≡ recv_loop fuel all_sent (shows_all items t) rs
recv_loop-items [] fuel t rs h = ap (λ k. recv_loop k all_sent t rs) (omega arith)
recv_loop-items (i ∷ items) fuel t rs h =
    let t' = shows i t in
    let more = encode_all items ++ rs in
    ap (λ k. recv_loop k all_sent t ((encode i ++ encode_all items) ++ rs)) (omega arith)
    ∙ recv_loop-go (length items + fuel) all_sent t t' ((encode i ++ encode_all items) ++ rs) more (
        ap (recv_data all_sent t) (append_assoc (encode i) (encode_all items) rs)
        ∙ recv_data-item i t more h.0)
    ∙ recv_loop-items items fuel t' rs h.1

-- The text among the items, and the answers to the commands.
abbrev pub text_of : List Item → List ℕ
text_of [] = []
text_of (char_item c ∷ items) = c ∷ text_of items
text_of (command verb option ∷ items) = text_of items

abbrev pub refusals : List Item → List (List ℕ)
refusals [] = []
refusals (char_item c ∷ items) = refusals items
refusals (command verb option ∷ items) = (iac ∷ wont ∷ option ∷ []) ∷ refusals items

abbrev pub shown : List Item → Client → Client
shown items t = record t { screen = t.screen ++ text_of items; sent = t.sent ++ refusals items }

pub shows_all-shown : (items : List Item) (t : Client) → shows_all items t ≡ shown items t
shows_all-shown [] t =
    ap (λ k. record t { screen = k }) (sym (append-nil t.screen))
    ∙ ap (λ k. record t { screen = t.screen ++ []; sent = k }) (sym (append-nil t.sent))
shows_all-shown (char_item c ∷ items) t =
    shows_all-shown items (shows (char_item c) t)
    ∙ ap (λ k. record t { screen = k; sent = t.sent ++ refusals items })
        (append_assoc t.screen (c ∷ []) (text_of items))
shows_all-shown (command verb option ∷ items) t =
    shows_all-shown items (shows (command verb option) t)
    ∙ ap (λ k. record t { screen = t.screen ++ text_of items; sent = k })
        (append_assoc t.sent ((iac ∷ wont ∷ option ∷ []) ∷ []) (refusals items))

-- A server that sends text without the byte 255, and commands of three bytes, and then closes the
-- connection: the loop ends, the screen shows the text and nothing else, and each command is
-- answered with IAC WONT and its option, in their order, while every `send` succeeds. One more fuel
-- than text bytes and commands is enough.
pub recv_loop-shown :
    (items : List Item) (t : Client) (rs : List Recv)
    → All IsItem items
    → recv_loop (suc (length items)) all_sent t (encode_all items ++ at_end ∷ rs)
      ≡ done (shown items t, rs)
recv_loop-shown items t rs h =
    ap (λ k. recv_loop k all_sent t (encode_all items ++ at_end ∷ rs)) (omega arith)
    ∙ recv_loop-items items 1 t (at_end ∷ rs) h
    ∙ recv_loop-stop 0 all_sent (shows_all items t) (shows_all items t) (at_end ∷ rs) rs
        (recv_data-end (shows_all items t) rs)
    ∙ ap (λ k. done (k, rs)) (shows_all-shown items t)

-- The command that the client answers when the connection is closed inside it.
abbrev pub cut_short : Option ℕ → List Recv
cut_short none = byte iac ∷ at_end ∷ at_end ∷ []
cut_short (some verb) = byte iac ∷ byte verb ∷ at_end ∷ []

abbrev pub last_byte : Option ℕ → ℕ
last_byte none = iac
last_byte (some verb) = verb

recv_data-cut :
    (verb : Option ℕ) (t : Client) (rs : List Recv)
    → recv_data all_sent t (cut_short verb ++ rs)
      ≡ done (true, record t { sent = t.sent ++ (iac ∷ wont ∷ last_byte verb ∷ []) ∷ [] }, rs)
unfolding recv_data recv_next
recv_data-cut none t rs = refl
recv_data-cut (some verb) t rs = refl

-- A connection that is closed inside a command, behind IAC or behind the verb: `recv_data` does not
-- notice the end there, and the client answers a command that was never sent, with the last byte
-- that came in as its option, before the loop ends.
pub recv_loop_cut :
    (items : List Item) (verb : Option ℕ) (t : Client) (rs : List Recv)
    → All IsItem items
    → recv_loop (length items + 2) all_sent t (encode_all items ++ (cut_short verb ++ at_end ∷ rs))
      ≡ done (
        record t {
          screen = t.screen ++ text_of items;
          sent = (t.sent ++ refusals items) ++ (iac ∷ wont ∷ last_byte verb ∷ []) ∷ [];
        },
        rs,
      )
recv_loop_cut items verb t rs h =
    let t' = shows_all items t in
    let t'' = record t' { sent = t'.sent ++ (iac ∷ wont ∷ last_byte verb ∷ []) ∷ [] } in
    recv_loop-items items 2 t (cut_short verb ++ at_end ∷ rs) h
    ∙ recv_loop-go 1 all_sent t' t'' (cut_short verb ++ at_end ∷ rs) (at_end ∷ rs)
        (recv_data-cut verb t' (at_end ∷ rs))
    ∙ recv_loop-stop 0 all_sent t'' t'' (at_end ∷ rs) rs (recv_data-end t'' rs)
    ∙ ap
        (λ (k : Client).
          done (record k { sent = k.sent ++ (iac ∷ wont ∷ last_byte verb ∷ []) ∷ [] }, rs))
        (shows_all-shown items t)
