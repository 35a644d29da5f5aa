-- ===== src/Chat/Talk.antt =====
-- What the clients of chapter04/client-timeout.c and chapter11/ssl-client.c show and send.
use network_program.Prelude.{
  ℕ, ◌<◌, ◌≡◌, refl, ap, ◌⊎◌, inl, inr, Bool, true, false, Option, none, some, List, [], ◌∷◌, ◌++◌,
  append-nil, arith, ◌==◌, if◌then◌else◌, Bool-cases, length, All, length-snoc, minus_one, count,
}
use network_program.CString.{text}
use network_program.Echo.{buf_size, receive_into}
use network_program.Udp.{Arrival, Key, Event, quiet, ready}
use network_program.Udp.Arrays.{length-receive_into, write-receive_into, text-fgets}
use network_program.Udp.Played.{FitsArrival, FitsKey, Fits}
use network_program.Chat.{
  End, waiting, on_error, on_eof, goes_on, stops, Talked, ends, on_socket, on_keyboard, talk_loop,
}

abbrev pub ends_at : Option Arrival → Option End
ends_at none = none
ends_at (some a) = elim a.rv [
  | minus_one ↦ some on_error
  | count len ↦ if len == 0 then some on_eof else none
]

abbrev pub heard : Option Arrival → List (List ℕ)
heard none = []
heard (some a) = text a.stored ∷ []

abbrev pub said : Option Key → List (List ℕ)
said none = []
said (some k) = text k.line ∷ []

abbrev pub ends_with : Option Key → Option End
ends_with none = none
ends_with (some k) = if k.eof then some on_eof else if k.send_ok then none else some on_error

abbrev over_with : List (List ℕ) → End → Talked
over_with shown e = record { shown = shown; sent = []; next = stops e }

abbrev behind : Option Arrival → Option Key → Talked → Talked
behind a k rest = record {
  shown = heard a ++ rest.shown;
  sent = said k ++ rest.sent;
  next = rest.next;
}

abbrev pub unless : Option End → Option End → Option Arrival → Talked → Talked
unless (some e) last a rest = ends e
unless none (some e) a rest = over_with (heard a) e
unless none none a rest = rest

-- The loop without its array.
unfoldable pub talked : List Event → Talked
talked [] = ends waiting
talked (quiet ∷ es) = talked es
talked (ready a k ∷ es) =
    let rest = talked es in unless (ends_at a) (ends_with k) a (behind a k rest)

abbrev goes : List (List ℕ) → List (List ℕ) → List ℕ → Talked
goes shown sent buf = record { shown = shown; sent = sent; next = goes_on buf }

on_socket_lem :
    (buf : List ℕ) (a : Option Arrival)
    → length buf ≡ buf_size
    → FitsArrival a
    → ((e : End) × (on_socket buf a ≡ ends e) × (ends_at a ≡ some e))
      ⊎ ((buf' : List ℕ) × (on_socket buf a ≡ goes (heard a) [] buf')
          × (length buf' ≡ buf_size)
          × (ends_at a ≡ none))
unfolding on_socket
on_socket_lem buf none size h = inr (buf, refl, size, refl)
on_socket_lem buf (some a) size (inl e) = inl (on_error, rw e refl, rw e refl)
on_socket_lem buf (some a) size (inr (len, lt)) = elim (Bool-cases (length a.stored == 0)) [
  | inl eof ↦ inl (on_eof, rw (len, eof) refl, rw (len, eof) refl)
  | inr more ↦
      let (buf', runs, same, size') = write-receive_into buf a.stored size lt in
      inr (buf', rw (len, more, runs, same) refl, size', rw (len, more) refl)
]

on_line_lem :
    (buf line : List ℕ) (eof send_ok : Bool)
    → length buf ≡ buf_size
    → length line < buf_size
    → let k : Key = record { line = line; eof = eof; send_ok = send_ok } in
      ((e : End) × (on_keyboard buf (some k) ≡ ends e) × (ends_with (some k) ≡ some e))
      ⊎ ((buf' : List ℕ) × (on_keyboard buf (some k) ≡ goes [] (said (some k)) buf')
          × (length buf' ≡ buf_size)
          × (ends_with (some k) ≡ none))
unfolding on_keyboard
on_line_lem buf line true send_ok size lt = inl (on_eof, refl, refl)
on_line_lem buf line false false size lt = inl (on_error, refl, refl)
on_line_lem buf line false true size lt =
    let buf' = receive_into buf (line ++ 0 ∷ []) in
    inr (
      buf',
      rw (text-fgets buf line) refl,
      length-receive_into buf (line ++ 0 ∷ []) size (omega (arith, length-snoc line 0)),
      refl,
    )

on_keyboard_lem :
    (buf : List ℕ) (k : Option Key)
    → length buf ≡ buf_size
    → FitsKey k
    → ((e : End) × (on_keyboard buf k ≡ ends e) × (ends_with k ≡ some e))
      ⊎ ((buf' : List ℕ) × (on_keyboard buf k ≡ goes [] (said k) buf')
          × (length buf' ≡ buf_size)
          × (ends_with k ≡ none))
unfolding on_keyboard
on_keyboard_lem buf none size h = inr (buf, refl, size, refl)
on_keyboard_lem buf (some k) size lt = on_line_lem buf k.line k.eof k.send_ok size lt

-- While every receive stores fewer than 512 bytes and every line is one that `fgets` stores, the loop never
-- writes outside of its array. It shows the text of what is received and sends each line as it was typed;
-- what the array held before plays no part. It is over at the first failed receive or send, and at the
-- end of the connection or of the input, and not before.
pub talk_loop-talked :
    (buf : List ℕ) (es : List Event)
    → length buf ≡ buf_size
    → All Fits es
    → talk_loop buf es ≡ talked es
unfolding talk_loop talked
talk_loop-talked buf [] size h = refl
talk_loop-talked buf (quiet ∷ es) size h = talk_loop-talked buf es size h.1
talk_loop-talked buf (ready a k ∷ es) size h = elim (on_socket_lem buf a size h.0.0) [
  | inl (e, ends_it, is) ↦ rw (ends_it, is) refl
  | inr (b, hears, n, is) ↦ elim (on_keyboard_lem b k n h.0.1) [
    | inl (e, ends_it, last) ↦
        rw (hears, is, ends_it, last) (ap (λ s. over_with s e) (append-nil (heard a)))
    | inr (b', on, n', more) ↦
        rw (hears, is, on, more, talk_loop-talked b' es n' h.1) (rw (append-nil (heard a)) refl)
  ]
]
