-- ===== src/Udp/Played.antt =====
-- What the client of chapter09/u-client.c shows and sends.
use network_program.Prelude.{
  ℕ, ◌<◌, ◌≡◌, refl, ap, ◌⊎◌, inl, inr, Bool, true, false, not, ◌||◌, Option, none, some, List, [],
  ◌∷◌, ◌++◌, append-nil, arith, if◌then◌else◌, length, All, length-snoc, minus_one, count,
}
use network_program.CString.{text}
use network_program.Echo.{buf_size, receive_into, waiting, over}
use network_program.Udp.{
  Lookup, Arrival, Key, Event, quiet, ready, goes_on, stops, Pass, ends, on_socket, address_of,
  send_to, on_keyboard, client_loop,
}
use network_program.Udp.Arrays.{length-receive_into, write-receive_into, text-fgets}

abbrev pub failed : Option Arrival → Bool
failed none = false
failed (some a) = elim a.rv [ minus_one ↦ true | count len ↦ false ]

abbrev pub heard : Option Arrival → List (List ℕ)
heard none = []
heard (some a) = text a.stored ∷ []

abbrev pub said_to : Option ℕ → List ℕ → List (ℕ × List ℕ)
said_to none line = []
said_to (some to) line = (to, line) ∷ []

abbrev pub said : (List ℕ → List ℕ → Lookup) → Option Key → List (ℕ × List ℕ)
said lookup none = []
said lookup (some k) = said_to (address_of lookup (text k.line)) (text k.line)

abbrev pub refused : Option ℕ → Bool → Bool
refused none send_ok = false
refused (some to) send_ok = not send_ok

-- The end of the input, or a line that has an address and cannot be sent.
abbrev pub is_last : (List ℕ → List ℕ → Lookup) → Option Key → Bool
is_last lookup none = false
is_last lookup (some k) = k.eof || refused (address_of lookup (text k.line)) k.send_ok

abbrev over_with : List (List ℕ) → Pass
over_with shown = record { shown = shown; sent = []; next = stops over }

-- The client's loop without its array.
unfoldable pub played : (List ℕ → List ℕ → Lookup) → List Event → Pass
played lookup [] = ends waiting
played lookup (quiet ∷ es) = played lookup es
played lookup (ready a k ∷ es) =
    let rest = played lookup es in
    if failed a then ends over else if is_last lookup k then over_with (heard a) else record {
      shown = heard a ++ rest.shown;
      sent = said lookup k ++ rest.sent;
      next = rest.next;
    }

abbrev pub FitsArrival : Option Arrival → Type 0
FitsArrival none = Unit
FitsArrival (some a) =
    (a.rv ≡ minus_one) ⊎ ((a.rv ≡ count (length a.stored)) × (length a.stored < buf_size))

abbrev pub FitsKey : Option Key → Type 0
FitsKey none = Unit
FitsKey (some k) = length k.line < buf_size

-- Datagrams of fewer bytes than the array holds, and lines as `fgets` stores them.
abbrev pub Fits : Event → Type 0
Fits quiet = Unit
Fits (ready a k) = FitsArrival a × FitsKey k

abbrev goes : List (List ℕ) → List (ℕ × List ℕ) → List ℕ → Pass
goes shown sent buf = record { shown = shown; sent = sent; next = goes_on buf }

on_socket_lem :
    (buf : List ℕ) (a : Option Arrival)
    → length buf ≡ buf_size
    → FitsArrival a
    → ((on_socket buf a ≡ ends over) × (failed a ≡ true))
      ⊎ ((buf' : List ℕ) × (on_socket buf a ≡ goes (heard a) [] buf')
          × (length buf' ≡ buf_size)
          × (failed a ≡ false))
unfolding on_socket
on_socket_lem buf none size h = inr (buf, refl, size, refl)
on_socket_lem buf (some a) size (inl e) = inl (rw e refl, rw e refl)
on_socket_lem buf (some a) size (inr (len, lt)) =
    let (buf', runs, same, size') = write-receive_into buf a.stored size lt in
    inr (buf', rw (len, runs, same) refl, size', rw len refl)

send_to_lem :
    (to : Option ℕ) (send_ok : Bool) (buf line : List ℕ)
    → text buf ≡ line
    → ((send_to to send_ok buf ≡ ends over) × (refused to send_ok ≡ true))
      ⊎ ((send_to to send_ok buf ≡ goes [] (said_to to line) buf) × (refused to send_ok ≡ false))
send_to_lem none send_ok buf line same = inr (refl, refl)
send_to_lem (some to) true buf line same = inr (rw same refl, refl)
send_to_lem (some to) false buf line same = inl (refl, refl)

on_line_lem :
    (lookup : List ℕ → List ℕ → Lookup) (buf line : List ℕ) (eof send_ok : Bool)
    → length buf ≡ buf_size
    → length line < buf_size
    → let k : Key = record { line = line; eof = eof; send_ok = send_ok } in
      ((on_keyboard lookup buf (some k) ≡ ends over) × (is_last lookup (some k) ≡ true))
      ⊎ ((buf' : List ℕ) × (on_keyboard lookup buf (some k) ≡ goes [] (said lookup (some k)) buf')
          × (length buf' ≡ buf_size)
          × (is_last lookup (some k) ≡ false))
unfolding on_keyboard
on_line_lem lookup buf line true send_ok size lt = inl (refl, refl)
on_line_lem lookup buf line false send_ok size lt =
    let buf' = receive_into buf (line ++ 0 ∷ []) in
    let same : text buf' ≡ text line = text-fgets buf line in
    let size' : length buf' ≡ buf_size =
      length-receive_into buf (line ++ 0 ∷ []) size (omega (arith, length-snoc line 0)) in
    elim (send_to_lem (address_of lookup (text line)) send_ok buf' (text line) same) [
      | inl (ends_it, last) ↦ inl (rw same ends_it, last)
      | inr (on, more) ↦ inr (buf', rw same on, size', more)
    ]

on_keyboard_lem :
    (lookup : List ℕ → List ℕ → Lookup) (buf : List ℕ) (k : Option Key)
    → length buf ≡ buf_size
    → FitsKey k
    → ((on_keyboard lookup buf k ≡ ends over) × (is_last lookup k ≡ true))
      ⊎ ((buf' : List ℕ) × (on_keyboard lookup buf k ≡ goes [] (said lookup k) buf')
          × (length buf' ≡ buf_size)
          × (is_last lookup k ≡ false))
unfolding on_keyboard
on_keyboard_lem lookup buf none size h = inr (buf, refl, size, refl)
on_keyboard_lem lookup buf (some k) size lt = on_line_lem lookup buf k.line k.eof k.send_ok size lt

pub client_loop-played :
    (lookup : List ℕ → List ℕ → Lookup) (buf : List ℕ) (es : List Event)
    → length buf ≡ buf_size
    → All Fits es
    → client_loop lookup buf es ≡ played lookup es
unfolding client_loop played
client_loop-played lookup buf [] size h = refl
client_loop-played lookup buf (quiet ∷ es) size h = client_loop-played lookup buf es size h.1
client_loop-played lookup buf (ready a k ∷ es) size h = elim (on_socket_lem buf a size h.0.0) [
  | inl (ends_it, is) ↦ rw (ends_it, is) refl
  | inr (b, hears, n, is) ↦ elim (on_keyboard_lem lookup b k n h.0.1) [
    | inl (ends_it, last) ↦ rw (hears, is, ends_it, last) (ap over_with (append-nil (heard a)))
    | inr (b', on, n', more) ↦
        rw (hears, is, on, more, client_loop-played lookup b' es n' h.1)
          (rw (append-nil (heard a)) refl)
  ]
]
