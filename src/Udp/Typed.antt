-- ===== src/Udp/Typed.antt =====
-- What the client of chapter09/u-client.c does with what is typed.
use network_program.Prelude.{
  ℕ, ◌<◌, ◌≡◌, refl, ap, ◌∙◌, ◌≢◌, inl, inr, Bool, true, false, Option, none, some, List, [], ◌∷◌,
  ◌++◌, map, arith, if◌then◌else◌, ne→==, Bool-cases, length, All,
}
use network_program.CString.{text}
use network_program.CString.Text.{NonNul, NonNul-append}
use network_program.Http.Read.Fields.{text-NonNul}
use network_program.Echo.{buf_size, waiting, over}
use network_program.Udp.{
  is_colon, ends_line, target, Lookup, get_sockaddr_info, Arrival, Key, Event, quiet, ready, stops,
  Pass, ends, found, address_of, client_loop,
}
use network_program.Udp.Target.{Free, host_port, target-host_port, target-no_colon}
use network_program.Udp.Played.{
  failed, heard, said, said_to, is_last, refused, FitsArrival, FitsKey, Fits, played,
  client_loop-played,
}

-- A line with a host and a port, one without a colon, or the end of the input, with what stands before it;
-- and whether `sendto` would succeed.
pub data Typed : Type 0 where
  addressed : List ℕ → List ℕ → Bool → Typed
  unaddressed : List ℕ → Bool → Typed
  end_of_input : List ℕ → Typed

abbrev pub key_of : Typed → Key
key_of (addressed hostnm portnm ok) = record {
  line = host_port hostnm portnm;
  eof = false;
  send_ok = ok;
}
key_of (unaddressed line ok) = record { line = line; eof = false; send_ok = ok }
key_of (end_of_input line) = record { line = line; eof = true; send_ok = true }

abbrev pub keys_of : Option Typed → Option Key
keys_of none = none
keys_of (some k) = some (key_of k)

pub data Turn : Type 0 where
  nothing : Turn
  turn : Option Arrival → Option Typed → Turn

abbrev pub event_of : Turn → Event
event_of nothing = quiet
event_of (turn a k) = ready a (keys_of k)

-- The host has a byte, none of them a colon, and the port has one, none of them CR or LF; the line fits.
pub record IsAddressed (hostnm portnm : List ℕ) : Type 0 where
  pub host_pos : 0 < length hostnm
  pub host_clean : All (λ c. c ≢ b':') hostnm
  pub host_non_nul : NonNul hostnm
  pub port_pos : 0 < length portnm
  pub port_clean : All (λ c. (c ≢ b'\r') × (c ≢ b'\n')) portnm
  pub port_non_nul : NonNul portnm
  pub fits : length (host_port hostnm portnm) < buf_size

abbrev pub IsTyped : Option Typed → Type 0
IsTyped none = Unit
IsTyped (some (addressed hostnm portnm ok)) = IsAddressed hostnm portnm
IsTyped (some (unaddressed line ok)) =
    All (λ c. c ≢ b':') line × NonNul line × (length line < buf_size)
IsTyped (some (end_of_input line)) = length line < buf_size

abbrev pub IsTurn : Turn → Type 0
IsTurn nothing = Unit
IsTurn (turn a k) = FitsArrival a × IsTyped k

-- The address of a host and a port, if both calls succeed.
abbrev pub resolved : Lookup → Option ℕ
resolved l = if l.getnameinfo_ok then l.address else none

-- What is sent to an address for what is typed, and whether the loop ends with it.
abbrev pub sent_for : (List ℕ → List ℕ → Lookup) → Option Typed → List (ℕ × List ℕ)
sent_for lookup none = []
sent_for lookup (some (addressed hostnm portnm ok)) =
    said_to (resolved (lookup hostnm portnm)) (host_port hostnm portnm)
sent_for lookup (some (unaddressed line ok)) = []
sent_for lookup (some (end_of_input line)) = []

abbrev pub is_end : (List ℕ → List ℕ → Lookup) → Option Typed → Bool
is_end lookup none = false
is_end lookup (some (addressed hostnm portnm ok)) = refused (resolved (lookup hostnm portnm)) ok
is_end lookup (some (unaddressed line ok)) = false
is_end lookup (some (end_of_input line)) = true

-- What the client should show and send.
unfoldable pub meant : (List ℕ → List ℕ → Lookup) → List Turn → Pass
meant lookup [] = ends waiting
meant lookup (nothing ∷ turns) = meant lookup turns
meant lookup (turn a k ∷ turns) =
    let rest = meant lookup turns in
    if failed a
    then ends over
    else if is_end lookup k
    then record { shown = heard a; sent = []; next = stops over }
    else record {
      shown = heard a ++ rest.shown;
      sent = sent_for lookup k ++ rest.sent;
      next = rest.next;
    }

get_sockaddr_info-resolved :
    (address : Option ℕ) (getnameinfo_ok : Bool)
    → let l : Lookup = record { address = address; getnameinfo_ok = getnameinfo_ok } in
      (get_sockaddr_info l).0 ≡ resolved l
unfolding get_sockaddr_info
get_sockaddr_info-resolved none true = refl
get_sockaddr_info-resolved none false = refl
get_sockaddr_info-resolved (some a) ok = refl

Free-colon : (s : List ℕ) → All (λ c. c ≢ b':') s → Free is_colon s
Free-colon [] h = tt
Free-colon (c ∷ s) h = (ne→== c b':' h.0, Free-colon s h.1)

Free-crlf : (s : List ℕ) → All (λ c. (c ≢ b'\r') × (c ≢ b'\n')) s → Free ends_line s
Free-crlf [] h = tt
Free-crlf (c ∷ s) h = (rw (ne→== c b'\r' h.0.0, ne→== c b'\n' h.0.1) refl, Free-crlf s h.1)

target-IsAddressed :
    (hostnm portnm : List ℕ)
    → IsAddressed hostnm portnm
    → target (host_port hostnm portnm) ≡ some (hostnm, portnm)
target-IsAddressed [] portnm h = absurd (omega (arith, h.host_pos))
target-IsAddressed (c ∷ cs) [] h = absurd (omega (arith, h.port_pos))
target-IsAddressed (c ∷ cs) (p ∷ ps) h =
    target-host_port c cs p ps (Free-colon (c ∷ cs) h.host_clean) (Free-crlf (p ∷ ps) h.port_clean)

text-host_port :
    (hostnm portnm : List ℕ)
    → IsAddressed hostnm portnm
    → text (host_port hostnm portnm) ≡ host_port hostnm portnm
text-host_port hostnm portnm h = text-NonNul (host_port hostnm portnm) (
    NonNul-append hostnm (b':' ∷ (portnm ++ (b'\n' ∷ []))) h.host_non_nul
      (omega arith, NonNul-append portnm (b'\n' ∷ []) h.port_non_nul (omega arith, tt)))

address_of-host_port :
    (lookup : List ℕ → List ℕ → Lookup) (hostnm portnm : List ℕ)
    → IsAddressed hostnm portnm
    → address_of lookup (text (host_port hostnm portnm)) ≡ resolved (lookup hostnm portnm)
address_of-host_port lookup hostnm portnm h =
    let l = lookup hostnm portnm in
    ap (address_of lookup) (text-host_port hostnm portnm h)
    ∙ ap (found lookup) (target-IsAddressed hostnm portnm h)
    ∙ get_sockaddr_info-resolved l.address l.getnameinfo_ok

address_of-no_colon :
    (lookup : List ℕ → List ℕ → Lookup) (line : List ℕ)
    → All (λ c. c ≢ b':') line
    → NonNul line
    → address_of lookup (text line) ≡ none
address_of-no_colon lookup line h nn =
    ap (address_of lookup) (text-NonNul line nn)
    ∙ ap (found lookup) (target-no_colon line (Free-colon line h))

said-sent_for :
    (lookup : List ℕ → List ℕ → Lookup) (k : Option Typed)
    → IsTyped k
    → is_end lookup k ≡ false
    → said lookup (keys_of k) ≡ sent_for lookup k
said-sent_for lookup none h e = refl
said-sent_for lookup (some (addressed hostnm portnm ok)) h e =
    rw (address_of-host_port lookup hostnm portnm h, text-host_port hostnm portnm h) refl
said-sent_for lookup (some (unaddressed line ok)) h e =
    ap (λ to. said_to to (text line)) (address_of-no_colon lookup line h.0 h.1)
said-sent_for lookup (some (end_of_input line)) h e = absurd (cc)

is_last-is_end :
    (lookup : List ℕ → List ℕ → Lookup) (k : Option Typed)
    → IsTyped k
    → is_last lookup (keys_of k) ≡ is_end lookup k
is_last-is_end lookup none h = refl
is_last-is_end lookup (some (addressed hostnm portnm ok)) h =
    ap (λ to. refused to ok) (address_of-host_port lookup hostnm portnm h)
is_last-is_end lookup (some (unaddressed line ok)) h =
    ap (λ to. refused to ok) (address_of-no_colon lookup line h.0 h.1)
is_last-is_end lookup (some (end_of_input line)) h = refl

FitsKey-typed : (k : Option Typed) → IsTyped k → FitsKey (keys_of k)
FitsKey-typed none h = tt
FitsKey-typed (some (addressed hostnm portnm ok)) h = h.fits
FitsKey-typed (some (unaddressed line ok)) h = h.2
FitsKey-typed (some (end_of_input line)) h = h

Fits-turns : (turns : List Turn) → All IsTurn turns → All Fits (map event_of turns)
Fits-turns [] h = tt
Fits-turns (nothing ∷ turns) h = (tt, Fits-turns turns h.1)
Fits-turns (turn a k ∷ turns) h = ((h.0.0, FitsKey-typed k h.0.1), Fits-turns turns h.1)

played-meant :
    (lookup : List ℕ → List ℕ → Lookup) (turns : List Turn)
    → All IsTurn turns
    → played lookup (map event_of turns) ≡ meant lookup turns
unfolding played meant
played-meant lookup [] h = refl
played-meant lookup (nothing ∷ turns) h = played-meant lookup turns h.1
played-meant lookup (turn a k ∷ turns) h =
    let rest = played-meant lookup turns h.1 in
    elim (Bool-cases (is_end lookup k)) [
      | inl last ↦ rw (is_last-is_end lookup k h.0.1, last) refl
      | inr more ↦
          rw (is_last-is_end lookup k h.0.1, said-sent_for lookup k h.0.1 more, more, rest) refl
    ]

-- While every datagram has fewer than 512 bytes and every line is one that `fgets` stores, the client
-- never writes outside of its array. It shows the text of each datagram. A line that is a host, a colon
-- and a port is sent, whole, to the address that `getaddrinfo` gives for that host and that port, if
-- `getaddrinfo` and `getnameinfo` succeed, and else not; a line without a colon is not sent. The host
-- has no colon in it, the port no CR and no LF, both have a byte, and no line has a NUL. What the array
-- held before plays no part. The loop is over at the first failed `recvfrom`, end of input or failed
-- `sendto`, and not before.
pub client_loop-meant :
    (lookup : List ℕ → List ℕ → Lookup) (buf : List ℕ) (turns : List Turn)
    → length buf ≡ buf_size
    → All IsTurn turns
    → client_loop lookup buf (map event_of turns) ≡ meant lookup turns
client_loop-meant lookup buf turns size h =
    client_loop-played lookup buf (map event_of turns) size (Fits-turns turns h)
    ∙ played-meant lookup turns h
