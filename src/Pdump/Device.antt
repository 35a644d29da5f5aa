-- ===== src/Pdump/Device.antt =====
-- The device of chapter10/pdump.c: `raw_socket`, and what `main` does when the capture is over.
use network_program.Prelude.{
  ℕ, ◌≡◌, refl, Bool, true, false, not, ◌&&◌, Option, none, some, List, ◌∷◌, if◌then◌else◌,
}
use network_program.Server.{remove}
use network_program.Server.Socket.{remove-head}

-- The flags of the interface that the program changes.
pub record Device : Type 0 where
  pub promisc : Bool
  pub up : Bool

-- What the calls of `raw_socket` give, in their order.
pub record Calls : Type 0 where
  pub socket : Option ℕ
  pub index_ok : Bool
  pub bind_ok : Bool
  pub get_flags_ok : Bool
  pub set_flags_ok : Bool

-- What the three `ioctl` calls at the end of `main` give.
pub record Closing : Type 0 where
  pub index_ok : Bool
  pub get_flags_ok : Bool
  pub set_flags_ok : Bool

pub record Opened : Type 0 where
  pub rv : Option ℕ
  pub opened : List ℕ
  pub device : Device

abbrev pub fails_with : Device → List ℕ → ℕ → Opened
fails_with d opened soc = record { rv = none; opened = remove soc (soc ∷ opened); device = d }

unfoldable pub raw_socket : Calls → Device → List ℕ → Opened
unfolding remove
raw_socket c d opened = elim c.socket [
  | none ↦ record { rv = none; opened = opened; device = d }
  | some soc ↦
      if not c.index_ok
      then fails_with d opened soc
      else if not c.bind_ok
      then fails_with d opened soc
      else if not c.get_flags_ok
      then fails_with d opened soc
      else if not c.set_flags_ok
      then fails_with d opened soc
      else record {
        rv = some soc;
        opened = soc ∷ opened;
        device = record { promisc = true; up = true };
      }
]

-- EX_OK, or EX_OSERR.
pub data Exit : Type 0 where
  ex_ok ex_oserr : Exit

-- The end of `main`, behind `capture_loop`.
unfoldable pub closes : Closing → Device → List ℕ → ℕ → Exit × Device × List ℕ
unfolding remove
closes c d opened soc =
    let closed = remove soc opened in
    if not c.index_ok
    then (ex_oserr, d, closed)
    else if not c.get_flags_ok
    then (ex_oserr, d, closed)
    else if not c.set_flags_ok
    then (ex_oserr, d, closed)
    else (ex_ok, record d { promisc = false }, closed)

-- `main` around `capture_loop`, which opens nothing and leaves the device.
unfoldable pub captures : Calls → Closing → Device → List ℕ → Exit × Device × List ℕ
unfolding raw_socket closes
captures c e d opened =
    let o = raw_socket c d opened in
    elim o.rv [ none ↦ (ex_oserr, o.device, o.opened) | some soc ↦ closes e o.device o.opened soc ]

-- Whether all calls of `raw_socket` succeed.
abbrev pub starts : Calls → Bool
starts c =
    (elim c.socket [ none ↦ false | some soc ↦ true ])
    && (c.index_ok && (c.bind_ok && (c.get_flags_ok && c.set_flags_ok)))

abbrev pub ends : Closing → Bool
ends e = e.index_ok && (e.get_flags_ok && e.set_flags_ok)

-- The outcome that one expects.
abbrev pub Expected : Calls → Closing → Device → List ℕ → Exit × Device × List ℕ → Type 0
Expected c e d opened r =
    (r.0 ≡ (if starts c && ends e then ex_ok else ex_oserr))
    × (r.1 ≡ (if starts c then record { promisc = not (ends e); up = true } else d))
    × (r.2 ≡ opened)

abbrev calls_of : Option ℕ → Bool → Bool → Bool → Bool → Calls
calls_of socket i b g s = record {
  socket = socket;
  index_ok = i;
  bind_ok = b;
  get_flags_ok = g;
  set_flags_ok = s;
}

abbrev closing_of : Bool → Bool → Bool → Closing
closing_of i g s = record { index_ok = i; get_flags_ok = g; set_flags_ok = s }

captures-by_calls :
    (socket : Option ℕ) (i b g s i' g' s' : Bool) (d : Device) (opened : List ℕ)
    → Expected
        (calls_of socket i b g s)
        (closing_of i' g' s')
        d
        opened
        (captures (calls_of socket i b g s) (closing_of i' g' s') d opened)
unfolding captures raw_socket closes
captures-by_calls none i b g s i' g' s' d opened = (refl, refl, refl)
captures-by_calls (some soc) false b g s i' g' s' d opened = (refl, refl, remove-head soc opened)
captures-by_calls (some soc) true false g s i' g' s' d opened = (refl, refl, remove-head soc opened)
captures-by_calls (some soc) true true false s i' g' s' d opened =
    (refl, refl, remove-head soc opened)
captures-by_calls (some soc) true true true false i' g' s' d opened =
    (refl, refl, remove-head soc opened)
captures-by_calls (some soc) true true true true false g' s' d opened =
    (refl, refl, remove-head soc opened)
captures-by_calls (some soc) true true true true true false s' d opened =
    (refl, refl, remove-head soc opened)
captures-by_calls (some soc) true true true true true true false d opened =
    (refl, refl, remove-head soc opened)
captures-by_calls (some soc) true true true true true true true d opened =
    (refl, refl, remove-head soc opened)

-- Every way through `main` closes the socket again. It is EX_OK exactly if all calls succeed, and the
-- interface is then up and not promiscuous, whatever it was before; it is left as it was if the
-- socket could not be made ready, and promiscuous if only the calls at the end fail.
pub captures-Expected :
    (c : Calls) (e : Closing) (d : Device) (opened : List ℕ)
    → Expected c e d opened (captures c e d opened)
captures-Expected c e d opened =
    captures-by_calls c.socket c.index_ok c.bind_ok c.get_flags_ok c.set_flags_ok e.index_ok
      e.get_flags_ok e.set_flags_ok d opened
