-- ===== src/Sender/Invariant.antt =====
-- The invariant of a ring, and that the accept thread keeps it while the ring is not full.
use network_program.Prelude.{
  ℕ, suc, ◌+◌, ◌-◌, ◌%◌, ◌≤◌, ◌<◌, ◌≡◌, refl, sym, ap, ◌∙◌, ◌⊎◌, inl, inr, Option, none, some, List,
  [], ◌∷◌, ◌++◌, map, append_assoc, arith, ◌==◌, ==→eq, ==→ne, ne→==, Bool-cases, length, set, drop,
  All, length-append, length-set, length-drop, All-snoc, map-snoc, done, blocked, fault,
}
use mathlib.Core.Path.{ap₂}
use network_program.CString.{text}
use network_program.Echo.{receive_into, buf_size}
use network_program.Echo.Reply.{reply_to, make_reply_lem}
use network_program.Sender.Window.{
  window, slot_at-set_self, slot_at-set_ne, IsBehind, window-set, window-snoc,
}
use network_program.Sender.{
  Slot, Queue, Recv, recv_failed, received, max_queue_size, queue_next, slot_at, filled, receive,
  reply_buf,
}

-- How many requests wait in the ring.
abbrev pub pending : Queue → ℕ
pending q = (q.last + max_queue_size - q.front) % max_queue_size

abbrev pub waiting_slots : Queue → List Slot
waiting_slots q = window q.slots q.front (pending q)

-- A reply can be made in the slot, inside of its array.
pub record IsReady (s : Slot) : Type 0 where
  pub buf : List ℕ
  pub makes : reply_buf s ≡ done buf
  pub size : length buf ≡ buf_size

-- What is sent for a slot, and to which connection.
abbrev pub served : Slot → ℕ × List ℕ
served s = (s.acc, elim (reply_buf s) [ done buf ↦ text buf | blocked ↦ [] | fault ↦ [] ])

abbrev pub busy_view : List Slot → Option ℕ → List (ℕ × List ℕ)
busy_view xs none = []
busy_view xs (some i) = served (slot_at xs i) ∷ []

-- What has been sent, what is about to be sent, and what waits, in this order.
abbrev pub view : Queue → List (ℕ × List ℕ)
view q = q.sent ++ (busy_view q.slots q.busy ++ map served (waiting_slots q))

abbrev pub BusyOk : Queue → Option ℕ → Type 0
BusyOk q none = Unit {0}
BusyOk q (some i) = (i < max_queue_size) × (queue_next i ≡ q.front) × IsReady (slot_at q.slots i)

pub record Inv (q : Queue) : Type 0 where
  pub front_lt : q.front < max_queue_size
  pub last_lt : q.last < max_queue_size
  pub slots_size : length q.slots ≡ max_queue_size
  pub bufs : (i : ℕ) → i < max_queue_size → length (slot_at q.slots i).buf ≡ buf_size
  pub waiting_ready : All IsReady (waiting_slots q)
  pub busy_ok : BusyOk q q.busy

-- One slot of the array is written; the array's sizes stay.
pub set-bufs :
    (xs : List Slot) (j : ℕ) (v : Slot)
    → length xs ≡ max_queue_size
    → length v.buf ≡ buf_size
    → ((i : ℕ) → i < max_queue_size → length (slot_at xs i).buf ≡ buf_size)
    → (i : ℕ) → i < max_queue_size
    → length (slot_at (set xs j v) i).buf ≡ buf_size
set-bufs xs j v size vsize h i lt = elim (Bool-cases (j == i)) [
  | inl e ↦
      let p : j ≡ i = ==→eq j i e in
      rw (← p) (ap (λ s. length s.buf) (slot_at-set_self xs j v (omega arith)) ∙ vsize)
  | inr ne ↦ ap (λ s. length s.buf) (slot_at-set_ne xs j i v (==→ne j i ne)) ∙ h i lt
]

module _ (q : Queue) (inv : Inv q) (room : pending q < max_queue_size - 1) where
  open inv use {front_lt, last_lt, slots_size, bufs, waiting_ready, busy_ok}

  last-IsBehind : IsBehind q.last q.front (pending q) 0
  last-IsBehind = omega arith

  -- The slot that the accept thread writes is not the one that the sender works on.
  busy-view-set :
      (v : Slot) (b : Option ℕ)
      → BusyOk q b
      → (busy_view (set q.slots q.last v) b ≡ busy_view q.slots b)
  busy-view-set v none ok = refl
  busy-view-set v (some i) ok =
      ap (λ s. served s ∷ []) (slot_at-set_ne q.slots q.last i v (omega arith))

  BusyOk-set :
      (v : Slot) (b : Option ℕ) → BusyOk q b → BusyOk (record q { slots = set q.slots q.last v }) b
  BusyOk-set v none ok = tt
  BusyOk-set v (some i) ok = (ok.0, ok.1, rw (slot_at-set_ne q.slots q.last i v (omega arith)) ok.2)

  waiting-set : (v : Slot) → window (set q.slots q.last v) q.front (pending q) ≡ waiting_slots q
  waiting-set v = window-set (pending q) q.front q.last 0 q.slots v last-IsBehind

  -- The accept thread writes the slot `last` and leaves the indices.
  write_last-Inv :
      (v : Slot)
      → length v.buf ≡ buf_size
      → Inv (record q { slots = set q.slots q.last v })
        × (view (record q { slots = set q.slots q.last v }) ≡ view q)
  write_last-Inv v size = (
    record {
      front_lt = front_lt;
      last_lt = last_lt;
      slots_size = length-set q.slots q.last v ∙ slots_size;
      bufs = set-bufs q.slots q.last v slots_size size bufs;
      waiting_ready = rw (waiting-set v) waiting_ready;
      busy_ok = BusyOk-set v q.busy busy_ok;
    },
    rw (waiting-set v, busy-view-set v q.busy busy_ok),
  )

  -- It also moves `last`, over a slot in which a reply can be made.
  push-Inv :
      (v : Slot)
      → IsReady v
      → length v.buf ≡ buf_size
      → Inv (record q { slots = set q.slots q.last v; last = queue_next q.last })
        × (view (record q { slots = set q.slots q.last v; last = queue_next q.last })
            ≡ view q ++ served v ∷ [])
  push-Inv v ready size =
      let q' : Queue = record q { slots = set q.slots q.last v; last = queue_next q.last } in
      let n : pending q' ≡ suc (pending q) = omega arith in
      let waits : waiting_slots q' ≡ waiting_slots q ++ v ∷ [] =
        ap (window (set q.slots q.last v) q.front) n
        ∙ window-snoc (pending q) q.front (set q.slots q.last v) front_lt
        ∙ ap₂ (λ w s. w ++ s ∷ []) (waiting-set v)
            (ap (slot_at (set q.slots q.last v)) (omega arith)
              ∙ slot_at-set_self q.slots q.last v (omega arith)) in
      (
        record {
          front_lt = front_lt;
          last_lt = omega arith;
          slots_size = length-set q.slots q.last v ∙ slots_size;
          bufs = set-bufs q.slots q.last v slots_size size bufs;
          waiting_ready = rw waits (All-snoc IsReady (waiting_slots q) v waiting_ready ready);
          busy_ok = BusyOk-set v q.busy busy_ok;
        },
        rw (waits, busy-view-set v q.busy busy_ok, map-snoc (waiting_slots q) served v)
            (ap (λ k. q.sent ++ k) (sym (append_assoc (busy_view q.slots q.busy) _ _))
              ∙ sym (append_assoc q.sent _ _)),
      )

-- The requests that the accept thread queues: their bytes fit the array with a NUL behind them.
abbrev pub IsRequest : List ℕ → Type 0
IsRequest bs = (0 < length bs) × (length bs < buf_size)

abbrev pub answer : ℕ × List ℕ → ℕ × List ℕ
answer (fd, bs) = (fd, reply_to bs)

filled-IsReady :
    (s : Slot) (fd : ℕ) (bs : List ℕ)
    → length s.buf ≡ buf_size
    → IsRequest bs
    → IsReady (filled s fd (received bs)) × (served (filled s fd (received bs)) ≡ answer (fd, bs))
unfolding reply_buf
filled-IsReady s fd bs size ok =
    let (buf', makes, sent, size') = make_reply_lem s.buf bs size ok.1 in
    (
      record { buf = buf'; makes = makes; size = size' },
      rw (makes, served) (ap (λ t. (fd, t)) sent),
    )

length-receive_into :
    (buf bs : List ℕ)
    → length buf ≡ buf_size
    → length bs ≤ buf_size
    → length (receive_into buf bs) ≡ buf_size
length-receive_into buf bs size le =
    omega (arith, length-append bs (drop (length bs) buf), length-drop (length bs) buf)

module _ (q : Queue) (inv : Inv q) (room : pending q < max_queue_size - 1) (fd : ℕ) where
  pub receive-request :
      (bs : List ℕ)
      → IsRequest bs
      → Inv (receive q fd (received bs))
        × (view (receive q fd (received bs)) ≡ view q ++ answer (fd, bs) ∷ [])
  unfolding receive
  receive-request bs ok =
      let s = slot_at q.slots q.last in
      let size = inv.bufs q.last inv.last_lt in
      let (ready, serves) = filled-IsReady s fd bs size ok in
      let (inv', same) =
        push-Inv q inv room (filled s fd (received bs)) ready
          (length-receive_into s.buf bs size (omega arith)) in
      rw (ne→== (length bs) 0 (omega arith), ← serves) (inv', same)

  pub receive-nothing :
      (r : Recv)
      → (r ≡ recv_failed) ⊎ (r ≡ received [])
      → Inv (receive q fd r) × (view (receive q fd r) ≡ view q)
  unfolding receive
  receive-nothing r (inl e) = rw e (write_last-Inv q inv room _ (inv.bufs q.last inv.last_lt))
  receive-nothing r (inr e) =
      let s = slot_at q.slots q.last in
      rw e (
        write_last-Inv q inv room (filled s fd (received []))
          (length-receive_into s.buf [] (inv.bufs q.last inv.last_lt) (omega arith)))
