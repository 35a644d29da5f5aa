-- ===== src/Sender/Fifo.antt =====
-- While the ring does not fill up, the requests are answered each once, in order.
use network_program.Prelude.{
  ℕ, suc, ◌-◌, ◌<◌, ◌≡◌, refl, sym, ap, ◌∙◌, ◌⊎◌, inl, inr, none, some, List, [], ◌∷◌, ◌++◌, map,
  append_assoc, arith, ◌==◌, ==→ne, ne→==, Bool-cases, Option-cases, length, set, length-set,
  map-snoc, done, count,
}
use mathlib.Core.Path.{subst}
use network_program.CString.{text}
use network_program.Echo.{buf_size}
use network_program.Sender.Window.{window, IsBehind, window-set}
use network_program.Sender.{
  Slot, Queue, Recv, recv_failed, received, max_queue_size, queue_next, slot_at, receive, pick,
  reply_buf, reply, init,
}
use network_program.Sender.Invariant.{
  pending, waiting_slots, view, BusyOk, Inv, set-bufs, IsRequest, answer, receive-request,
  receive-nothing,
}

-- The sender thread takes the oldest waiting slot.
pub pick-Inv : (q : Queue) → Inv q → q.busy ≡ none → Inv (pick q) × (view (pick q) ≡ view q)
unfolding pick
pick-Inv q inv idle = elim (Bool-cases (q.last == q.front)) [
  | inl nothing ↦ rw nothing (inv, refl)
  | inr some_wait ↦
      let q' : Queue = record q { front = queue_next q.front; busy = some q.front } in
      let ne = ==→ne q.last q.front some_wait in
      let last_lt = inv.last_lt in
      let front_lt = inv.front_lt in
      let n : pending q ≡ suc (pending q') = omega arith in
      let waits : waiting_slots q ≡ slot_at q.slots q.front ∷ waiting_slots q' =
        ap (window q.slots q.front) n in
      let ready = rw waits at (inv.waiting_ready) in
      rw some_wait (
        record {
          front_lt = omega arith;
          last_lt = last_lt;
          slots_size = inv.slots_size;
          bufs = inv.bufs;
          waiting_ready = ready.1;
          busy_ok = (front_lt, refl, ready.0);
        },
        rw (idle, waits) refl,
      )
]

reply-idle : (q : Queue) → q.busy ≡ none → reply q ≡ q
unfolding reply
reply-idle q idle = ground arith

-- The queue behind a reply from the slot `i`.
abbrev replied : Queue → ℕ → List ℕ → Queue
replied q i buf = record q {
  busy = none;
  slots = set q.slots i (record (slot_at q.slots i) { buf = buf; len = count (length (text buf)) });
  sent = q.sent ++ ((slot_at q.slots i).acc, text buf) ∷ [];
}

reply-busy :
    (q : Queue) (i : ℕ) (buf : List ℕ)
    → q.busy ≡ some i
    → reply_buf (slot_at q.slots i) ≡ done buf
    → reply q ≡ replied q i buf
unfolding reply
reply-busy q i buf busy makes = ground arith

replied-Inv :
    (q : Queue) (i : ℕ) (buf : List ℕ)
    → Inv q
    → q.busy ≡ some i
    → i < max_queue_size
    → queue_next i ≡ q.front
    → reply_buf (slot_at q.slots i) ≡ done buf
    → length buf ≡ buf_size
    → Inv (replied q i buf) × (view (replied q i buf) ≡ view q)
replied-Inv q i buf inv busy lt before makes size =
    let v : Slot = record (slot_at q.slots i) { buf = buf; len = count (length (text buf)) } in
    let last_lt = inv.last_lt in
    let front_lt = inv.front_lt in
    let behind : IsBehind i q.front (pending q) (max_queue_size - 1 - pending q) = omega arith in
    let waits : window (set q.slots i v) q.front (pending q) ≡ waiting_slots q =
      window-set (pending q) q.front i (max_queue_size - 1 - pending q) q.slots v behind in
    (
      record {
        front_lt = front_lt;
        last_lt = last_lt;
        slots_size = length-set q.slots i v ∙ inv.slots_size;
        bufs = set-bufs q.slots i v inv.slots_size size inv.bufs;
        waiting_ready = rw waits inv.waiting_ready;
        busy_ok = tt;
      },
      rw (waits, busy, makes) (append_assoc q.sent _ _),
    )

-- The sender thread replies from the slot that it has taken.
pub reply-Inv : (q : Queue) → Inv q → Inv (reply q) × (view (reply q) ≡ view q)
reply-Inv q inv = elim (Option-cases q.busy) [
  | inl idle ↦ rw (reply-idle q idle) (inv, refl)
  | inr (i, busy) ↦
      let ok = subst (BusyOk q) busy inv.busy_ok in
      let ready = ok.2 in
      rw (reply-busy q i ready.buf busy ready.makes)
        (replied-Inv q i ready.buf inv busy ok.0 ok.1 ready.makes ready.size)
]

-- What the two threads do from the start on, in any order, with the requests that were received; the
-- sender thread takes a slot only when it has replied from the last. The accept thread finds the
-- ring not full.
pub data History (start : Queue) : List (ℕ × List ℕ) → Queue → Type 0 where
  begin : History start [] start
  receives :
      {rs : List (ℕ × List ℕ)} {q : Queue} (fd : ℕ) (bs : List ℕ)
      → History start rs q
      → pending q < max_queue_size - 1
      → IsRequest bs
      → History start (rs ++ (fd, bs) ∷ []) (receive q fd (received bs))
  disconnects :
      {rs : List (ℕ × List ℕ)} {q : Queue} (fd : ℕ) (r : Recv)
      → History start rs q
      → pending q < max_queue_size - 1
      → (r ≡ recv_failed) ⊎ (r ≡ received [])
      → History start rs (receive q fd r)
  picks :
      {rs : List (ℕ × List ℕ)} {q : Queue}
      → History start rs q
      → q.busy ≡ none
      → History start rs (pick q)
  replies : {rs : List (ℕ × List ℕ)} {q : Queue} → History start rs q → History start rs (reply q)

pub History-Inv :
    {start q : Queue} {rs : List (ℕ × List ℕ)}
    → History start rs q
    → Inv start
    → view start ≡ []
    → Inv q × (view q ≡ map answer rs)
History-Inv begin inv e = (inv, e)
History-Inv (receives {rs} {q} fd bs h room ok) inv e =
    let (inv', v) = History-Inv h inv e in
    let (inv'', w) = receive-request q inv' room fd bs ok in
    (inv'', w ∙ ap (λ k. k ++ answer (fd, bs) ∷ []) v ∙ sym (map-snoc rs answer (fd, bs)))
History-Inv (disconnects {rs} {q} fd r h room ok) inv e =
    let (inv', v) = History-Inv h inv e in
    let (inv'', w) = receive-nothing q inv' room fd r ok in (inv'', w ∙ v)
History-Inv (picks {rs} {q} h idle) inv e =
    let (inv', v) = History-Inv h inv e in let (inv'', w) = pick-Inv q inv' idle in (inv'', w ∙ v)
History-Inv (replies {rs} {q} h) inv e =
    let (inv', v) = History-Inv h inv e in let (inv'', w) = reply-Inv q inv' in (inv'', w ∙ v)

-- The array of slots, each with a buffer of 512 bytes, as the program allocates it.
pub record IsRing (slots : List Slot) : Type 0 where
  pub size : length slots ≡ max_queue_size
  pub bufs : (i : ℕ) → i < max_queue_size → length (slot_at slots i).buf ≡ buf_size

pub init-Inv : (slots : List Slot) → IsRing slots → Inv (init slots) × (view (init slots) ≡ [])
unfolding init
init-Inv slots ring = (
  record {
    front_lt = omega arith;
    last_lt = omega arith;
    slots_size = ring.size;
    bufs = ring.bufs;
    waiting_ready = tt;
    busy_ok = tt;
  },
  refl,
)

-- From the empty ring, however the two threads interleave, while the accept thread never finds 4095
-- requests waiting and each request has 1 to 511 bytes: what has been sent, followed by the answers
-- to the request in work and to those that wait, is the answers to all requests received, each to
-- its own connection, in the order received.
pub History-view :
    (slots : List Slot) {rs : List (ℕ × List ℕ)} {q : Queue}
    → IsRing slots
    → History (init slots) rs q
    → view q ≡ map answer rs
History-view slots ring h =
    let (inv, nothing) = init-Inv slots ring in (History-Inv h inv nothing).1

-- In a ring in which 4095 requests wait, one more that is received makes the ring look empty: none
-- of them is seen by the sender thread any more.
pub receive_overflow :
    (q : Queue) (fd : ℕ) (bs : List ℕ)
    → q.front < max_queue_size
    → q.last < max_queue_size
    → pending q ≡ max_queue_size - 1
    → 0 < length bs
    → (pending (receive q fd (received bs)) ≡ 0)
      × ((receive q fd (received bs)).last ≡ (receive q fd (received bs)).front)
unfolding receive
receive_overflow q fd bs f l full pos =
    rw (ne→== (length bs) 0 (omega arith)) (omega arith, omega arith)
