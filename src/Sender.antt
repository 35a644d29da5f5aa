-- ===== src/Sender.antt =====
-- The request queues of the threaded server (chapter05/server9.c): the accept thread receives into
-- the slot `last` of a ring, and a sender thread takes the slot `front` and replies from it.
pub mod Window
pub mod Invariant
pub mod Fifo
pub mod Drain
use network_program.Prelude.{
  ℕ, zero, suc, ◌+◌, ◌%◌, Option, none, some, List, [], ◌∷◌, ◌++◌, ◌==◌, if◌then◌else◌, length,
  get_elem?, set, Run, done, blocked, fault, Ret, minus_one, count,
}
use network_program.CString.{text}
use network_program.Echo.{make_reply, receive_into}

abbrev pub max_queue_size : ℕ
max_queue_size = 4096

-- QUEUE_NEXT
abbrev pub queue_next : ℕ → ℕ
queue_next i = (i + 1) % max_queue_size

-- `struct queue_data`
pub record Slot : Type 0 where
  pub acc : ℕ
  pub buf : List ℕ
  pub len : Ret

-- `struct queue`, with the slot that the sender thread works on outside of the lock, and what the
-- thread has sent so far.
pub record Queue : Type 0 where
  pub front : ℕ
  pub last : ℕ
  pub slots : List Slot
  pub busy : Option ℕ
  pub sent : List (ℕ × List ℕ)

abbrev pub no_slot : Slot
no_slot = record { acc = 0; buf = []; len = minus_one }

-- `data[i]`
abbrev pub slot_at : List Slot → ℕ → Slot
slot_at xs i = elim (get_elem? xs i) [ none ↦ no_slot | some s ↦ s ]

-- What `recv` gives the accept thread.
pub data Recv : Type 0 where
  recv_failed : Recv
  received : List ℕ → Recv

-- `data[last].acc = fd; data[last].len = recv(..., data[last].buf, ...)`
abbrev pub filled : Slot → ℕ → Recv → Slot
filled s fd recv_failed = record s { acc = fd; len = minus_one }
filled s fd (received bs) = record s {
  acc = fd;
  buf = receive_into s.buf bs;
  len = count (length bs);
}

-- The accept thread on a readable connection. Only bytes move `last`; whether the ring is full is
-- not looked at.
unfoldable pub receive : Queue → ℕ → Recv → Queue
receive q fd r =
    let q' = record q { slots = set q.slots q.last (filled (slot_at q.slots q.last) fd r) } in
    elim r [
      | recv_failed ↦ q'
      | received bs ↦ if length bs == 0 then q' else record q' { last = queue_next q.last }
    ]

-- The sender thread under the lock: `i = front; front = QUEUE_NEXT(front)`, or nothing to do.
unfoldable pub pick : Queue → Queue
pick q =
    if q.last == q.front then q else record q { front = queue_next q.front; busy = some q.front }

-- The array from which the reply is sent; a write outside of it leaves none.
unfoldable pub reply_buf : Slot → Run (List ℕ)
reply_buf s = elim s.len [ minus_one ↦ fault | count len ↦ make_reply s.buf len ]

-- The sender thread behind the lock: it makes the reply in the slot and sends it. A failed `send` is
-- only reported, so what is sent counts as what was given to `send`.
unfoldable pub reply : Queue → Queue
unfolding reply_buf
reply q = elim q.busy [
  | none ↦ q
  | some i ↦ elim (reply_buf (slot_at q.slots i)) [
    | fault ↦ record q { busy = none }
    | blocked ↦ record q { busy = none }
    | done buf ↦ record q {
      busy = none;
      slots =
          set q.slots i (record (slot_at q.slots i) { buf = buf; len = count (length (text buf)) });
      sent = q.sent ++ ((slot_at q.slots i).acc, text buf) ∷ [];
    }
  ]
]

-- `n` passes of the loop of the sender thread, each with what the queue then has.
unfoldable pub send_thread : ℕ → Queue → Queue
unfolding pick reply
send_thread zero q = q
send_thread (suc n) q = send_thread n (reply (pick q))

-- `g_queue[qi]` at the start: the two indices are 0.
unfoldable pub init : List Slot → Queue
init slots = record { front = 0; last = 0; slots = slots; busy = none; sent = [] }
