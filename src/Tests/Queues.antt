-- ===== src/Tests/Queues.antt =====
-- The request queues at small inputs.
use network_program.Prelude.{
  ℕ, zero, suc, ◌<◌, ◌≡◌, refl, ap, ◌∙◌, none, List, [], ◌∷◌, arith, length, replicate,
  length-replicate, count,
}
use network_program.Echo.{buf_size}
use network_program.Sender.{
  Slot, Queue, received, max_queue_size, receive, init, slot_at, reply, send_thread,
}
use network_program.Sender.Drain.{History-send_thread}
use network_program.Sender.Invariant.{pending, view, answer}
use network_program.Sender.Fifo.{History, begin, receives, IsRing, History-view, receive_overflow}

abbrev blank : Slot
blank = record { acc = 0; buf = replicate buf_size 0; len = count 0 }

abbrev blanks : List Slot
blanks = replicate max_queue_size blank

slot_at-replicate : (n i : ℕ) → i < n → slot_at (replicate n blank) i ≡ blank
slot_at-replicate zero i h = elim h [ ]
slot_at-replicate (suc n) zero h = refl
slot_at-replicate (suc n) (suc i) h = slot_at-replicate n i (omega arith)

blanks-IsRing : IsRing blanks
blanks-IsRing = record {
  size = length-replicate {A = Slot} max_queue_size blank;
  bufs = λ i lt.
      ap (λ (s : Slot). length s.buf) (slot_at-replicate max_queue_size i lt)
      ∙ length-replicate {A = ℕ} buf_size 0;
}

-- One request of connection 5 is received and taken.
abbrev hello : List ℕ
hello = b'h' ∷ b'i' ∷ b'\n' ∷ []

one_request : History (init blanks) ((5, hello) ∷ []) (receive (init blanks) 5 (received hello))
unfolding init
one_request = receives 5 hello begin (omega arith) (omega arith)

History-view_example : view (receive (init blanks) 5 (received hello)) ≡ answer (5, hello) ∷ []
History-view_example = History-view blanks blanks-IsRing one_request

abbrev full_ring : Queue
full_ring = record { front = 1; last = 0; slots = blanks; busy = none; sent = [] }

receive_overflow_example :
    (pending (receive full_ring 5 (received hello)) ≡ 0)
    × ((receive full_ring 5 (received hello)).last ≡ (receive full_ring 5 (received hello)).front)
receive_overflow_example =
    receive_overflow full_ring 5 hello (omega arith) (omega arith) refl (omega arith)

History-send_thread_example :
    let q = receive (init blanks) 5 (received hello) in
    let q' = send_thread (pending q) (reply q) in
    (q'.sent ≡ answer (5, hello) ∷ []) × (q'.last ≡ q'.front) × (q'.busy ≡ none)
History-send_thread_example = History-send_thread blanks blanks-IsRing one_request
