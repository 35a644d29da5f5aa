-- ===== src/Sender/Drain.antt =====
-- The sender thread empties its ring.
use network_program.Prelude.{
  ℕ, zero, suc, ◌≤◌, ◌≡◌, refl, sym, ◌∙◌, inl, inr, none, List, map, append-nil, arith, ◌==◌, ==→eq,
  ==→ne, Bool-cases, Option-cases,
}
use network_program.Sender.{Slot, Queue, pick, reply, send_thread, init}
use network_program.Sender.Invariant.{pending, view, Inv, answer}
use network_program.Sender.Fifo.{pick-Inv, reply-Inv, History, History-Inv, init-Inv, IsRing}

-- A reply leaves the indices, and the thread has no slot any more.
record Replies (q q' : Queue) : Type 0 where
  idle : q'.busy ≡ none
  front : q'.front ≡ q.front
  last : q'.last ≡ q.last

reply-Replies : (q : Queue) → Replies q (reply q)
unfolding reply
reply-Replies q = elim (Option-cases q.busy) [
  | inl idle ↦ rw (idle, reply) (record { idle = idle; front = refl; last = refl })
  | inr (i, busy) ↦ ground arith
]

pick-pending : (q : Queue) (n : ℕ) → Inv q → pending q ≤ suc n → pending (pick q) ≤ n
unfolding pick
pick-pending q n inv le =
    let front_lt = inv.front_lt in
    let last_lt = inv.last_lt in
    elim (Bool-cases (q.last == q.front)) [
      | inl nothing ↦ let e = ==→eq q.last q.front nothing in rw nothing (omega arith)
      | inr some_wait ↦ let ne = ==→ne q.last q.front some_wait in rw some_wait (omega arith)
    ]

send_thread-drains :
    (n : ℕ) (q : Queue)
    → Inv q
    → q.busy ≡ none
    → pending q ≤ n
    → let q' = send_thread n q in (q'.sent ≡ view q) × (q'.last ≡ q'.front) × (q'.busy ≡ none)
unfolding send_thread
send_thread-drains zero q inv idle le =
    let zero_left : pending q ≡ 0 = omega arith in
    let front_lt = inv.front_lt in
    let last_lt = inv.last_lt in (rw (idle, zero_left) (sym (append-nil q.sent)), omega arith, idle)
send_thread-drains (suc n) q inv idle le =
    let (inv', same) = pick-Inv q inv idle in
    let (inv'', same') = reply-Inv (pick q) inv' in
    let r = reply-Replies (pick q) in
    let less = pick-pending q n inv le in
    let (sent, empty, free) =
      send_thread-drains n (reply (pick q)) inv'' r.idle (rw (r.front, r.last) less) in
    (sent ∙ same' ∙ same, empty, free)

-- However the two threads have interleaved so far, under the same conditions as before: once the accept
-- thread receives nothing more, the sender thread, which may be in the middle of a request,
-- finishes that one and in as many passes as requests wait answers all the others: what is sent is
-- then the answers to all requests received, each to its own connection, in the order received, and
-- the ring is empty.
pub History-send_thread :
    (slots : List Slot) {rs : List (ℕ × List ℕ)} {q : Queue}
    → IsRing slots
    → History (init slots) rs q
    → let q' = send_thread (pending q) (reply q) in
      (q'.sent ≡ map answer rs) × (q'.last ≡ q'.front) × (q'.busy ≡ none)
History-send_thread slots {q = q} ring h =
    let (inv, nothing) = init-Inv slots ring in
    let (inv', all) = History-Inv h inv nothing in
    let (inv'', same) = reply-Inv q inv' in
    let r = reply-Replies q in
    let left : pending (reply q) ≤ pending q = rw (r.front, r.last) (omega arith) in
    let (sent, empty, free) = send_thread-drains (pending q) (reply q) inv'' r.idle left in
    (sent ∙ same ∙ all, empty, free)
