-- ===== src/Sender/Window.antt =====
-- The slots from `front` up to `last` of a ring of 4096.
use network_program.Prelude.{
  ℕ, zero, suc, ◌+◌, ◌%◌, ◌<◌, ◌≡◌, refl, ap, ◌∙◌, ◌≢◌, List, [], ◌∷◌, ◌++◌, arith, length, set,
  get_elem?-set_self, get_elem?-set_ne,
}
use mathlib.Core.Path.{ap₂}
use network_program.Sender.{Slot, max_queue_size, queue_next, slot_at}

abbrev pub window : List Slot → ℕ → ℕ → List Slot
window xs i zero = []
window xs i (suc n) = slot_at xs i ∷ window xs (queue_next i) n

pub slot_at-set_self :
    (xs : List Slot) (i : ℕ) (v : Slot) → i < length xs → slot_at (set xs i v) i ≡ v
slot_at-set_self xs i v h = rw (get_elem?-set_self xs i v h, slot_at)

pub slot_at-set_ne :
    (xs : List Slot) (i j : ℕ) (v : Slot) → i ≢ j → slot_at (set xs i v) j ≡ slot_at xs j
slot_at-set_ne xs i j v h = rw (get_elem?-set_ne xs v h, slot_at)

-- The slot `j` lies `gap` slots behind a window of `n` slots that starts at `i`, and is none of it.
pub record IsBehind (j i n gap : ℕ) : Type 0 where
  pub start_lt : i < max_queue_size
  pub short : n + gap < max_queue_size
  pub at_end : j ≡ (i + n + gap) % max_queue_size

pub window-set :
    (n i j gap : ℕ) (xs : List Slot) (v : Slot)
    → IsBehind j i n gap
    → window (set xs j v) i n ≡ window xs i n
window-set zero i j gap xs v b = refl
window-set (suc n) i j gap xs v b =
    let away : j ≢ i = omega arith in
    ap₂ ◌∷◌ (slot_at-set_ne xs j i v away) (window-set n (queue_next i) j gap xs v (omega arith))

pub window-snoc :
    (n i : ℕ) (xs : List Slot)
    → i < max_queue_size
    → window xs i (suc n) ≡ window xs i n ++ slot_at xs ((i + n) % max_queue_size) ∷ []
window-snoc zero i xs lt = ap (λ k. slot_at xs k ∷ []) (omega arith)
window-snoc (suc n) i xs lt = ap (◌∷◌ (slot_at xs i)) (
    window-snoc n (queue_next i) xs (omega arith)
    ∙ ap (λ k. window xs (queue_next i) n ++ slot_at xs k ∷ []) (omega arith))
