-- ===== src/Pdump/Filter.antt =====
-- The port filter.
use network_program.Prelude.{
  ℕ, zero, suc, ◌-◌, ◌%◌, ◌^◌, ◌<◌, ◌≡◌, refl, sym, ap, ◌∙◌, Bool, true, not, ◌||◌, [], ◌∷◌,
  append-nil, arith, ◌==◌, ge→ltb, ne→==,
}
use network_program.Http.Number.{negative, to_int, atol, decimal}
use network_program.Http.Number.Laws.{to_int-nonneg, atol-decimal, atol-minus}
use network_program.Integer.{ℤ, pos, negsuc}
use network_program.Pdump.{is_target_port}

to_int-negative : (n : ℕ) → suc n < 2 ^ 31 → to_int (negative (suc n)) ≡ negsuc n
to_int-negative n small =
    let k = (2 ^ 32 - suc n % 2 ^ 32) % 2 ^ 32 in
    rw (ge→ltb k (2 ^ 31) (omega arith)) (ap negsuc (omega arith))

positive-shows : (n p q : ℕ) → 0 < n → is_target_port (pos n) p q ≡ (n == p || n == q)
unfolding is_target_port
positive-shows n p q h = ground (arith, ne→== n 0 (omega arith))

negative-hides : (n p q : ℕ) → is_target_port (negsuc n) p q ≡ not (suc n == p || suc n == q)
unfolding is_target_port
negative-hides n p q = ground arith

-- What the filter lets through: everything with 0, with `n` the packets from or to `n`, with `-n` the
-- others.
abbrev pub passes : ℤ → ℕ → ℕ → Bool
passes (pos zero) p q = true
passes (pos (suc n)) p q = suc n == p || suc n == q
passes (negsuc n) p q = not (suc n == p || suc n == q)

pub is_target_port-passes : (port : ℤ) (p q : ℕ) → is_target_port port p q ≡ passes port p q
unfolding is_target_port
is_target_port-passes (pos zero) p q = refl
is_target_port-passes (pos (suc n)) p q = positive-shows (suc n) p q (omega arith)
is_target_port-passes (negsuc n) p q = negative-hides n p q

-- For a port number `n` from 1 below 2^31, the argument `n` shows exactly the packets from or to that
-- port, and the argument `-n` exactly the others.
pub is_target_port-decimal :
    (n p q : ℕ)
    → 0 < n
    → n < 2 ^ 31
    → (is_target_port (to_int (atol (decimal n))) p q ≡ (n == p || n == q))
      × (is_target_port (to_int (atol (b'-' ∷ decimal n))) p q ≡ not (n == p || n == q))
is_target_port-decimal zero p q h small = elim h [ ]
is_target_port-decimal (suc n) p q h small = (
  ap (λ v. is_target_port (to_int v) p q)
        (ap atol (sym (append-nil (decimal (suc n)))) ∙ atol-decimal (suc n) [] (omega arith) tt)
      ∙ ap (λ z. is_target_port z p q) (to_int-nonneg (suc n) small)
      ∙ positive-shows (suc n) p q h,
  ap (λ v. is_target_port (to_int v) p q) (atol-minus (suc n) h (omega arith))
      ∙ ap (λ z. is_target_port z p q) (to_int-negative n small)
      ∙ negative-hides n p q,
)
