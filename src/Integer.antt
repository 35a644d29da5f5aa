-- ===== src/Integer.antt =====
-- The C type `int`: what a number becomes that is stored in 32 bits.
use network_program.Prelude.{ℕ, ◌-◌, ◌^◌, ltb, if◌then◌else◌}

-- A number with a sign.
pub data ℤ : Type 0 where
  pos : ℕ → ℤ
  negsuc : ℕ → ℤ

-- `(int) k` of a number below 2^32
abbrev pub as_int : ℕ → ℤ
as_int k = if ltb k (2 ^ 31) then pos k else negsuc (2 ^ 32 - 1 - k)
