-- ===== src/Prelude/Outcome.antt =====
-- Results of C code that waits for system calls and that reads and writes arrays.
use Prim.Native.Nat.{ℕ, zero, suc, ◌<◌, ◌≤◌}
use mathlib.Core.List.{List, [], ◌∷◌}
use mathlib.Core.Path.{◌≡◌, refl}
use native.Mathlib.Omega.{arith}
use network_program.Prelude.Lists.{length, set}

-- `blocked`: the script of system calls has ended and the code still waits for one.
-- `fault`: an access outside of an array.
pub data Run {ℓ} (A : Type ℓ) : Type ℓ where
  done : A → Run A
  blocked : Run A
  fault : Run A

infixl 5 ◌>>=◌
abbrev pub ◌>>=◌ {ℓ κ} : {A : Type ℓ} {B : Type κ} → Run A → (A → Run B) → Run B
done a >>= f = f a
blocked >>= f = blocked
fault >>= f = fault

-- buf[i] = v
abbrev pub write : List ℕ → ℕ → ℕ → Run (List ℕ)
write [] i v = fault
write (x ∷ xs) zero v = done (v ∷ xs)
write (x ∷ xs) (suc i) v = write xs i v >>= λ ys. done (x ∷ ys)

pub write-lt : (xs : List ℕ) (i v : ℕ) → i < length xs → write xs i v ≡ done (set xs i v)
write-lt [] i v h = elim h [ ]
write-lt (x ∷ xs) zero v h = refl
write-lt (x ∷ xs) (suc i) v h = rw (write-lt xs i v (omega arith))

-- What `recv`, `send` and the like return: -1, or a count.
pub data Ret : Type 0 where
  minus_one : Ret
  count : ℕ → Ret

-- The values of `errno` that the code tells apart.
pub data Errno : Type 0 where
  eintr eagain other : Errno

pub write-ge : (xs : List ℕ) (i v : ℕ) → length xs ≤ i → write xs i v ≡ fault
write-ge [] i v h = refl
write-ge (x ∷ xs) zero v h = elim h [ ]
write-ge (x ∷ xs) (suc i) v h = rw (write-ge xs i v (omega arith))
