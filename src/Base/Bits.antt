-- ===== src/Base/Bits.antt =====
-- Single bits of a word, by recursion on the position: `x & (1 << i)`, `x | (1 << i)` and
-- `x & ~(1 << i)`, which the configuration bitmask is read and written by.
use Prim.Native.Nat.{ℕ, zero, suc, ◌+◌, ◌-◌, ◌*◌, ◌/◌, ◌%◌}
use mathlib.Core.Path.{◌≡◌, refl, ap}
use mathlib.Core.Logic.{◌≢◌}
use mathlib.Core.Bool.{Bool, true, false}
use native.Mathlib.Omega.{arith}
use apus.Base.Tests.{◌==◌}

-- (x & (1 << i)) != 0
unfoldable pub test_bit : ℕ → ℕ → Bool
test_bit x zero = x % 2 == 1
test_bit x (suc i) = test_bit (x / 2) i

-- x | (1 << i)
unfoldable pub set_bit : ℕ → ℕ → ℕ
set_bit x zero = x - x % 2 + 1
set_bit x (suc i) = 2 * set_bit (x / 2) i + x % 2

-- x & ~(1 << i)
unfoldable pub clear_bit : ℕ → ℕ → ℕ
clear_bit x zero = x - x % 2
clear_bit x (suc i) = 2 * clear_bit (x / 2) i + x % 2

half_shifted : (x y : ℕ) → (2 * x + y % 2) / 2 ≡ x
half_shifted x y = omega arith

pub test_bit-set_self : (x i : ℕ) → test_bit (set_bit x i) i ≡ true
unfolding test_bit set_bit
test_bit-set_self x zero = ground arith
test_bit-set_self x (suc i) = rw (half_shifted (set_bit (x / 2) i) x) (test_bit-set_self (x / 2) i)

pub test_bit-set_ne : (x i j : ℕ) → i ≢ j → test_bit (set_bit x i) j ≡ test_bit x j
unfolding test_bit set_bit
test_bit-set_ne x zero zero h = absurd (h refl)
test_bit-set_ne x zero (suc j) h = ap (λ k. test_bit k j) (omega arith)
test_bit-set_ne x (suc i) zero h = ap (λ (k : ℕ). k == 1) (omega arith)
test_bit-set_ne x (suc i) (suc j) h =
    rw (half_shifted (set_bit (x / 2) i) x) (test_bit-set_ne (x / 2) i j (λ e. h (ap suc e)))

pub test_bit-clear_self : (x i : ℕ) → test_bit (clear_bit x i) i ≡ false
unfolding test_bit clear_bit
test_bit-clear_self x zero = ground arith
test_bit-clear_self x (suc i) =
    rw (half_shifted (clear_bit (x / 2) i) x) (test_bit-clear_self (x / 2) i)

pub test_bit-clear_ne : (x i j : ℕ) → i ≢ j → test_bit (clear_bit x i) j ≡ test_bit x j
unfolding test_bit clear_bit
test_bit-clear_ne x zero zero h = absurd (h refl)
test_bit-clear_ne x zero (suc j) h = ap (λ k. test_bit k j) (omega arith)
test_bit-clear_ne x (suc i) zero h = ap (λ (k : ℕ). k == 1) (omega arith)
test_bit-clear_ne x (suc i) (suc j) h =
    rw (half_shifted (clear_bit (x / 2) i) x) (test_bit-clear_ne (x / 2) i j (λ e. h (ap suc e)))
