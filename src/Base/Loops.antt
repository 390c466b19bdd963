-- ===== src/Base/Loops.antt =====
-- The loop `for (i = 0; i < n; i++)`.
use Prim.Native.Nat.{ℕ, zero, suc, ◌<◌}
use native.Mathlib.Omega.{arith}

abbrev pub for_range {ℓ} : {S : Type ℓ} → ℕ → (ℕ → S → S) → S → S
for_range zero f s = s
for_range (suc n) f s = f n (for_range n f s)

-- What every round keeps is kept by the loop.
pub for_range-ind {ℓ κ} :
    {S : Type ℓ} (P : ℕ → S → Type κ) (n : ℕ) (f : ℕ → S → S) (s : S)
    → P 0 s
    → ((i : ℕ) (s : S) → i < n → P i s → P (suc i) (f i s))
    → P n (for_range n f s)
for_range-ind P zero f s h k = h
for_range-ind P (suc n) f s h k =
    k n (for_range n f s) (omega arith)
      (for_range-ind P n f s h (λ i s l. k i s (omega (arith, l))))
