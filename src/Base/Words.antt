-- ===== src/Base/Words.antt =====
-- Unsigned machine words as native numbers: `+` and `-` wrap, which ℕ does not do by itself.
use Prim.Native.Nat.{ℕ, ◌+◌, ◌-◌, ◌%◌, ◌^◌, ◌≤◌, ◌<◌}
use mathlib.Core.Path.{◌≡◌}
use native.Mathlib.Omega.{arith}

abbrev pub u16_mod : ℕ
u16_mod = 2 ^ 16

abbrev pub u32_mod : ℕ
u32_mod = 2 ^ 32

abbrev pub u64_mod : ℕ
u64_mod = 2 ^ 64

-- uint64_t a + b and a - b
abbrev pub add64 : ℕ → ℕ → ℕ
add64 a b = (a + b) % u64_mod

abbrev pub sub64 : ℕ → ℕ → ℕ
sub64 a b = (a + u64_mod - b) % u64_mod

-- uint32_t a + b and a - b
abbrev pub add32 : ℕ → ℕ → ℕ
add32 a b = (a + b) % u32_mod

abbrev pub sub32 : ℕ → ℕ → ℕ
sub32 a b = (a + u32_mod - b) % u32_mod

pub sub64_of_le : (a b : ℕ) → a < u64_mod → b ≤ a → sub64 a b ≡ a - b
sub64_of_le a b h k = omega arith

pub add64_of_lt : (a b : ℕ) → a + b < u64_mod → add64 a b ≡ a + b
add64_of_lt a b h = omega arith
