-- ===== src/Prelude/Int.antt =====
-- Go's `int`, as an integer: the program only compares these, and none comes near 2^63.
use Prim.Native.Nat.{ℕ, ◌≤◌}
use mathlib.Core.Path.{◌≡◌}
use mathlib.Core.Bool.{Bool, true, false, ◌||◌}
use native.Mathlib.Omega.{arith}
use fortivpn_go.Prelude.Tests.{ltb, ◌==◌}

-- `negsuc n` is -(n + 1).
pub data ℤ : Type 0 where
  pos : ℕ → ℤ
  negsuc : ℕ → ℤ

-- `n < k` for a constant `k`
abbrev pub is_below : ℤ → ℕ → Bool
is_below (pos n) k = ltb n k
is_below (negsuc n) k = true

-- `n > k`
abbrev pub is_above : ℤ → ℕ → Bool
is_above (pos n) k = ltb k n
is_above (negsuc n) k = false

abbrev pub is_zero : ℤ → Bool
is_zero (pos n) = n == 0
is_zero (negsuc n) = false

-- The integers from `lo` to `hi`.
abbrev pub InRange : ℕ → ℕ → ℤ → Type 0
InRange lo hi (pos n) = (lo ≤ n) × (n ≤ hi)
InRange lo hi (negsuc n) = ⊥

pub range_test : (lo hi : ℕ) (n : ℤ) → (is_below n lo || is_above n hi) ≡ false → InRange lo hi n
range_test lo hi (pos n) h = ground arith
range_test lo hi (negsuc n) h = cc
