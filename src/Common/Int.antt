-- ===== src/Common/Int.antt =====
-- Go's `int`, as a signed integer: no operation of the program drives one near its limits unless
-- the model writes the wrap-around out.
use Prim.Native.Nat.{ℕ, zero, suc, ◌+◌, ◌-◌}
use mathlib.Core.Bool.{Bool, true, false}
use bhyve_mcp.Common.Tests.{◌==◌, ltb, leb, if◌then◌else◌}

-- `negsuc n` is -(n + 1).
pub data ℤ : Type 0 where
  pos : ℕ → ℤ
  negsuc : ℕ → ℤ

abbrev pub is_zero : ℤ → Bool
is_zero (pos n) = n == 0
is_zero (negsuc n) = false

-- `i - 1`
abbrev pub pred : ℤ → ℤ
pred (pos zero) = negsuc 0
pred (pos (suc n)) = pos n
pred (negsuc n) = negsuc (suc n)

-- `i + k`, for a count `k`.
unfoldable pub add_ℕ : ℤ → ℕ → ℤ
add_ℕ (pos n) k = pos (n + k)
add_ℕ (negsuc n) k = if leb (suc n) k then pos (k - suc n) else negsuc (n - k)

-- `i > j`
abbrev pub gtb : ℤ → ℤ → Bool
gtb (pos m) (pos n) = ltb n m
gtb (pos m) (negsuc n) = true
gtb (negsuc m) (pos n) = false
gtb (negsuc m) (negsuc n) = ltb m n
