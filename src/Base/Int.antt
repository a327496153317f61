-- ===== src/Base/Int.antt =====
-- Go's `int`, as a signed number over the native ones.
use Prim.Native.Nat.{ℕ}
use mathlib.Core.Bool.{Bool}
use notifier.Base.Tests.{ltb}

-- `negsuc n` is -(n + 1).
pub data ℤ : Type 0 where
  pos : ℕ → ℤ
  negsuc : ℕ → ℤ

-- `i < n`, for a number n.
abbrev pub is_below : ℕ → ℤ → Bool
is_below n (pos m) = ltb m n
is_below n (negsuc m) = Bool.true
