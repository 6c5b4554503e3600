-- ===== src/Prelude/Int.antt =====
-- Go's `int`, of which the code reads only the sign.
use Prim.Native.Nat.{ℕ}
use mathlib.Core.Bool.{Bool, true, false}

-- `negsuc n` is -(n + 1).
pub data ℤ : Type 0 where
  pos : ℕ → ℤ
  negsuc : ℕ → ℤ

-- `x > 0`
abbrev pub is_positive : ℤ → Bool
is_positive (pos Prim.Native.Nat.zero) = false
is_positive (pos (Prim.Native.Nat.suc n)) = true
is_positive (negsuc n) = false
