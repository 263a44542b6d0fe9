-- ===== src/Prelude/Int.antt =====
-- Signed integers over the native numbers, as far as worker identifiers need them.
use Prim.Native.Nat.{ℕ}
use mathlib.Core.Bool.{Bool, true, false}
use tanu.Prelude.Tests.{◌==◌}

-- `negsuc n` is -(n + 1).
pub data ℤ : Type 0 where
  pos : ℕ → ℤ
  negsuc : ℕ → ℤ

abbrev pub is_negative : ℤ → Bool
is_negative (pos n) = false
is_negative (negsuc n) = true

abbrev pub is_pos : ℕ → ℤ → Bool
is_pos k (pos n) = k == n
is_pos k (negsuc n) = false
