-- ===== src/Base/Int.antt =====
-- Signed integers over the native numbers, for `i64` values.
use Prim.Native.Nat.{ℕ}
use mathlib.Core.Bool.{Bool, false}
use chu_sql.Base.Tests.{◌==◌}

-- `negsuc n` is -(n + 1).
pub data ℤ : Type 0 where
  pos : ℕ → ℤ
  negsuc : ℕ → ℤ

abbrev pub int_eq : ℤ → ℤ → Bool
int_eq (pos a) (pos b) = a == b
int_eq (negsuc a) (negsuc b) = a == b
int_eq _ _ = false
