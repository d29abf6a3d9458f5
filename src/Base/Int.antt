-- ===== src/Base/Int.antt =====
-- The C `int` values that the compiler stores in its tree: an integer over the native numbers.
use apex_forge_night_script.Base.Tests.{◌==◌}
use Prim.Native.Nat.{ℕ, zero, suc, ◌+◌}
use mathlib.Core.Bool.{Bool, true, false}
use mathlib.Core.Path.{◌≡◌}
use mathlib.Core.Logic.{◌↔◌}
use native.Mathlib.Omega.{arith}

-- `negsuc n` is -(n + 1).
pub data ℤ : Type 0 where
  pos : ℕ → ℤ
  negsuc : ℕ → ℤ

abbrev pub minus_one : ℤ
minus_one = negsuc 0

abbrev pub int_eq : ℤ → ℤ → Bool
int_eq (pos a) (pos b) = a == b
int_eq (negsuc a) (negsuc b) = a == b
int_eq (pos a) (negsuc b) = false
int_eq (negsuc a) (pos b) = false

pub int_eq_iff : (a b : ℤ) → (int_eq a b ≡ true) ↔ (a ≡ b)
int_eq_iff a b = ground arith

abbrev pub int_suc : ℤ → ℤ
int_suc (pos n) = pos (suc n)
int_suc (negsuc zero) = pos 0
int_suc (negsuc (suc n)) = negsuc n

abbrev pub int_pred : ℤ → ℤ
int_pred (pos zero) = minus_one
int_pred (pos (suc n)) = pos n
int_pred (negsuc n) = negsuc (n + 1)
