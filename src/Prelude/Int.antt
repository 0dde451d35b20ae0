-- ===== src/Prelude/Int.antt =====
-- Signed integers over the native numbers, under the library's names: Python's `int`.
use Prim.Native.Nat.{ℕ, ◌-◌}
use mathlib.Core.Path.{◌≡◌}
use mathlib.Core.Logic.{◌↔◌}
use mathlib.Core.Bool.{Bool, true, false}
use native.Mathlib.Omega.{arith}
use demagnetize.Prelude.Tests.{◌==◌, if◌then◌else◌}

-- `negsuc n` is -(n + 1).
pub data ℤ : Type 0 where
  pos : ℕ → ℤ
  negsuc : ℕ → ℤ

abbrev pub eq_ℤ : ℤ → ℤ → Bool
eq_ℤ (pos a) (pos b) = a == b
eq_ℤ (negsuc a) (negsuc b) = a == b
eq_ℤ _ _ = false

pub eq_ℤ_iff : (a b : ℤ) → (eq_ℤ a b ≡ true) ↔ (a ≡ b)
eq_ℤ_iff (pos a) (pos b) = ground arith
eq_ℤ_iff (negsuc a) (negsuc b) = ground arith
eq_ℤ_iff (pos a) (negsuc b) = ground arith
eq_ℤ_iff (negsuc a) (pos b) = ground arith

-- -n
abbrev pub neg : ℕ → ℤ
neg n = if n == 0 then pos 0 else negsuc (n - 1)

abbrev pub pos_part : ℤ → ℕ
pos_part (pos n) = n
pos_part (negsuc n) = 0
