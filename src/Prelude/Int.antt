-- ===== src/Prelude/Int.antt =====
-- C's signed integers as mathematical integers: what the program computes with them.
use Prim.Native.Nat.{ℕ, suc, ◌+◌, ◌-◌}
use mathlib.Core.Bool.{Bool, true, false}
use orcashi.Prelude.Tests.{ltb, leb, if◌then◌else◌}

-- `negsuc n` is -(n + 1).
pub data ℤ : Type 0 where
  pos : ℕ → ℤ
  negsuc : ℕ → ℤ

-- a - b, as an integer.
abbrev pub sub_ℕ : ℕ → ℕ → ℤ
sub_ℕ a b = if leb b a then pos (a - b) else negsuc (b - a - 1)

-- The integer plus a natural number.
abbrev pub add_nat : ℤ → ℕ → ℤ
add_nat (pos n) k = pos (n + k)
add_nat (negsuc n) k = sub_ℕ k (suc n)

-- The integer less a natural number.
abbrev pub sub_nat : ℤ → ℕ → ℤ
sub_nat (pos n) k = sub_ℕ n k
sub_nat (negsuc n) k = negsuc (n + k)

abbrev pub is_negative : ℤ → Bool
is_negative (pos n) = false
is_negative (negsuc n) = true

abbrev pub is_positive : ℤ → Bool
is_positive (pos n) = ltb 0 n
is_positive (negsuc n) = false

-- `if (x < 0) x = 0;`
abbrev pub at_least_zero : ℤ → ℤ
at_least_zero x = if is_negative x then pos 0 else x
