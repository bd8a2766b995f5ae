-- ===== src/Base/Ints.antt =====
-- C's signed integers, as far as the program computes with them: a test against zero and the
-- conversion to an unsigned 64-bit number.
use Prim.Native.Nat.{ℕ, zero, suc, ◌+◌, ◌-◌, ◌%◌, ◌^◌}
use mathlib.Core.Bool.{Bool, true, false}

-- `negsuc n` is -(n + 1).
pub data ℤ : Type 0 where
  pos : ℕ → ℤ
  negsuc : ℕ → ℤ

-- a C value used as a condition
abbrev pub nonzero : ℤ → Bool
nonzero (pos zero) = false
nonzero (pos (suc n)) = true
nonzero (negsuc n) = true

-- (STRLEN) i, the conversion of a comparison of a signed with an unsigned 64-bit number
abbrev pub as_unsigned : ℤ → ℕ
as_unsigned (pos n) = n % 2 ^ 64
as_unsigned (negsuc n) = 2 ^ 64 - (n % 2 ^ 64 + 1)
