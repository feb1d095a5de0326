-- ===== src/Base/Int.antt =====
-- The signed results of C functions, over the native numbers.
use Prim.Native.Nat.{ℕ, zero, suc, ◌-◌, ◌%◌, ◌^◌}
use mathlib.Core.Bool.{Bool, true, false}

-- `negsuc n` is -(n + 1).
pub data ℤ : Type 0 where
  pos : ℕ → ℤ
  negsuc : ℕ → ℤ

-- `x < 0`
abbrev pub is_negative : ℤ → Bool
is_negative (pos n) = false
is_negative (negsuc n) = true

-- `x != 0`
abbrev pub is_nonzero : ℤ → Bool
is_nonzero (pos zero) = false
is_nonzero (pos (suc n)) = true
is_nonzero (negsuc n) = true

-- `(void *) x`, two's complement in 64 bits
abbrev pub to_ptr : ℤ → ℕ
to_ptr (pos n) = n % 2 ^ 64
to_ptr (negsuc n) = 2 ^ 64 - 1 - n % 2 ^ 64

-- `x <= 0`
abbrev pub leb_zero : ℤ → Bool
leb_zero (pos zero) = true
leb_zero (pos (suc n)) = false
leb_zero (negsuc n) = true
