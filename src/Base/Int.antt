-- ===== src/Base/Int.antt =====
-- The int that a C function returns.
use Prim.Native.Nat.{ℕ}
use mathlib.Core.Bool.{Bool, true, false}

-- `negsuc n` is -(n + 1).
pub data ℤ : Type 0 where
  pos : ℕ → ℤ
  negsuc : ℕ → ℤ

-- `if (result)`
abbrev pub is_zero : ℤ → Bool
is_zero (pos ℕ.zero) = true
is_zero _ = false

-- `result < 0`
abbrev pub is_neg : ℤ → Bool
is_neg (negsuc n) = true
is_neg _ = false

-- The negative error numbers that the drivers return (asm-generic/errno-base.h).
abbrev pub eio : ℤ
eio = negsuc 4

abbrev pub enomem : ℤ
enomem = negsuc 11

abbrev pub efault : ℤ
efault = negsuc 13

abbrev pub enodev : ℤ
enodev = negsuc 18

abbrev pub einval : ℤ
einval = negsuc 21

abbrev pub efbig : ℤ
efbig = negsuc 26
