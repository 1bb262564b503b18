-- ===== src/Common/Int.antt =====
-- Signed integers: Go's int32 sizes and timeouts. The program only compares them and, in the
-- client's refresher, subtracts 30 from one that is above 30.
use Prim.Native.Nat.{ℕ, zero, suc}
use mathlib.Core.Path.{◌≡◌}
use mathlib.Core.Bool.{Bool, true, false}
use mathlib.Core.Logic.{◌↔◌}
use native.Mathlib.Omega.{arith}
use go_ldlm.Common.Tests.{eqb}

-- `negsuc n` is -(n + 1).
pub data ℤ : Type 0 where
  pos : ℕ → ℤ
  negsuc : ℕ → ℤ

-- i < 0
abbrev pub is_neg : ℤ → Bool
is_neg (pos n) = false
is_neg (negsuc n) = true

-- i > 0
abbrev pub is_pos : ℤ → Bool
is_pos (pos n) = elim n [ zero ↦ false | suc m ↦ true ]
is_pos (negsuc n) = false

abbrev pub pos_part : ℤ → ℕ
pos_part (pos n) = n
pos_part (negsuc n) = 0

abbrev pub eqz : ℤ → ℤ → Bool
eqz (pos m) (pos n) = eqb m n
eqz (pos m) (negsuc n) = false
eqz (negsuc m) (pos n) = false
eqz (negsuc m) (negsuc n) = eqb m n

pub eqz_iff : (a b : ℤ) → (eqz a b ≡ true) ↔ (a ≡ b)
eqz_iff (pos m) (pos n) = ground arith
eqz_iff (pos m) (negsuc n) = ground arith
eqz_iff (negsuc m) (pos n) = ground arith
eqz_iff (negsuc m) (negsuc n) = ground arith
