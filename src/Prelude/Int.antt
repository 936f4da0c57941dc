-- ===== src/Prelude/Int.antt =====
-- The C++ `int` as an integer over the native numbers. The values that the program computes with
-- stay small; they are kept as they are, with no wrap.
use Prim.Native.Nat.{ℕ, zero, suc}
use mathlib.Core.Bool.{Bool, true, false}
use cpp_oj_vbcoding_teach.Prelude.Text.{Bytes, decimal}
use cpp_oj_vbcoding_teach.Prelude.Tests.{◌==◌}
use mathlib.Core.List.{◌∷◌}

-- `negsuc n` is -(n + 1).
pub data ℤ : Type 0 where
  pos : ℕ → ℤ
  negsuc : ℕ → ℤ

-- a == 0, a < 0 and a > 0.
abbrev pub is_zero : ℤ → Bool
is_zero (pos n) = n == 0
is_zero (negsuc n) = false

abbrev pub is_negative : ℤ → Bool
is_negative (pos n) = false
is_negative (negsuc n) = true

abbrev pub is_positive : ℤ → Bool
is_positive (pos zero) = false
is_positive (pos (suc n)) = true
is_positive (negsuc n) = false

-- `std::to_string` of an int.
unfoldable pub to_string : ℤ → Bytes
unfolding decimal
to_string (pos n) = decimal n
to_string (negsuc n) = b'-' ∷ decimal (suc n)
