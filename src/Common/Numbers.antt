-- ===== src/Common/Numbers.antt =====
-- JavaScript numbers, as far as the modelled code tells them apart.
use Prim.Native.Nat.{ℕ, ◌-◌, ◌^◌}
use mathlib.Core.Bool.{Bool, true, false}
use hyper_trader.Common.Tests.{leb, ◌==◌}

-- `pos n` is n and `negsuc n` is -(n + 1). `other` stands for NaN, the infinities and the
-- fractions, which `Number.isSafeInteger` refuses.
pub data Number : Type 0 where
  pos : ℕ → Number
  negsuc : ℕ → Number
  other : Number

-- `Number.MAX_SAFE_INTEGER`
abbrev pub max_safe_integer : ℕ
max_safe_integer = 2 ^ 53 - 1

abbrev pub is_safe_integer : Number → Bool
is_safe_integer (pos n) = leb n max_safe_integer
is_safe_integer (negsuc n) = leb n (max_safe_integer - 1)
is_safe_integer other = false

-- `value < 0`; of a value that is no safe integer nothing more is asked.
abbrev pub is_negative : Number → Bool
is_negative (negsuc n) = true
is_negative _ = false

-- The value of a number that is not negative.
abbrev pub natural : Number → ℕ
natural (pos n) = n
natural _ = 0

-- `===` between a number and an integer that is not negative.
abbrev pub number_eq : Number → ℕ → Bool
number_eq (pos n) m = n == m
number_eq _ m = false
