-- ===== src/Decimals/Parts.antt =====
-- What the parts of a decimal text are, and how products of powers of ten are put together.
use mathlib.Core.Path.{ap₂}
use native.Mathlib.Nat.{mul_assoc}
use Prim.Native.Nat.{compare}
use hyper_trader.Common.{
  ℕ, ◌+◌, ◌-◌, ◌*◌, ◌<◌, ◌≡◌, refl, sym, ap, ◌∙◌, Bool, true, false, not, ◌&&◌, ◌||◌, List, [], ◌∷◌,
  ◌++◌, arith, length, all, is_digit, max,
}
use hyper_trader.Decimals.{
  zeros, is_empty, is_decimal_string, without_minus, before_point, from_point, after_point,
  has_point, is_whole,
}
use hyper_trader.Decimals.Digits.{
  ten_to, value, ten_to_pos, ten_to-add, value-append, value-zeros, length-zeros,
}
use hyper_trader.Decimals.Strip.{compare-mul}

regroup : (m a b c d : ℕ) → a * b ≡ c * d → (m * a) * b ≡ (m * c) * d
regroup m a b c d e = mul_assoc m a b ∙ ap (λ t. m * t) e ∙ sym (mul_assoc m c d)

ten_to_regroup : (a b c d : ℕ) → a + b ≡ c + d → ten_to a * ten_to b ≡ ten_to c * ten_to d
ten_to_regroup a b c d e = sym (ten_to-add a b) ∙ ap ten_to e ∙ ten_to-add c d

-- Two coefficients brought to the larger of their scales, or to the sum of longer ones.
pub compare_scaled :
    (m n f g k l : ℕ)
    → compare (m * ten_to (max f g - f)) (n * ten_to (max f g - g))
      ≡ compare ((m * ten_to k) * ten_to (g + l)) ((n * ten_to l) * ten_to (f + k))
compare_scaled m n f g k l =
    let w : ℕ = f + k + g + l - max f g in
    sym
      (compare-mul (m * ten_to (max f g - f)) (n * ten_to (max f g - g)) (ten_to w) (ten_to_pos w))
    ∙ ap₂ compare
        (regroup m _ (ten_to w) _ _ (ten_to_regroup (max f g - f) w k (g + l) (omega arith)))
        (regroup n _ (ten_to w) _ _ (ten_to_regroup (max f g - g) w l (f + k) (omega arith)))

pub value-append-zeros : (s : List ℕ) (n : ℕ) → value (s ++ zeros n) ≡ value s * ten_to n
value-append-zeros s n = value-append s (zeros n) ∙ rw (value-zeros n, length-zeros n) (omega arith)

-- The text of a valid decimal, taken apart: the digits before the point, of which there is one at
-- least, and those after it.
pub record IsParts (integer fraction : List ℕ) : Type 0 where
  pub some_digit : 0 < length integer
  pub integer_digits : all is_digit integer ≡ true
  pub fraction_digits : all is_digit fraction ≡ true

pub before_point_digits : (s : List ℕ) → all is_digit s ≡ true → before_point s ≡ s
unfolding is_digit
before_point_digits [] h = refl
before_point_digits (c ∷ s) h = ground (arith, before_point_digits s)

pub from_point_none : (s : List ℕ) → has_point s ≡ false → from_point s ≡ []
from_point_none [] h = refl
from_point_none (c ∷ s) h = ground (arith, from_point_none s)

is_whole_digits : (s : List ℕ) → is_whole s ≡ true → (0 < length s) × (all is_digit s ≡ true)
is_whole_digits [] h = cc
is_whole_digits (c ∷ []) h = ground arith
is_whole_digits (c ∷ d ∷ s) h = ground arith

pub decimal-IsParts :
    (s : List ℕ)
    → is_decimal_string s ≡ true
    → IsParts (before_point (without_minus s)) (after_point (without_minus s))
unfolding is_decimal_string
decimal-IsParts s h = go (without_minus s) h
  where
    digits :
        (u : List ℕ) (b : Bool)
        → has_point u ≡ b
        → (not b || (not (is_empty (from_point u)) && all is_digit (from_point u))) ≡ true
        → all is_digit (after_point u) ≡ true
    digits u true e k =
        let all_digits : all is_digit (from_point u) ≡ true = ground arith in
        ap (all is_digit) (before_point_digits (from_point u) all_digits) ∙ all_digits
    digits u false e k = ap (λ t. all is_digit (before_point t)) (from_point_none u e)

    go :
        (u : List ℕ)
        → (is_whole (before_point u)
            && (not (has_point u)
                || (not (is_empty (from_point u)) && all is_digit (from_point u))))
          ≡ true
        → IsParts (before_point u) (after_point u)
    go u k =
        let (some_digit, integer) = is_whole_digits (before_point u) (ground arith) in
        record {
          some_digit = some_digit;
          integer_digits = integer;
          fraction_digits = digits u (has_point u) refl (ground arith);
        }
