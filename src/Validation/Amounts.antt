-- ===== src/Validation/Amounts.antt =====
-- validation.ts: decimals as a coefficient and a scale. The coefficient is a sign and a natural; no
-- decimal is a negative zero.
use Prim.Native.Nat.{compare, Ordering}
use hyper_trader.Common.{
  ℕ, zero, suc, ◌+◌, ◌-◌, ◌*◌, ◌/◌, ◌%◌, max, Bool, true, false, not, ◌&&◌, ◌||◌, String, List, [],
  ◌∷◌, ◌++◌, ltb, ◌==◌, if◌then◌else◌, bool_eq, Result, ok, err, validation, throw_if, ◌>>=◌, ◌>>◌,
  length, take, drop,
}
use hyper_trader.Decimals.{
  digit_zero, point, minus, has_minus, without_minus, before_point, after_point, is_decimal_string,
  strip_leading, strip_trailing,
}
use hyper_trader.Decimals.Digits.{ten_to, value}
use hyper_trader.Prices.{digits_of, pad_start}
pub mod Values
pub mod Products

pub record ParsedDecimal : Type 0 where
  pub is_below : Bool
  pub coefficient : ℕ
  pub scale : ℕ

abbrev pub signed : Bool → ℕ → ℕ → ParsedDecimal
signed is_below coefficient scale = record {
  is_below = is_below && not (coefficient == 0);
  coefficient = coefficient;
  scale = scale;
}

unfoldable pub parse_decimal : List ℕ → String → Result ParsedDecimal
parse_decimal text path = do
  throw_if (ltb 256 (length text) || not (is_decimal_string text))
      (validation path "expected a canonical decimal string")
  let unsigned = without_minus text
  let fraction = strip_trailing (after_point unsigned)
  ok (
      signed (has_minus text) (value (strip_leading (before_point unsigned ++ fraction)))
        (length fraction))

-- The digits, with a point before the last ones.
abbrev pub format_digits : ℕ → ℕ → List ℕ
format_digits coefficient zero = digits_of coefficient
format_digits coefficient (suc scale) =
    let padded = pad_start (digits_of coefficient) (suc scale + 1) in
    let split = length padded - suc scale in take split padded ++ point ∷ drop split padded

unfoldable pub format_decimal : ParsedDecimal → List ℕ
format_decimal d =
    if d.coefficient == 0
    then digit_zero ∷ []
    else if d.is_below
    then minus ∷ format_digits d.coefficient d.scale
    else format_digits d.coefficient d.scale

unfoldable pub normalize_decimal : List ℕ → String → Result (List ℕ)
normalize_decimal text path = do parsed ← parse_decimal text path; ok (format_decimal parsed)

-- `a < b ? -1 : a > b ? 1 : 0`
abbrev pub compare_signed : Bool → ℕ → Bool → ℕ → Ordering
compare_signed false a false b = compare a b
compare_signed true a true b = compare b a
compare_signed true a false b = Ordering.lt
compare_signed false a true b = Ordering.gt

unfoldable pub compare_decimal : ParsedDecimal → ParsedDecimal → Ordering
compare_decimal left right =
    let scale = max left.scale right.scale in
    compare_signed left.is_below (left.coefficient * ten_to (scale - left.scale)) right.is_below
      (right.coefficient * ten_to (scale - right.scale))

-- The loop that takes zeros off the end.
unfoldable pub trim : ℕ → ℕ → ℕ × ℕ
trim coefficient zero = (coefficient, 0)
trim coefficient (suc scale) =
    let rest = trim (coefficient / 10) scale in
    if coefficient % 10 == 0 then rest else (coefficient, suc scale)

unfoldable pub multiply_decimal : ParsedDecimal → ParsedDecimal → ParsedDecimal
multiply_decimal left right =
    let (coefficient, scale) =
      trim (left.coefficient * right.coefficient) (left.scale + right.scale) in
    signed (not (bool_eq left.is_below right.is_below)) coefficient scale

unfoldable pub positive_decimal : List ℕ → String → Result (List ℕ)
positive_decimal text path = do
  parsed ← parse_decimal text path
  throw_if (parsed.is_below || (parsed.coefficient == 0))
      (validation path "expected a positive decimal value")
  ok (format_decimal parsed)

abbrev pub whole : ℕ → ParsedDecimal
whole n = record { is_below = false; coefficient = n; scale = 0 }

abbrev pub is_lt : Ordering → Bool
is_lt Ordering.lt = true
is_lt _ = false

abbrev pub is_gt : Ordering → Bool
is_gt Ordering.gt = true
is_gt _ = false

abbrev pub is_eq : Ordering → Bool
is_eq Ordering.eq = true
is_eq _ = false
