-- ===== src/Prices.antt =====
-- apps/mobile/src/features/actions/aggressive-order-price.ts: the price of an order, rounded to what
-- the exchange takes. A `bigint` that is never negative is a natural, and a text the list of its
-- code points.
pub mod Format
pub mod Figures
pub mod Bounds
pub mod Rounding
use hyper_trader.Common.{
  ℕ, zero, suc, ◌+◌, ◌-◌, ◌*◌, ◌/◌, ◌%◌, max, min, Bool, not, ◌||◌, String, Option, none, some,
  List, [], ◌∷◌, ◌++◌, ltb, leb, ◌==◌, if◌then◌else◌, Number, is_safe_integer, is_negative, natural,
  Result, ok, err, plain_error, throw_if, ◌>>=◌, ◌>>◌, length, take, drop,
}
use hyper_trader.Decimals.{
  digit_zero, point, has_minus, before_point, after_point, is_decimal_string, is_empty,
  strip_trailing, zeros, PricePrecisionInputs,
}
use hyper_trader.Decimals.Digits.{ten_to, value}

-- `coefficient.toString()`; n has no more digits than n + 1.
digits_within : ℕ → ℕ → List ℕ
digits_within zero n = (digit_zero + n) ∷ []
digits_within (suc fuel) n =
    let rest = digits_within fuel (n / 10) ++ (digit_zero + n % 10) ∷ [] in
    if ltb n 10 then (digit_zero + n) ∷ [] else rest

unfoldable pub digits_of : ℕ → List ℕ
unfolding digits_within
digits_of n = digits_within n n

-- `padStart(n, "0")`
abbrev pub pad_start : List ℕ → ℕ → List ℕ
pad_start s n = zeros (n - length s) ++ s

abbrev pub join_fraction : List ℕ → List ℕ → List ℕ
join_fraction whole fraction = if is_empty fraction then whole else whole ++ point ∷ fraction

unfoldable pub format_coefficient : ℕ → ℕ → List ℕ
format_coefficient coefficient zero = digits_of coefficient
format_coefficient coefficient (suc scale) =
    let digits = pad_start (digits_of coefficient) (suc scale + 1) in
    let split = length digits - suc scale in
    join_fraction (take split digits) (strip_trailing (drop split digits))

-- `BigInt(whole + fraction)`, for a decimal that has no minus sign.
abbrev pub coefficient_of : List ℕ → ℕ
coefficient_of price = value (before_point price ++ after_point price)

-- The scale that the precision leaves to a price: `significant - whole` is raised to 0 by the
-- subtraction.
abbrev pub input_scale : PricePrecisionInputs → List ℕ → ℕ
input_scale precision price = min precision.max_decimal_places (
    precision.max_significant_figures
    + length (after_point price)
    - length (digits_of (coefficient_of price)))

abbrev pub round_half_up : ℕ → ℕ → ℕ
round_half_up numerator denominator =
    if leb denominator (numerator % denominator * 2)
    then numerator / denominator + 1
    else numerator / denominator

abbrev pub rounded_coefficient : PricePrecisionInputs → List ℕ → ℕ
rounded_coefficient precision price =
    round_half_up (coefficient_of price * ten_to (input_scale precision price))
      (ten_to (length (after_point price)))

abbrev pub rounded_price : PricePrecisionInputs → List ℕ → Option (List ℕ)
rounded_price precision price =
    if not (is_decimal_string price)
      || (has_minus price
          || ((coefficient_of price == 0) || (rounded_coefficient precision price == 0)))
    then none
    else some
        (format_coefficient (rounded_coefficient precision price) (input_scale precision price))

-- A price or a precision that is `null` or `undefined` is `none`.
unfoldable pub rounded_price_input_value :
    Option (List ℕ) → Option PricePrecisionInputs → Option (List ℕ)
rounded_price_input_value (some price) (some precision) = rounded_price precision price
rounded_price_input_value _ _ = none

pub data Side : Type 0 where
  buy sell : Side

abbrev pub factor : Side → ℕ → ℕ
factor buy slippage = 10_000 + slippage
factor sell slippage = 10_000 - slippage

abbrev pub order_scale : PricePrecisionInputs → List ℕ → ℕ
order_scale precision price = min precision.max_decimal_places (
    precision.max_significant_figures
    - max 1 (length (digits_of (coefficient_of price)) - length (after_point price)))

-- A purchase is rounded down, a sale up.
abbrev pub bound : Side → ℕ → ℕ → ℕ
bound buy numerator denominator = numerator / denominator
bound sell numerator denominator =
    if numerator % denominator == 0 then numerator / denominator else numerator / denominator + 1

abbrev pub order_coefficient : List ℕ → Side → ℕ → ℕ → ℕ
order_coefficient price side slippage scale =
    bound side (coefficient_of price * factor side slippage * ten_to scale)
      (ten_to (length (after_point price)) * 10_000)

unfoldable pub aggressive_order_price :
    List ℕ → Side → Number → PricePrecisionInputs → Result (List ℕ)
aggressive_order_price price side slippage_bps precision = do
  throw_if
      (not (is_safe_integer slippage_bps)
        || (is_negative slippage_bps || ltb 500 (natural slippage_bps)))
      (plain_error "Slippage must be whole basis points from 0 through 500.")
  throw_if (not (is_decimal_string price) || has_minus price)
      (plain_error "Reference price must be a positive decimal value.")
  throw_if (coefficient_of price == 0) (plain_error "Reference price must be greater than zero.")
  let scale = order_scale precision price
  let coefficient = order_coefficient price side (natural slippage_bps) scale
  throw_if (coefficient == 0) (plain_error "The slippage price bound is not positive.")
  ok (format_coefficient coefficient scale)
