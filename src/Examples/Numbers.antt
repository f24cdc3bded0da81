-- ===== src/Examples/Numbers.antt =====
-- Decimals and prices on concrete texts.
use hyper_trader.Examples.Computed.{computed}
use Prim.Native.Nat.{Ordering, compare}
use hyper_trader.Common.{
  ℕ, ◌+◌, ◌≤◌, ◌&&◌, natural, ◌≡◌, refl, true, false, some, none, [], ◌∷◌, Number, pos, Result, ok,
  err, plain_error, codes, String,
}
use hyper_trader.Decimals.{
  is_decimal_string, compare_exact_decimals, PricePrecisionInputs,
  price_precision_for_size_decimals, perp, spot, parse_decimal_string, strip_leading,
}
use hyper_trader.Decimals.Compare.{above, below, compare_exact_decimals-value}
use hyper_trader.Prices.{
  aggressive_order_price, rounded_price_input_value, format_coefficient, buy, sell,
}
use hyper_trader.Prices.Format.{IsFormat, format_coefficient-IsFormat}
use hyper_trader.Prices.Bounds.{IsOrderPrice, aggressive_order_price-IsOrderPrice}
use hyper_trader.Prices.Rounding.{IsInputPrice, rounded_price_input_value-IsInputPrice}

abbrev five_figures : PricePrecisionInputs
five_figures = record { max_significant_figures = 5; max_decimal_places = 4 }

is_decimal : is_decimal_string (codes "-1.50") ≡ true
unfolding is_decimal_string hyper_trader.Common.is_digit
is_decimal = refl

also_decimal : is_decimal_string (codes "1.5") ≡ true
unfolding is_decimal_string hyper_trader.Common.is_digit
also_decimal = refl

not_decimal : (is_decimal_string (codes "01") && is_decimal_string (codes "1")) ≡ false
unfolding is_decimal_string hyper_trader.Common.is_digit
not_decimal = refl

compared : compare_exact_decimals (codes "-1.50") (codes "-1.5") ≡ ok Ordering.eq
unfolding computed
compared = refl

formatted : format_coefficient 1_500 4 ≡ codes "0.15"
unfolding format_coefficient hyper_trader.Decimals.strip_trailing hyper_trader.Prices.digits_of
formatted = refl

bought : aggressive_order_price (codes "101.25") buy (pos 50) five_figures ≡ ok (codes "101.75")
unfolding aggressive_order_price is_decimal_string hyper_trader.Common.is_digit
    hyper_trader.Prices.digits_of format_coefficient hyper_trader.Decimals.strip_trailing
bought = refl

-- The limit has more significant figures than the reference price, which has five.
six_figures :
    aggressive_order_price (codes "9.9999") buy (pos 500) five_figures ≡ ok (codes "10.4998")
unfolding aggressive_order_price is_decimal_string hyper_trader.Common.is_digit
    hyper_trader.Prices.digits_of format_coefficient hyper_trader.Decimals.strip_trailing
six_figures = refl

sold : aggressive_order_price (codes "101.25") sell (pos 50) five_figures ≡ ok (codes "100.75")
unfolding aggressive_order_price is_decimal_string hyper_trader.Common.is_digit
    hyper_trader.Prices.digits_of format_coefficient hyper_trader.Decimals.strip_trailing
sold = refl

too_much :
    aggressive_order_price (codes "101.25") sell (pos 501) five_figures
    ≡ err (plain_error "Slippage must be whole basis points from 0 through 500.")
unfolding aggressive_order_price
too_much = refl

rounded :
    rounded_price_input_value (some (codes "101.255")) (some five_figures) ≡ some (codes "101.26")
unfolding rounded_price_input_value is_decimal_string hyper_trader.Common.is_digit
    hyper_trader.Prices.digits_of format_coefficient hyper_trader.Decimals.strip_trailing
rounded = refl

compare_exact_decimals-value_example :
    compare_exact_decimals (codes "-1.50") (codes "1.5")
    ≡ ok (
        compare
          (above (codes "-1.50") (codes "1.5") + below (codes "1.5") (codes "-1.50"))
          (above (codes "1.5") (codes "-1.50") + below (codes "-1.50") (codes "1.5")))
compare_exact_decimals-value_example =
    compare_exact_decimals-value (codes "-1.50") (codes "1.5") is_decimal also_decimal

format_coefficient-IsFormat_example : IsFormat 1_500 4 (codes "0.15")
unfolding format_coefficient hyper_trader.Decimals.strip_trailing hyper_trader.Prices.digits_of
format_coefficient-IsFormat_example = format_coefficient-IsFormat 1_500 4

aggressive_order_price-IsOrderPrice_example :
    (natural (pos 50) ≤ 500) × IsOrderPrice (codes "101.25") buy 50 five_figures (codes "101.75")
aggressive_order_price-IsOrderPrice_example =
    aggressive_order_price-IsOrderPrice (codes "101.25") buy (pos 50) five_figures (codes "101.75")
      bought

rounded_price_input_value-IsInputPrice_example :
    IsInputPrice (codes "101.255") five_figures (codes "101.26")
rounded_price_input_value-IsInputPrice_example =
    rounded_price_input_value-IsInputPrice (codes "101.255") five_figures (codes "101.26") rounded
