-- ===== src/Decimals.antt =====
-- packages/hyperliquid/src/numbers/decimal.ts and precision.ts, and the exact comparison of decimals in
-- apps/api/src/rules/evaluator.ts. A text is the list of its code points.
pub mod Digits
pub mod Strip
pub mod Parts
pub mod Compare
use Prim.Native.Nat.{compare, Ordering}
use hyper_trader.Common.{
  ℕ, ◌-◌, max, Bool, true, false, not, ◌&&◌, ◌||◌, String, Option, none, some, List, [], ◌∷◌, ◌++◌,
  ltb, ◌==◌, if◌then◌else◌, Number, is_safe_integer, is_negative, natural, Result, ok, err,
  validation, plain_error, throw_if, ◌>>=◌, ◌>>◌, codes, is_digit, all, length, codes_eq, lex_lt,
  zero, suc,
}

abbrev pub digit_zero : ℕ
digit_zero = b'0'

abbrev pub point : ℕ
point = b'.'

abbrev pub minus : ℕ
minus = b'-'

-- `value.startsWith("-")`, and `value.slice(1)` if it does.
abbrev pub has_minus : List ℕ → Bool
has_minus [] = false
has_minus (c ∷ s) = c == minus

abbrev pub without_minus : List ℕ → List ℕ
without_minus [] = []
without_minus (c ∷ s) = if c == minus then s else c ∷ s

-- The first two parts of `unsigned.split(".")`; a part that is not there is empty.
abbrev pub before_point : List ℕ → List ℕ
before_point [] = []
before_point (c ∷ s) = let rest = before_point s in if c == point then [] else c ∷ rest

abbrev pub from_point : List ℕ → List ℕ
from_point [] = []
from_point (c ∷ s) = let rest = from_point s in if c == point then s else rest

abbrev pub after_point : List ℕ → List ℕ
after_point s = before_point (from_point s)

abbrev pub has_point : List ℕ → Bool
has_point [] = false
has_point (c ∷ s) = (c == point) || has_point s

-- `0|[1-9]\d*`
abbrev pub is_whole : List ℕ → Bool
is_whole [] = false
is_whole (c ∷ []) = is_digit c
is_whole (c ∷ d ∷ s) = (is_digit c && not (c == digit_zero)) && all is_digit (d ∷ s)

abbrev pub is_empty : List ℕ → Bool
is_empty [] = true
is_empty (_ ∷ _) = false

-- `-?(?:0|[1-9]\d*)(?:\.\d+)?`, between the ends of the text.
unfoldable pub is_decimal_string : List ℕ → Bool
is_decimal_string s =
    let u = without_minus s in
    is_whole (before_point u)
    && (not (has_point u) || (not (is_empty (from_point u)) && all is_digit (from_point u)))

unfoldable pub parse_decimal_string : List ℕ → String → Result (List ℕ)
parse_decimal_string value path = do
  throw_if (not (is_decimal_string value)) (validation path "expected a decimal string")
  ok value

unfoldable pub parse_nullable_decimal_string : Option (List ℕ) → String → Result (Option (List ℕ))
unfolding parse_decimal_string
parse_nullable_decimal_string none path = ok none
parse_nullable_decimal_string (some value) path =
    parse_decimal_string value path >>= λ v. ok (some v)

-- `replace(/^0+(?=[0-9])/, "")`
unfoldable pub strip_leading : List ℕ → List ℕ
strip_leading [] = []
strip_leading (c ∷ []) = c ∷ []
strip_leading (c ∷ d ∷ s) =
    let rest = strip_leading (d ∷ s) in if (c == digit_zero) && is_digit d then rest else c ∷ d ∷ s

-- `replace(/0+$/, "")`
unfoldable pub strip_trailing : List ℕ → List ℕ
strip_trailing [] = []
strip_trailing (c ∷ s) =
    let rest = strip_trailing s in if (c == digit_zero) && is_empty rest then [] else c ∷ rest

-- `"0".repeat(n)`, and `s.padEnd(n, "0")`.
abbrev pub zeros : ℕ → List ℕ
zeros zero = []
zeros (suc n) = digit_zero ∷ zeros n

abbrev pub pad_end : List ℕ → ℕ → List ℕ
pad_end s n = s ++ zeros (n - length s)

pub data Sign : Type 0 where
  negative neutral positive : Sign

pub record ExactDecimal : Type 0 where
  pub sign : Sign
  pub integer : List ℕ
  pub fraction : List ℕ

abbrev pub sign_of : Bool → Bool → Sign
sign_of true _ = neutral
sign_of false true = negative
sign_of false false = positive

abbrev pub exact_decimal : Bool → List ℕ → List ℕ → ExactDecimal
exact_decimal below integer fraction = record {
  sign = sign_of (codes_eq integer (digit_zero ∷ []) && is_empty fraction) below;
  integer = integer;
  fraction = fraction;
}

unfoldable pub parse_exact_decimal : List ℕ → Result ExactDecimal
parse_exact_decimal value = do
  throw_if (not (is_decimal_string value)) (plain_error "notification decimal is invalid")
  let unsigned = without_minus value
  ok (
      exact_decimal (has_minus value) (strip_leading (before_point unsigned))
        (strip_trailing (after_point unsigned)))

-- `<` between texts of equal length is by the first difference.
unfoldable pub compare_unsigned_digits : List ℕ → List ℕ → Ordering
compare_unsigned_digits left right =
    let first = strip_leading left in
    let second = strip_leading right in
    if not (length first == length second)
    then (if ltb (length first) (length second) then Ordering.lt else Ordering.gt)
    else if codes_eq first second
    then Ordering.eq
    else if lex_lt first second
    then Ordering.lt
    else Ordering.gt

abbrev pub invert : Ordering → Ordering
invert Ordering.lt = Ordering.gt
invert Ordering.eq = Ordering.eq
invert Ordering.gt = Ordering.lt

unfoldable pub compare_magnitudes : ExactDecimal → ExactDecimal → Ordering
compare_magnitudes first second =
    let scale = max (length first.fraction) (length second.fraction) in
    compare_unsigned_digits (first.integer ++ pad_end first.fraction scale)
      (second.integer ++ pad_end second.fraction scale)

-- The signs first; two signs that are the same and not 0 leave it to the magnitudes.
abbrev pub order_by_sign : Sign → Sign → Ordering → Ordering
order_by_sign neutral neutral magnitude = Ordering.eq
order_by_sign negative negative magnitude = invert magnitude
order_by_sign positive positive magnitude = magnitude
order_by_sign negative _ magnitude = Ordering.lt
order_by_sign neutral positive magnitude = Ordering.lt
order_by_sign _ _ magnitude = Ordering.gt

unfoldable pub compare_exact_decimals : List ℕ → List ℕ → Result Ordering
compare_exact_decimals left right = do
  first ← parse_exact_decimal left
  second ← parse_exact_decimal right
  ok (order_by_sign first.sign second.sign (compare_magnitudes first second))

pub record PricePrecisionInputs : Type 0 where
  pub max_significant_figures : ℕ
  pub max_decimal_places : ℕ

pub data Family : Type 0 where
  perp spot : Family

abbrev pub maximum_decimals : Family → ℕ
maximum_decimals perp = 6
maximum_decimals spot = 8

-- `Number.isInteger` holds of every integer, and of those only safe ones pass the bound.
unfoldable pub price_precision_for_size_decimals : Family → Number → Option PricePrecisionInputs
price_precision_for_size_decimals family size_decimals =
    if not (is_safe_integer size_decimals)
      || (is_negative size_decimals || ltb (maximum_decimals family) (natural size_decimals))
    then none
    else some (record {
      max_significant_figures = 5;
      max_decimal_places = maximum_decimals family - natural size_decimals;
    })
