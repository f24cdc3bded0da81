-- ===== src/Validation/Orders.antt =====
-- validation.ts: `validateOrder`, for orders that open, reduce or close a position, and what it checks
-- of slippage, reduction and margin.
use Prim.Native.Nat.{Ordering}
use hyper_trader.Common.{
  ℕ, ◌+◌, ◌-◌, Bool, true, false, not, ◌&&◌, ◌||◌, String, Option, none, some, List, [], ◌∷◌, ltb,
  ◌==◌, if◌then◌else◌, Number, pos, natural, is_safe_integer, is_negative, is_none, Result, ok, err,
  validation, throw_if, or_throw, ◌>>=◌, ◌>>◌,
}
use hyper_trader.Decimals.{digit_zero}
use hyper_trader.Validation.{
  OrderSide, buy, sell, other_side, other_time_in_force, AccountMarginMode, isolated,
  TriggerDirection, other_direction, MarketFamily, ActionMarketRules, ActionAccountRules,
  ActionControls, TriggerControl, OrderKind, market_order, reduce_only_close, limit_order,
  OrderIntent, order, ValidatedTradingAction,
}
use hyper_trader.Validation.Amounts.{
  ParsedDecimal, parse_decimal, format_decimal, normalize_decimal, compare_decimal,
  multiply_decimal, positive_decimal, whole, is_lt, is_gt, is_eq,
}
use hyper_trader.Validation.Checks.{
  safe_integer, assert_exact_fields, parse_cloid, is_boolean, is_perp, is_spot, is_set,
  assert_tradable_market, normalize_size, normalize_price,
}

abbrev pub is_known_side : OrderSide → Bool
is_known_side other_side = false
is_known_side _ = true

-- `slippageBps`, in whole basis points up to `MAX_SLIPPAGE_BPS`.
abbrev pub check_slippage : Option Number → Result ℕ
check_slippage none = err (validation "controls.slippageBps" "expected whole basis points")
check_slippage (some bps) = do
  throw_if (not (is_safe_integer bps) || (is_negative bps || ltb 500 (natural bps)))
      (validation "controls.slippageBps" "expected whole basis points")
  ok (natural bps)

abbrev pub multiplier : OrderSide → ℕ → ℕ
multiplier buy bps = 10_000 + bps
multiplier _ bps = 10_000 - bps

-- Whether a price that compares to its bound in this way is on the wrong side of it.
abbrev pub is_beyond : OrderSide → Ordering → Bool
is_beyond buy o = is_gt o
is_beyond sell o = is_lt o
is_beyond other_side o = false

abbrev pub assert_within :
    String → OrderSide → ℕ → ParsedDecimal → ParsedDecimal → Result (Unit {0})
assert_within path side bps aggressive reference =
    throw_if
      (is_beyond side (
        compare_decimal (multiply_decimal aggressive (whole 10_000))
          (multiply_decimal reference (whole (multiplier side bps)))))
      (validation path "the price exceeds the reviewed slippage bound")

unfoldable pub assert_slippage :
    Option Number → Option (List ℕ) → OrderSide → List ℕ → Result (Unit {0})
assert_slippage slippage reference_price side aggressive_price = do
  bps ← check_slippage slippage
  current ←
      or_throw reference_price
        (validation "market.referencePrice" "a current reference price is required")
  aggressive ← parse_decimal aggressive_price "intent.price"
  positive ← positive_decimal current "market.referencePrice"
  reference ← parse_decimal positive "market.referencePrice"
  assert_within "intent.price" side bps aggressive reference

abbrev pub text_or_zero : Option (List ℕ) → List ℕ
text_or_zero none = digit_zero ∷ []
text_or_zero (some text) = text

-- A position above zero is reduced by a sale.
abbrev pub is_reducing : Bool → OrderSide → Bool
is_reducing is_short buy = is_short
is_reducing is_short sell = not is_short
is_reducing is_short other_side = false

abbrev pub absolute : ParsedDecimal → ParsedDecimal
absolute d = record d { is_below = false }

unfoldable pub assert_reduce_only :
    MarketFamily → Option (List ℕ) → OrderSide → List ℕ → Bool → Result (Unit {0})
assert_reduce_only family position_size side size require_full_close = do
  throw_if (not (is_perp family))
      (validation "intent.reduceOnly" "reduce-only actions require a perpetual market")
  position ← parse_decimal (text_or_zero position_size) "account.positionSize"
  throw_if (position.coefficient == 0)
      (validation "account.positionSize" "there is no position to reduce")
  throw_if (not (is_reducing position.is_below side))
      (validation "intent.side" "reduce-only side would increase or reverse the position")
  requested ← parse_decimal size "intent.size"
  throw_if
      (is_gt (compare_decimal requested (absolute position))
        || (require_full_close && not (is_eq (compare_decimal requested (absolute position)))))
      (validation "intent.size" "reduce-only size does not fit the current position")

abbrev pub assert_minimum : Option (List ℕ) → ParsedDecimal → Result (Unit {0})
assert_minimum none notional = ok tt
assert_minimum (some minimum_notional) notional = do
  positive ← positive_decimal minimum_notional "market.minimumNotional"
  minimum ← parse_decimal positive "market.minimumNotional"
  throw_if (is_lt (compare_decimal notional minimum))
      (validation "intent.notional" "Order must have minimum value of $10.")

-- A spot market has leverage 1, and so has its maximum.
abbrev pub leverage_of : Bool → Option Number → Option Number
leverage_of is_spot leverage = if is_spot then some (pos 1) else leverage

abbrev pub check_leverage : Option Number → Result ℕ
check_leverage none = err (validation "account.leverage" "current leverage is unavailable")
check_leverage (some leverage) = do
  throw_if (not (is_safe_integer leverage) || (is_negative leverage || ltb (natural leverage) 1))
      (validation "account.leverage" "current leverage is unavailable")
  ok (natural leverage)

-- `leverage > maximum`, with a maximum that is missing or no safe integer.
abbrev pub is_above_maximum : ℕ → Option Number → Bool
is_above_maximum leverage none = true
is_above_maximum leverage (some maximum) =
    not (is_safe_integer maximum) || (is_negative maximum || ltb (natural maximum) leverage)

abbrev pub is_isolated : Option AccountMarginMode → Bool
is_isolated (some isolated) = true
is_isolated _ = false

unfoldable pub assert_margin :
    ActionMarketRules → ActionAccountRules → ParsedDecimal → Bool → Result (Unit {0})
assert_margin market account notional true = ok tt
assert_margin market account notional false = do
  assert_minimum market.minimum_notional notional
  leverage ← check_leverage (leverage_of (is_spot market.family) account.leverage)
  throw_if (is_above_maximum leverage (leverage_of (is_spot market.family) market.max_leverage))
      (validation "account.leverage" "leverage exceeds the current market maximum")
  throw_if (is_set market.only_isolated && not (is_isolated account.margin_mode))
      (validation "account.marginMode" "this market requires isolated margin")
  margin ← normalize_decimal account.available_margin "account.availableMargin"
  available ← parse_decimal margin "account.availableMargin"
  throw_if (is_gt (compare_decimal notional (multiply_decimal available (whole leverage))))
      (validation "account.availableMargin" "insufficient current margin for this action")

abbrev pub order_fields : OrderKind → List String
order_fields (limit_order time_in_force reduce_only) =
    "type" ∷ "assetId" ∷ "side" ∷ "size" ∷ "limitPrice" ∷ "timeInForce" ∷ "reduceOnly" ∷ "cloid"
    ∷ []
order_fields _ = "type" ∷ "assetId" ∷ "side" ∷ "size" ∷ "aggressiveLimitPrice" ∷ "cloid" ∷ []

abbrev pub assert_kind : OrderKind → Result (Unit {0})
assert_kind (limit_order other_time_in_force reduce_only) =
    err (validation "intent.timeInForce" "expected Alo, Gtc, or Ioc")
assert_kind (limit_order time_in_force reduce_only) =
    throw_if (not (is_boolean reduce_only)) (validation "intent.reduceOnly" "expected a boolean")
assert_kind _ = ok tt

abbrev pub is_other_direction : TriggerDirection → Bool
is_other_direction other_direction = true
is_other_direction _ = false

-- A trigger is refused whatever it says.
abbrev pub refuse_trigger : Option TriggerControl → Result (Unit {0})
refuse_trigger none = ok tt
refuse_trigger (some trigger) = do
  positive ← positive_decimal trigger.price "controls.trigger.price"
  throw_if (is_other_direction trigger.direction)
      (validation "controls.trigger.direction" "expected above or below")
  err (validation "controls.trigger" "trigger orders are not encoded by this action version")

abbrev pub assert_execution :
    OrderKind → ActionControls → Option (List ℕ) → OrderSide → List ℕ → Result (Unit {0})
assert_execution (limit_order time_in_force reduce_only) controls reference side price =
    throw_if (not (is_none controls.slippage_bps))
      (validation "controls.slippageBps" "slippage applies only to market execution")
assert_execution _ controls reference side price =
    assert_slippage controls.slippage_bps reference side price

abbrev pub is_reduce_only : OrderKind → Bool
is_reduce_only market_order = false
is_reduce_only reduce_only_close = true
is_reduce_only (limit_order time_in_force reduce_only) = is_set reduce_only

abbrev pub is_close : OrderKind → Bool
is_close reduce_only_close = true
is_close _ = false

abbrev pub assert_reduction :
    OrderKind → MarketFamily → Option (List ℕ) → OrderSide → List ℕ → Result (Unit {0})
assert_reduction kind family position side size =
    if is_reduce_only kind
    then assert_reduce_only family position side size (is_close kind)
    else ok tt

unfoldable pub validate_order :
    ActionMarketRules
    → ActionAccountRules
    → ActionControls
    → OrderIntent
    → Result ValidatedTradingAction
validate_order market account controls intent = do
  assert_exact_fields intent.fields (order_fields intent.kind) "intent.fields"
  throw_if (not (is_known_side intent.side)) (validation "intent.side" "expected buy or sell")
  assert_kind intent.kind
  asset_id ← safe_integer intent.asset_id "intent.assetId" 0
  precision ← assert_tradable_market market asset_id
  refuse_trigger controls.trigger
  size ← normalize_size intent.size precision
  price ← normalize_price intent.price precision
  quantity ← parse_decimal size "intent.size"
  rate ← parse_decimal price "intent.price"
  assert_execution intent.kind controls market.reference_price intent.side price
  assert_reduction intent.kind market.family account.position_size intent.side size
  assert_margin market account (multiply_decimal quantity rate) (is_reduce_only intent.kind)
  cloid ← parse_cloid intent.cloid "cloid"
  version ← safe_integer account.version "account.version" 0
  ok (record {
    intent = order (record intent { size = size; price = price; cloid = cloid });
    notional = some (format_decimal (multiply_decimal quantity rate));
    account_state_version = version;
    market_canonical_id = market.canonical_id;
  })
