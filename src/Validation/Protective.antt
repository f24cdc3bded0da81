-- ===== src/Validation/Protective.antt =====
-- validation.ts: `validatePositionTpsl`, for the orders that take the profit or stop the loss of a
-- whole position.
use Prim.Native.Nat.{Ordering}
use hyper_trader.Common.{
  ℕ, Bool, true, false, not, ◌&&◌, ◌||◌, String, Option, none, some, List, [], ◌∷◌, Number,
  number_eq, codes_eq, any, Result, ok, err, validation, throw_if, or_throw, ◌>>=◌, ◌>>◌,
}
use hyper_trader.Validation.{
  OrderSide, sell, TriggerDirection, above, below, other_direction, CurrentOpenOrderIdentity,
  ActionMarketRules, ActionAccountRules, ActionControls, TriggerControl, TriggerKind, take_profit,
  other_kind, PositionTpslIntent, position_tpsl, ValidatedTradingAction,
}
use hyper_trader.Validation.Amounts.{
  parse_decimal, format_decimal, compare_decimal, multiply_decimal, positive_decimal, is_lt, is_gt,
}
use hyper_trader.Validation.Checks.{
  safe_integer, assert_exact_fields, parse_cloid, is_perp, Precision, assert_tradable_market,
  normalize_size, normalize_price,
}
use hyper_trader.Validation.Orders.{
  is_known_side, check_slippage, assert_within, assert_reduce_only,
}

abbrev pub is_other_kind : TriggerKind → Bool
is_other_kind other_kind = true
is_other_kind _ = false

-- A sale takes its profit above the current price and stops its loss below; a purchase the reverse.
abbrev pub expected_direction : OrderSide → TriggerKind → TriggerDirection
expected_direction sell take_profit = above
expected_direction sell _ = below
expected_direction _ take_profit = below
expected_direction _ _ = above

abbrev pub direction_eq : TriggerDirection → TriggerDirection → Bool
direction_eq above above = true
direction_eq below below = true
direction_eq other_direction other_direction = true
direction_eq _ _ = false

abbrev pub assert_trigger :
    Option TriggerControl → Precision → List ℕ → TriggerDirection → Result (Unit {0})
assert_trigger none precision trigger_price direction = err (
    validation "controls.trigger" "the trigger price and direction must match the protective order")
assert_trigger (some control) precision trigger_price direction = do
  price ← normalize_price control.price precision
  throw_if (not (codes_eq price trigger_price) || not (direction_eq control.direction direction)) (
      validation "controls.trigger"
        "the trigger price and direction must match the protective order")

-- Whether a trigger that compares to the current price in this way would be met at once.
abbrev pub is_met : TriggerDirection → Ordering → Bool
is_met above o = not (is_gt o)
is_met below o = not (is_lt o)
is_met other_direction o = false

abbrev pub is_order : ℕ → ℕ → CurrentOpenOrderIdentity → Bool
is_order asset_id oid listed = number_eq listed.asset_id asset_id && is_oid listed.oid
  where
    is_oid : Option Number → Bool
    is_oid none = false
    is_oid (some n) = number_eq n oid

abbrev pub has_order : ℕ → ℕ → Option (List CurrentOpenOrderIdentity) → Bool
has_order asset_id oid none = false
has_order asset_id oid (some orders) = any (is_order asset_id oid) orders

abbrev pub assert_existing :
    Option Number → ℕ → Option (List CurrentOpenOrderIdentity) → Result (Unit {0})
assert_existing none asset_id orders = ok tt
assert_existing (some existing_oid) asset_id orders = do
  oid ← safe_integer existing_oid "intent.existingOid" 1
  throw_if (not (has_order asset_id oid orders))
      (validation "intent.existingOid" "the protective order is no longer open")

abbrev pub position_tpsl_fields : List String
position_tpsl_fields =
    "type" ∷ "assetId" ∷ "side" ∷ "size" ∷ "triggerPrice" ∷ "aggressiveLimitPrice" ∷ "triggerKind"
    ∷ "existingOid" ∷ "cloid" ∷ []

-- The checks of a protective order from the position on, with its normalized size and prices.
unfoldable pub finish_position_tpsl :
    ActionMarketRules
    → ActionAccountRules
    → ActionControls
    → PositionTpslIntent
    → ℕ
    → Precision
    → (size trigger_price aggressive_limit_price : List ℕ) → Result ValidatedTradingAction
finish_position_tpsl market account controls intent asset_id precision size trigger_price
      aggressive_limit_price =
    do
      assert_reduce_only market.family account.position_size intent.side size true
      assert_trigger controls.trigger precision trigger_price
          (expected_direction intent.side intent.trigger_kind)
      current ←
          or_throw market.reference_price
            (validation "market.referencePrice" "a current reference price is required")
      positive ← positive_decimal current "market.referencePrice"
      reference ← parse_decimal positive "market.referencePrice"
      trigger ← parse_decimal trigger_price "intent.triggerPrice"
      throw_if
          (is_met (expected_direction intent.side intent.trigger_kind)
            (compare_decimal trigger reference))
          (validation "intent.triggerPrice"
            "trigger price must be beyond the current reference price")
      bps ← check_slippage controls.slippage_bps
      aggressive ← parse_decimal aggressive_limit_price "intent.aggressiveLimitPrice"
      assert_within "intent.aggressiveLimitPrice" intent.side bps aggressive trigger
      assert_existing intent.existing_oid asset_id account.open_orders
      cloid ← parse_cloid intent.cloid "cloid"
      quantity ← parse_decimal size "intent.size"
      version ← safe_integer account.version "account.version" 0
      ok (record {
        intent = position_tpsl (record intent {
          size = size;
          trigger_price = trigger_price;
          aggressive_limit_price = aggressive_limit_price;
          cloid = cloid;
        });
        notional = some (format_decimal (multiply_decimal quantity trigger));
        account_state_version = version;
        market_canonical_id = market.canonical_id;
      })

unfoldable pub validate_position_tpsl :
    ActionMarketRules
    → ActionAccountRules
    → ActionControls
    → PositionTpslIntent
    → Result ValidatedTradingAction
validate_position_tpsl market account controls intent = do
  assert_exact_fields intent.fields position_tpsl_fields "intent.fields"
  throw_if (not (is_known_side intent.side)) (validation "intent.side" "expected buy or sell")
  throw_if (is_other_kind intent.trigger_kind)
      (validation "intent.triggerKind" "expected take_profit or stop_loss")
  asset_id ← safe_integer intent.asset_id "intent.assetId" 0
  precision ← assert_tradable_market market asset_id
  throw_if (not (is_perp market.family))
      (validation "intent.type" "position TP/SL requires a perpetual market")
  size ← normalize_size intent.size precision
  trigger_price ← normalize_price intent.trigger_price precision
  aggressive_limit_price ← normalize_price intent.aggressive_limit_price precision
  finish_position_tpsl market account controls intent asset_id precision size trigger_price
      aggressive_limit_price
