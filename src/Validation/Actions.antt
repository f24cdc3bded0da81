-- ===== src/Validation/Actions.antt =====
-- validation.ts: `validateCancel`, `validateLeverage`, and `validateTradingAction`, which chooses the
-- validator.
use hyper_trader.Common.{
  ℕ, min, Bool, true, false, not, ◌&&◌, ◌||◌, String, Option, none, some, List, [], ◌∷◌, ltb,
  if◌then◌else◌, Number, natural, number_eq, is_safe_integer, is_negative, is_none, str_eq, Result,
  ok, err, validation, throw_if, or_throw, ◌>>=◌, ◌>>◌,
}
use hyper_trader.Signing.{MainnetTradingReleaseStage}
use hyper_trader.Validation.{
  AccountMarginMode, other_mode, CurrentOpenOrderIdentity, ActionMarketRules, ActionAccountRules,
  ActionControls, CancelTarget, by_oid, by_cloid, other_target, CancelIntent, UpdateLeverageIntent,
  TradingActionIntent, order, position_tpsl, cancel, update_leverage, bulk_cancel, unsupported,
  TradingActionValidationInput, ValidatedTradingAction,
}
use hyper_trader.Validation.Checks.{
  safe_integer, assert_exact_fields, parse_cloid, is_perp, is_set, assert_tradable_market,
  assert_current_context,
}
use hyper_trader.Validation.Orders.{is_isolated, validate_order}
use hyper_trader.Validation.Protective.{is_order, validate_position_tpsl}

abbrev pub cancel_fields : List String
cancel_fields = "type" ∷ "assetId" ∷ "target" ∷ []

abbrev pub update_leverage_fields : List String
update_leverage_fields = "type" ∷ "assetId" ∷ "leverage" ∷ "marginMode" ∷ []

-- The target once it is checked.
pub data Target : Type 0 where
  the_oid : ℕ → Target
  the_cloid : String → Target

abbrev pub assert_target_fields : CancelTarget → Result (Unit {0})
assert_target_fields (by_oid fields oid) =
    assert_exact_fields fields ("kind" ∷ "oid" ∷ []) "intent.target.fields"
assert_target_fields (by_cloid fields cloid) =
    assert_exact_fields fields ("kind" ∷ "cloid" ∷ []) "intent.target.fields"
assert_target_fields other_target = err (validation "intent.target.kind" "expected oid or cloid")

abbrev pub check_target : CancelTarget → Result Target
check_target (by_oid fields oid) = safe_integer oid "intent.target.oid" 1 >>= λ n. ok (the_oid n)
check_target (by_cloid fields cloid) = parse_cloid cloid "cloid" >>= λ c. ok (the_cloid c)
check_target other_target = err (validation "intent.target.kind" "expected oid or cloid")

-- A client order id that is there but malformed throws.
abbrev pub matches_cloid : String → Option String → Result Bool
matches_cloid target none = ok false
matches_cloid target (some cloid) =
    parse_cloid cloid "account.openOrders.cloid" >>= λ c. ok (str_eq c target)

abbrev pub is_target : ℕ → Target → CurrentOpenOrderIdentity → Result Bool
is_target asset_id (the_oid oid) listed = ok (is_order asset_id oid listed)
is_target asset_id (the_cloid cloid) listed =
    if number_eq listed.asset_id asset_id then matches_cloid cloid listed.cloid else ok false

-- `orders.some(…)`, which stops at the first order that matches or throws.
unfoldable pub some_target : ℕ → Target → List CurrentOpenOrderIdentity → Result Bool
some_target asset_id target [] = ok false
some_target asset_id target (listed ∷ orders) =
    let rest = some_target asset_id target orders in
    is_target asset_id target listed >>= λ found. if found then ok true else rest

abbrev pub with_target : CancelIntent → Target → CancelIntent
with_target intent (the_oid oid) = intent
with_target intent (the_cloid cloid) = record intent {
  target = by_cloid ("kind" ∷ "cloid" ∷ []) cloid;
}

abbrev pub refuse_controls : ActionControls → String → Result (Unit {0})
refuse_controls controls message =
    throw_if (not (is_none controls.slippage_bps) || not (is_none controls.trigger))
      (validation "controls" message)

unfoldable pub validate_cancel :
    ActionMarketRules
    → ActionAccountRules
    → ActionControls
    → CancelIntent
    → Result ValidatedTradingAction
validate_cancel market account controls intent = do
  assert_exact_fields intent.fields cancel_fields "intent.fields"
  assert_target_fields intent.target
  asset_id ← safe_integer intent.asset_id "intent.assetId" 0
  precision ← assert_tradable_market market asset_id
  refuse_controls controls "cancel does not accept slippage or trigger controls"
  orders ←
      or_throw account.open_orders
        (validation "account.openOrders" "current open-order evidence is required")
  target ← check_target intent.target
  found ← some_target asset_id target orders
  throw_if (not found)
      (validation "intent.target" "the exact order is not open in current account state")
  version ← safe_integer account.version "account.version" 0
  ok (record {
    intent = cancel (with_target intent target);
    notional = none;
    account_state_version = version;
    market_canonical_id = market.canonical_id;
  })

abbrev pub is_other_mode : AccountMarginMode → Bool
is_other_mode other_mode = true
is_other_mode _ = false

-- `leverage` is no integer from 1 to the maximum of the market and 100.
abbrev pub is_bad_leverage : Number → Option Number → Bool
is_bad_leverage leverage none = true
is_bad_leverage leverage (some maximum) =
    not (is_safe_integer leverage)
    || (is_negative leverage
        || (ltb (natural leverage) 1
            || (not (is_safe_integer maximum)
                || (is_negative maximum || ltb (min (natural maximum) 100) (natural leverage)))))

unfoldable pub validate_leverage :
    ActionMarketRules
    → ActionAccountRules
    → ActionControls
    → UpdateLeverageIntent
    → Result ValidatedTradingAction
validate_leverage market account controls intent = do
  assert_exact_fields intent.fields update_leverage_fields "intent.fields"
  throw_if (is_other_mode intent.margin_mode)
      (validation "intent.marginMode" "expected cross or isolated")
  asset_id ← safe_integer intent.asset_id "intent.assetId" 0
  precision ← assert_tradable_market market asset_id
  throw_if (not (is_perp market.family))
      (validation "intent.type" "leverage updates require a perpetual market")
  refuse_controls controls "leverage updates do not accept order controls"
  throw_if (is_bad_leverage intent.leverage market.max_leverage)
      (validation "intent.leverage" "leverage exceeds the current market maximum")
  throw_if (is_set market.only_isolated && not (is_isolated (some intent.margin_mode)))
      (validation "intent.marginMode" "this market requires isolated margin")
  version ← safe_integer account.version "account.version" 0
  ok (record {
    intent = update_leverage intent;
    notional = none;
    account_state_version = version;
    market_canonical_id = market.canonical_id;
  })

abbrev pub is_unknown_mode : Option AccountMarginMode → Bool
is_unknown_mode none = false
is_unknown_mode (some mode) = is_other_mode mode

abbrev pub validate_intent :
    ActionMarketRules
    → ActionAccountRules
    → ActionControls
    → TradingActionIntent
    → Result ValidatedTradingAction
validate_intent market account controls (order intent) =
    validate_order market account controls intent
validate_intent market account controls (position_tpsl intent) =
    validate_position_tpsl market account controls intent
validate_intent market account controls (cancel intent) =
    validate_cancel market account controls intent
validate_intent market account controls (update_leverage intent) =
    validate_leverage market account controls intent
validate_intent market account controls bulk_cancel =
    err (validation "intent.type" "bulk cancel is not a reviewed U7 public action")
validate_intent market account controls unsupported =
    err (validation "intent.type" "unsupported trading action intent")

module _ (stage : MainnetTradingReleaseStage) (get_address : String → Option String) where
  unfoldable pub validate_trading_action :
      TradingActionValidationInput → Result ValidatedTradingAction
  validate_trading_action input = do
    assert_current_context stage get_address input.context
    throw_if (is_unknown_mode input.account.margin_mode)
        (validation "account.marginMode" "expected cross or isolated")
    validate_intent input.market input.account input.controls input.intent
