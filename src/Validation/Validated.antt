-- ===== src/Validation/Validated.antt =====
-- What an action satisfies that `validateTradingAction` accepts.

use hyper_trader.Common.{
  ℕ, min, ◌≤◌, ◌≡◌, refl, sym, ap, ◌∙◌, true, false, not, ◌&&◌, List, Option, none, some, arith,
  String, Number, pos, negsuc, ok, ok_inj, validation, >>=-eq-ok, >>-eq-ok, or_throw,
  or_throw-eq-ok, not-eq-false, Any,
}
use hyper_trader.Signing.{MainnetTradingReleaseStage}
use hyper_trader.Validation.{
  CurrentOpenOrderIdentity, ActionMarketRules, ActionAccountRules, ActionControls, CancelIntent,
  UpdateLeverageIntent, TradingActionIntent, order, position_tpsl, cancel, update_leverage,
  bulk_cancel, unsupported, TradingActionValidationInput, ValidatedTradingAction,
}
use hyper_trader.Validation.Checks.{
  safe_integer, assert_exact_fields, is_perp, is_set, Precision, assert_tradable_market,
  assert_current_context,
}
use hyper_trader.Validation.Orders.{is_isolated}
use hyper_trader.Validation.Actions.{
  cancel_fields, update_leverage_fields, Target, assert_target_fields, check_target, some_target,
  with_target, refuse_controls, validate_cancel, is_other_mode, is_bad_leverage, validate_leverage,
  is_unknown_mode, validate_intent, validate_trading_action,
}
use hyper_trader.Validation.Aimed.{IsAimed, some_target-Any}
use hyper_trader.Validation.Bounds.{passed_check}
use hyper_trader.Validation.Current.{
  IsTradable, assert_tradable_market-IsTradable, IsCurrent, assert_current_context-IsCurrent,
}
use hyper_trader.Validation.Numerals.{safe_integer-eq-ok}
use hyper_trader.Validation.Accepted.{IsOrder, validate_order-IsOrder}
use hyper_trader.Validation.Protected.{IsProtective, validate_position_tpsl-IsProtective}

-- A cancellation: an order that is open now is the target.
pub record IsCancellation (market : ActionMarketRules) (account : ActionAccountRules)
    (controls : ActionControls) (intent : CancelIntent) (v : ValidatedTradingAction) : Type 0 where
  pub asset_id : ℕ
  pub precision : Precision
  pub orders : List CurrentOpenOrderIdentity
  pub target : Target
  pub made : v.intent ≡ cancel (with_target intent target)
  pub known : intent.asset_id ≡ pos asset_id
  pub tradable : IsTradable market asset_id precision
  pub listed : account.open_orders ≡ some orders
  pub aimed : check_target intent.target ≡ ok target
  pub found : Any (IsAimed asset_id target) orders

pub validate_cancel-IsCancellation :
    (market : ActionMarketRules) (account : ActionAccountRules) (controls : ActionControls)
    (intent : CancelIntent) {v : ValidatedTradingAction}
    → validate_cancel market account controls intent ≡ ok v
    → IsCancellation market account controls intent v
unfolding validate_cancel
validate_cancel-IsCancellation market account controls intent {v} h =
    let (_, h₁) = >>-eq-ok (assert_exact_fields intent.fields cancel_fields "intent.fields") _ h in
    let (_, h₂) = >>-eq-ok (assert_target_fields intent.target) _ h₁ in
    let (asset_id, known, h₃) = >>=-eq-ok (safe_integer intent.asset_id "intent.assetId" 0) _ h₂ in
    let (precision, market_ok, h₄) = >>=-eq-ok (assert_tradable_market market asset_id) _ h₃ in
    let (_, h₅) =
      >>-eq-ok (refuse_controls controls "cancel does not accept slippage or trigger controls") _
        h₄ in
    let (orders, listed, h₆) =
      >>=-eq-ok
        (or_throw account.open_orders
          (validation "account.openOrders" "current open-order evidence is required"))
        _ h₅ in
    let (target, aimed, h₇) = >>=-eq-ok (check_target intent.target) _ h₆ in
    let (found, sought, h₈) = >>=-eq-ok (some_target asset_id target orders) _ h₇ in
    let (missing, h₉) =
      passed_check (not found)
        (validation "intent.target" "the exact order is not open in current account state") _ h₈ in
    let (version, _, made) = >>=-eq-ok (safe_integer account.version "account.version" 0) _ h₉ in
    record {
      asset_id = asset_id;
      precision = precision;
      orders = orders;
      target = target;
      made = ap (λ (x : ValidatedTradingAction). x.intent) (sym (ok_inj made));
      known = (safe_integer-eq-ok intent.asset_id "intent.assetId" 0 known).0;
      tradable = assert_tradable_market-IsTradable market asset_id market_ok;
      listed = or_throw-eq-ok account.open_orders _ listed;
      aimed = aimed;
      found = some_target-Any asset_id target orders (sought ∙ ap ok (not-eq-false found missing));
    }

-- A leverage from 1 to the maximum of the market, and to 100.
pub record IsAdjustment (market : ActionMarketRules) (intent : UpdateLeverageIntent)
    (v : ValidatedTradingAction) : Type 0 where
  pub asset_id : ℕ
  pub precision : Precision
  pub leverage : ℕ
  pub highest : ℕ
  pub made : v.intent ≡ update_leverage intent
  pub known : intent.asset_id ≡ pos asset_id
  pub tradable : IsTradable market asset_id precision
  pub perpetual : is_perp market.family ≡ true
  pub given : intent.leverage ≡ pos leverage
  pub allowed : market.max_leverage ≡ some (pos highest)
  pub positive : 1 ≤ leverage
  pub within : leverage ≤ min highest 100
  pub mode : (is_set market.only_isolated && not (is_isolated (some intent.margin_mode))) ≡ false

good_leverage :
    (leverage : Number) (maximum : Option Number)
    → is_bad_leverage leverage maximum ≡ false
    → (l : ℕ) × (m : ℕ) × (leverage ≡ pos l) × (maximum ≡ some (pos m)) × (1 ≤ l) × (l ≤ min m 100)
good_leverage (pos l) (some (pos m)) h = (l, m, refl, refl, ground (arith, h), ground (arith, h))
good_leverage (pos l) (some (negsuc m)) h = absurd (ground (arith, h))
good_leverage (pos l) (some Number.other) h = absurd (ground (arith, h))
good_leverage (negsuc l) (some m) h = absurd (ground (arith, h))
good_leverage Number.other (some m) h = cc
good_leverage leverage none h = cc

pub validate_leverage-IsAdjustment :
    (market : ActionMarketRules) (account : ActionAccountRules) (controls : ActionControls)
    (intent : UpdateLeverageIntent) {v : ValidatedTradingAction}
    → validate_leverage market account controls intent ≡ ok v
    → IsAdjustment market intent v
unfolding validate_leverage
validate_leverage-IsAdjustment market account controls intent {v} h =
    let (_, h₁) =
      >>-eq-ok (assert_exact_fields intent.fields update_leverage_fields "intent.fields") _ h in
    let (_, h₂) =
      passed_check (is_other_mode intent.margin_mode)
        (validation "intent.marginMode" "expected cross or isolated") _ h₁ in
    let (asset_id, known, h₃) = >>=-eq-ok (safe_integer intent.asset_id "intent.assetId" 0) _ h₂ in
    let (precision, market_ok, h₄) = >>=-eq-ok (assert_tradable_market market asset_id) _ h₃ in
    let (perpetual, h₅) =
      passed_check (not (is_perp market.family))
        (validation "intent.type" "leverage updates require a perpetual market") _ h₄ in
    let (_, h₆) =
      >>-eq-ok (refuse_controls controls "leverage updates do not accept order controls") _ h₅ in
    let (good, h₇) =
      passed_check (is_bad_leverage intent.leverage market.max_leverage)
        (validation "intent.leverage" "leverage exceeds the current market maximum") _ h₆ in
    let (mode, h₈) =
      passed_check (is_set market.only_isolated && not (is_isolated (some intent.margin_mode)))
        (validation "intent.marginMode" "this market requires isolated margin") _ h₇ in
    let (version, _, made) = >>=-eq-ok (safe_integer account.version "account.version" 0) _ h₈ in
    let (l, m, given, allowed, positive, within) =
      good_leverage intent.leverage market.max_leverage good in
    record {
      asset_id = asset_id;
      precision = precision;
      leverage = l;
      highest = m;
      made = ap (λ (x : ValidatedTradingAction). x.intent) (sym (ok_inj made));
      known = (safe_integer-eq-ok intent.asset_id "intent.assetId" 0 known).0;
      tradable = assert_tradable_market-IsTradable market asset_id market_ok;
      perpetual = not-eq-false _ perpetual;
      given = given;
      allowed = allowed;
      positive = positive;
      within = within;
      mode = mode;
    }

abbrev pub IsValid :
    ActionMarketRules
    → ActionAccountRules
    → ActionControls
    → TradingActionIntent
    → ValidatedTradingAction
    → Type 0
IsValid market account controls (order intent) v = IsOrder market account controls intent v
IsValid market account controls (position_tpsl intent) v =
    IsProtective market account controls intent v
IsValid market account controls (cancel intent) v = IsCancellation market account controls intent v
IsValid market account controls (update_leverage intent) v = IsAdjustment market intent v
IsValid market account controls bulk_cancel v = ⊥
IsValid market account controls unsupported v = ⊥

validate_intent-IsValid :
    (market : ActionMarketRules) (account : ActionAccountRules) (controls : ActionControls)
    (intent : TradingActionIntent) (v : ValidatedTradingAction)
    → validate_intent market account controls intent ≡ ok v
    → IsValid market account controls intent v
validate_intent-IsValid market account controls (order intent) v h =
    validate_order-IsOrder market account controls intent h
validate_intent-IsValid market account controls (position_tpsl intent) v h =
    validate_position_tpsl-IsProtective market account controls intent v h
validate_intent-IsValid market account controls (cancel intent) v h =
    validate_cancel-IsCancellation market account controls intent h
validate_intent-IsValid market account controls (update_leverage intent) v h =
    validate_leverage-IsAdjustment market account controls intent h
validate_intent-IsValid market account controls bulk_cancel v h = cc
validate_intent-IsValid market account controls unsupported v h = cc

-- An action is accepted only for the context and the network that are current and before its review
-- expires, and only if, in exact arithmetic on the texts: an order has a positive size and price of
-- the market's precision, and is no further than its slippage from the current price, or a limit
-- order without slippage; it is within the position that it reduces, all of it if it closes, or else
-- its notional reaches the minimum and is within the margin times a leverage that the market allows;
-- a protective order closes the position and has its trigger beyond the current price; a cancelled
-- order is open; and a leverage is allowed. What is signed has the value of what was reviewed.
pub validate_trading_action-IsValid :
    (stage : MainnetTradingReleaseStage) (get_address : String → Option String)
    (input : TradingActionValidationInput) (v : ValidatedTradingAction)
    → validate_trading_action stage get_address input ≡ ok v
    → IsCurrent stage get_address input.context
      × IsValid input.market input.account input.controls input.intent v
unfolding validate_trading_action
validate_trading_action-IsValid stage get_address input v h =
    let (current, h₁) = >>-eq-ok (assert_current_context stage get_address input.context) _ h in
    let (_, h₂) =
      passed_check (is_unknown_mode input.account.margin_mode)
        (validation "account.marginMode" "expected cross or isolated") _ h₁ in
    (
      assert_current_context-IsCurrent stage get_address input.context current,
      validate_intent-IsValid input.market input.account input.controls input.intent v h₂,
    )
