-- ===== src/Validation/Protected.antt =====
-- What a protective order satisfies that `validatePositionTpsl` accepts.
use Prim.Native.Nat.{Ordering}
use hyper_trader.Common.{
  refl, subst, ℕ, ◌*◌, ◌<◌, ◌≡◌, sym, ap, true, false, not, List, some, arith, String, pos, ok,
  ok_inj, validation, >>=-eq-ok, >>-eq-ok, or_throw, or_throw-eq-ok,
}
use hyper_trader.Decimals.Digits.{ten_to}
use hyper_trader.Decimals.Compare.{numerator, scale}
use hyper_trader.Validation.{
  OrderSide, buy, sell, other_side, TriggerKind, take_profit, stop_loss, other_kind,
  TriggerDirection, above, below, other_direction, ActionMarketRules, ActionAccountRules,
  ActionControls, PositionTpslIntent, position_tpsl, ValidatedTradingAction,
}
use hyper_trader.Validation.Amounts.{parse_decimal, compare_decimal, positive_decimal, is_lt, is_gt}
use hyper_trader.Validation.Amounts.Values.{IsPositive, positive_decimal-IsPositive, order_of}
use hyper_trader.Validation.Amounts.Products.{positive-IsValue, compare_decimal-IsValue}
use hyper_trader.Validation.Checks.{
  safe_integer, assert_exact_fields, parse_cloid, is_perp, Precision, assert_tradable_market,
  normalize_size, normalize_price,
}
use hyper_trader.Validation.Orders.{
  is_known_side, check_slippage, assert_within, assert_reduce_only, text_or_zero,
}
use hyper_trader.Validation.Protective.{
  position_tpsl_fields, finish_position_tpsl, is_other_kind, expected_direction, assert_trigger,
  is_met, assert_existing, validate_position_tpsl,
}
use hyper_trader.Validation.Bounds.{
  passed_check, IsSlippage, check_slippage-IsSlippage, IsWithin, assert_within-IsWithin,
  IsReduction, assert_reduce_only-IsReduction,
}
use hyper_trader.Validation.Current.{IsTradable, assert_tradable_market-IsTradable}
use hyper_trader.Validation.Numerals.{
  safe_integer-eq-ok, HasPlaces, normalize_size-HasPlaces, normalize_price-HasFigures,
}

-- The trigger n / 10^m is on the far side of the current price k / 10^l.
abbrev pub IsBeyond : TriggerDirection → ℕ → ℕ → ℕ → ℕ → Type 0
IsBeyond above n m k l = k * ten_to m < n * ten_to l
IsBeyond below n m k l = n * ten_to l < k * ten_to m
IsBeyond other_direction n m k l = Unit {0}

is_met-IsBeyond :
    (d : TriggerDirection) (o : Ordering) (n m k l : ℕ)
    → o ≡ order_of n m k l
    → is_met d o ≡ false
    → IsBeyond d n m k l
is_met-IsBeyond above o n m k l e h = ground (arith, ap is_gt e)
is_met-IsBeyond below o n m k l e h = ground (arith, ap is_lt e)
is_met-IsBeyond other_direction o n m k l e h = tt

-- The side of the current price that a trigger must be on: a sale takes its profit above it and
-- stops its loss below it, a purchase the other way round.
abbrev pub trigger_side : OrderSide → TriggerKind → TriggerDirection
trigger_side sell take_profit = above
trigger_side sell stop_loss = below
trigger_side sell other_kind = below
trigger_side buy take_profit = below
trigger_side buy stop_loss = above
trigger_side buy other_kind = above
trigger_side other_side take_profit = below
trigger_side other_side stop_loss = above
trigger_side other_side other_kind = above

expected_direction_lem :
    (side : OrderSide) (kind : TriggerKind) → expected_direction side kind ≡ trigger_side side kind
expected_direction_lem sell take_profit = refl
expected_direction_lem sell stop_loss = refl
expected_direction_lem sell other_kind = refl
expected_direction_lem buy take_profit = refl
expected_direction_lem buy stop_loss = refl
expected_direction_lem buy other_kind = refl
expected_direction_lem other_side take_profit = refl
expected_direction_lem other_side stop_loss = refl
expected_direction_lem other_side other_kind = refl

-- A protective order: it closes the whole position, is triggered on the far side of the current price
-- and then executed within the slippage of its trigger.
pub record IsProtective (market : ActionMarketRules) (account : ActionAccountRules)
    (controls : ActionControls) (intent : PositionTpslIntent) (v : ValidatedTradingAction)
    : Type 0 where
  pub asset_id : ℕ
  pub precision : Precision
  pub size : List ℕ
  pub trigger_price : List ℕ
  pub aggressive_limit_price : List ℕ
  pub cloid : String
  pub current : List ℕ
  pub bps : ℕ
  pub made :
      v.intent
      ≡ position_tpsl (record intent {
        size = size;
        trigger_price = trigger_price;
        aggressive_limit_price = aggressive_limit_price;
        cloid = cloid;
      })
  pub known : intent.asset_id ≡ pos asset_id
  pub tradable : IsTradable market asset_id precision
  pub sized : IsPositive intent.size size
  pub size_places : HasPlaces (numerator intent.size) (scale intent.size) precision.size_decimals
  pub trigger : IsPositive intent.trigger_price trigger_price
  pub priced : IsPositive intent.aggressive_limit_price aggressive_limit_price
  pub closing :
      IsReduction market.family
        (text_or_zero account.position_size)
        intent.side
        (numerator intent.size)
        (scale intent.size)
        true
  pub reference : market.reference_price ≡ some current
  pub beyond :
      IsBeyond
        (trigger_side intent.side intent.trigger_kind)
        (numerator intent.trigger_price)
        (scale intent.trigger_price)
        (numerator current)
        (scale current)
  pub slipped : IsSlippage controls.slippage_bps bps
  pub within :
      IsWithin intent.side bps
        (numerator intent.aggressive_limit_price)
        (scale intent.aggressive_limit_price)
        (numerator intent.trigger_price)
        (scale intent.trigger_price)
  pub existing : assert_existing intent.existing_oid asset_id account.open_orders ≡ ok tt

-- What the last checks leave, with the sizes and prices as numbers.
record IsFinished (market : ActionMarketRules) (account : ActionAccountRules)
    (controls : ActionControls) (intent : PositionTpslIntent) (asset_id : ℕ)
    (size trigger_price aggressive_limit_price : List ℕ) (v : ValidatedTradingAction) : Type 0 where
  cloid : String
  current : List ℕ
  bps : ℕ
  made :
      v.intent
      ≡ position_tpsl (record intent {
        size = size;
        trigger_price = trigger_price;
        aggressive_limit_price = aggressive_limit_price;
        cloid = cloid;
      })
  closing :
      IsReduction market.family
        (text_or_zero account.position_size)
        intent.side
        (numerator intent.size)
        (scale intent.size)
        true
  reference : market.reference_price ≡ some current
  beyond :
      IsBeyond
        (trigger_side intent.side intent.trigger_kind)
        (numerator intent.trigger_price)
        (scale intent.trigger_price)
        (numerator current)
        (scale current)
  slipped : IsSlippage controls.slippage_bps bps
  within :
      IsWithin intent.side bps
        (numerator intent.aggressive_limit_price)
        (scale intent.aggressive_limit_price)
        (numerator intent.trigger_price)
        (scale intent.trigger_price)
  existing : assert_existing intent.existing_oid asset_id account.open_orders ≡ ok tt

finish_position_tpsl-IsFinished :
    (market : ActionMarketRules) (account : ActionAccountRules) (controls : ActionControls)
    (intent : PositionTpslIntent) (asset_id : ℕ) (precision : Precision)
    (size trigger_price price : List ℕ) (v : ValidatedTradingAction)
    → IsPositive intent.size size
    → IsPositive intent.trigger_price trigger_price
    → IsPositive intent.aggressive_limit_price price
    → finish_position_tpsl market account controls intent asset_id precision size trigger_price
        price
      ≡ ok v
    → IsFinished market account controls intent asset_id size trigger_price price v
unfolding finish_position_tpsl
finish_position_tpsl-IsFinished market account controls intent asset_id precision size trigger_price
      price v s p q h =
    let direction = expected_direction intent.side intent.trigger_kind in
    let (reduced, k₁) =
      >>-eq-ok (assert_reduce_only market.family account.position_size intent.side size true) _ h in
    let (_, k₂) =
      >>-eq-ok (assert_trigger controls.trigger precision trigger_price direction) _ k₁ in
    let (current, reference, k₃) =
      >>=-eq-ok
        (or_throw market.reference_price
          (validation "market.referencePrice" "a current reference price is required"))
        _ k₂ in
    let (positive, printed, k₄) =
      >>=-eq-ok (positive_decimal current "market.referencePrice") _ k₃ in
    let (r, parsed, k₅) = >>=-eq-ok (parse_decimal positive "market.referencePrice") _ k₄ in
    let (t, parsed', k₆) = >>=-eq-ok (parse_decimal trigger_price "intent.triggerPrice") _ k₅ in
    let (unmet, k₇) =
      passed_check (is_met direction (compare_decimal t r))
        (validation "intent.triggerPrice"
          "trigger price must be beyond the current reference price")
        _ k₆ in
    let (bps, slipped, k₈) = >>=-eq-ok (check_slippage controls.slippage_bps) _ k₇ in
    let (a, parsed'', k₉) = >>=-eq-ok (parse_decimal price "intent.aggressiveLimitPrice") _ k₈ in
    let (within, l₁) =
      >>-eq-ok (assert_within "intent.aggressiveLimitPrice" intent.side bps a t) _ k₉ in
    let (existing, l₂) =
      >>-eq-ok (assert_existing intent.existing_oid asset_id account.open_orders) _ l₁ in
    let (cloid, _, l₃) = >>=-eq-ok (parse_cloid intent.cloid "cloid") _ l₂ in
    let (quantity, _, l₄) = >>=-eq-ok (parse_decimal size "intent.size") _ l₃ in
    let (version, _, made) = >>=-eq-ok (safe_integer account.version "account.version" 0) _ l₄ in
    let trigger_value =
      positive-IsValue intent.trigger_price trigger_price "intent.triggerPrice" p parsed' in
    record {
      cloid = cloid;
      current = current;
      bps = bps;
      made = ap (λ (x : ValidatedTradingAction). x.intent) (sym (ok_inj made));
      closing =
          assert_reduce_only-IsReduction market.family account.position_size intent.side size true
            (numerator intent.size) (scale intent.size)
            (λ path d e. positive-IsValue intent.size size path s e) reduced;
      reference = or_throw-eq-ok market.reference_price _ reference;
      beyond =
          subst
            (λ d.
              IsBeyond d (numerator intent.trigger_price) (scale intent.trigger_price)
                (numerator current) (scale current))
            (expected_direction_lem intent.side intent.trigger_kind)
            (is_met-IsBeyond direction (compare_decimal t r) (numerator intent.trigger_price)
              (scale intent.trigger_price) (numerator current) (scale current)
              (compare_decimal-IsValue t r (numerator intent.trigger_price)
                (scale intent.trigger_price) (numerator current) (scale current) trigger_value
                (positive-IsValue current positive "market.referencePrice"
                  (positive_decimal-IsPositive current "market.referencePrice" printed) parsed))
              unmet);
      slipped = check_slippage-IsSlippage controls.slippage_bps slipped;
      within =
          assert_within-IsWithin "intent.aggressiveLimitPrice" intent.side bps a t
            (numerator intent.aggressive_limit_price) (scale intent.aggressive_limit_price)
            (numerator intent.trigger_price) (scale intent.trigger_price)
            (positive-IsValue intent.aggressive_limit_price price "intent.aggressiveLimitPrice" q
              parsed'')
            trigger_value within;
      existing = existing;
    }

pub validate_position_tpsl-IsProtective :
    (market : ActionMarketRules) (account : ActionAccountRules) (controls : ActionControls)
    (intent : PositionTpslIntent) (v : ValidatedTradingAction)
    → validate_position_tpsl market account controls intent ≡ ok v
    → IsProtective market account controls intent v
unfolding validate_position_tpsl
validate_position_tpsl-IsProtective market account controls intent v h =
    let (_, h₁) =
      >>-eq-ok (assert_exact_fields intent.fields position_tpsl_fields "intent.fields") _ h in
    let (_, h₂) =
      passed_check (not (is_known_side intent.side))
        (validation "intent.side" "expected buy or sell") _ h₁ in
    let (_, h₃) =
      passed_check (is_other_kind intent.trigger_kind)
        (validation "intent.triggerKind" "expected take_profit or stop_loss") _ h₂ in
    let (asset_id, known, h₄) = >>=-eq-ok (safe_integer intent.asset_id "intent.assetId" 0) _ h₃ in
    let (precision, market_ok, h₅) = >>=-eq-ok (assert_tradable_market market asset_id) _ h₄ in
    let (_, h₆) =
      passed_check (not (is_perp market.family))
        (validation "intent.type" "position TP/SL requires a perpetual market") _ h₅ in
    let (size, sized, h₇) = >>=-eq-ok (normalize_size intent.size precision) _ h₆ in
    let (trigger_price, triggered, h₈) =
      >>=-eq-ok (normalize_price intent.trigger_price precision) _ h₇ in
    let (price, priced, h₉) =
      >>=-eq-ok (normalize_price intent.aggressive_limit_price precision) _ h₈ in
    let (s, places) = normalize_size-HasPlaces intent.size precision sized in
    let (p, _) = normalize_price-HasFigures intent.trigger_price precision triggered in
    let (q, _) = normalize_price-HasFigures intent.aggressive_limit_price precision priced in
    let f =
      finish_position_tpsl-IsFinished market account controls intent asset_id precision size
        trigger_price price v s p q h₉ in
    record {
      asset_id = asset_id;
      precision = precision;
      size = size;
      trigger_price = trigger_price;
      aggressive_limit_price = price;
      cloid = f.cloid;
      current = f.current;
      bps = f.bps;
      made = f.made;
      known = (safe_integer-eq-ok intent.asset_id "intent.assetId" 0 known).0;
      tradable = assert_tradable_market-IsTradable market asset_id market_ok;
      sized = s;
      size_places = places;
      trigger = p;
      priced = q;
      closing = f.closing;
      reference = f.reference;
      beyond = f.beyond;
      slipped = f.slipped;
      within = f.within;
      existing = f.existing;
    }
