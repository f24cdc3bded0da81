-- ===== src/Validation/Accepted.antt =====
-- What an order satisfies that `validateOrder` accepts.
use hyper_trader.Common.{
  ℕ, ◌+◌, ◌*◌, ◌<◌, ◌≡◌, refl, sym, ap, Bool, true, false, not, List, Option, none, some, arith,
  ◌==◌, String, Number, pos, is_none, ok, err, ok_inj, validation, throw_if-eq-ok, >>=-eq-ok,
  >>-eq-ok, if◌then◌else◌, not-eq-false,
}
use hyper_trader.Decimals.{is_decimal_string}
use hyper_trader.Decimals.Digits.{ten_to, ten_to_pos, mul_le_mul}
use hyper_trader.Decimals.Compare.{numerator, scale}
use hyper_trader.Validation.{
  OrderSide, ActionMarketRules, ActionAccountRules, ActionControls, TriggerControl, OrderKind,
  market_order, reduce_only_close, limit_order, OrderIntent, order, ValidatedTradingAction,
}
use hyper_trader.Validation.Amounts.{
  ParsedDecimal, parse_decimal, format_digits, format_decimal, multiply_decimal, positive_decimal,
}
use hyper_trader.Validation.Amounts.Values.{
  IsPositive, same_value, positive_left, format_digits-IsFormat,
}
use hyper_trader.Validation.Amounts.Products.{IsValue, positive-IsValue, multiply_decimal-IsValue}
use hyper_trader.Validation.Checks.{
  safe_integer, assert_exact_fields, parse_cloid, Precision, assert_tradable_market, normalize_size,
  normalize_price,
}
use hyper_trader.Validation.Orders.{
  is_known_side, assert_kind, order_fields, refuse_trigger, is_other_direction, assert_execution,
  is_reduce_only, is_close, assert_reduction, assert_reduce_only, assert_margin, text_or_zero,
  validate_order,
}
use hyper_trader.Validation.Bounds.{
  passed_check, IsExecutable, assert_slippage-IsExecutable, IsReduction,
  assert_reduce_only-IsReduction,
}
use hyper_trader.Validation.Margin.{IsMargin, assert_margin-IsMargin}
use hyper_trader.Validation.Current.{IsTradable, assert_tradable_market-IsTradable}
use hyper_trader.Validation.Numerals.{
  safe_integer-eq-ok, HasPlaces, HasFigures, normalize_size-HasPlaces, normalize_price-HasFigures,
}

-- A limit order has no slippage; any other order has a price within it.
abbrev pub IsExecution : OrderKind → Option Number → Option (List ℕ) → OrderSide → ℕ → ℕ → Type 0
IsExecution (limit_order time_in_force reduce_only) slippage reference side n m = slippage ≡ none
IsExecution _ slippage reference side n m = IsExecutable slippage reference side n m

assert_execution-IsExecution :
    (kind : OrderKind) (controls : ActionControls) (reference : Option (List ℕ)) (side : OrderSide)
    (price : List ℕ) (n m : ℕ)
    → ((path : String) (d : ParsedDecimal) → parse_decimal price path ≡ ok d → IsValue d n m)
    → assert_execution kind controls reference side price ≡ ok tt
    → IsExecution kind controls.slippage_bps reference side n m
assert_execution-IsExecution (limit_order t r) controls reference side price n m v h =
    is_none_none controls.slippage_bps (throw_if-eq-ok (not (is_none controls.slippage_bps)) _ h)
  where
    is_none_none : (o : Option Number) → not (is_none o) ≡ false → o ≡ none
    is_none_none none e = refl
    is_none_none (some n) e = cc
assert_execution-IsExecution market_order controls reference side price n m v h =
    assert_slippage-IsExecutable controls.slippage_bps reference side price n m v h
assert_execution-IsExecution reduce_only_close controls reference side price n m v h =
    assert_slippage-IsExecutable controls.slippage_bps reference side price n m v h

-- An order that reduces is within the position, and is all of it if it closes; any other order, with
-- the notional k / 10^l, is within the margin.
abbrev pub IsBacked :
    Bool → Bool → ActionMarketRules → ActionAccountRules → OrderSide → ℕ → ℕ → ℕ → ℕ → Type 0
IsBacked true full market account side n m k l =
    IsReduction market.family (text_or_zero account.position_size) side n m full
IsBacked false full market account side n m k l = IsMargin market account k l

backed :
    (reduce full : Bool) (market : ActionMarketRules) (account : ActionAccountRules)
    (side : OrderSide) (size : List ℕ) (notional : ParsedDecimal) (n m k l : ℕ)
    → ((path : String) (d : ParsedDecimal) → parse_decimal size path ≡ ok d → IsValue d n m)
    → IsValue notional k l
    → 0 < k
    → (if reduce
        then assert_reduce_only market.family account.position_size side size full
        else ok tt)
      ≡ ok tt
    → assert_margin market account notional reduce ≡ ok tt
    → IsBacked reduce full market account side n m k l
backed true full market account side size notional n m k l v w p h e =
    assert_reduce_only-IsReduction market.family account.position_size side size full n m v h
backed false full market account side size notional n m k l v w p h e =
    assert_margin-IsMargin market account notional k l w p e

-- The text of a value above zero.
pub record IsWorth (text : List ℕ) (n m : ℕ) : Type 0 where
  pub valid : is_decimal_string text ≡ true
  pub exact : numerator text * ten_to m ≡ n * ten_to (scale text)

pub format_decimal-IsWorth :
    (d : ParsedDecimal) (n m : ℕ) → IsValue d n m → 0 < n → IsWorth (format_decimal d) n m
unfolding format_decimal
format_decimal-IsWorth d n m v p =
    let f = format_digits-IsFormat d.coefficient d.scale in
    let t = format_digits d.coefficient d.scale in
    let some_left : (d.coefficient == 0) ≡ false =
      nonzero d.coefficient (
        positive_left d.coefficient (ten_to m) n (ten_to d.scale) v.exact p (ten_to_pos d.scale)) in
    rw (some_left, v.above)
      (record {
        valid = f.valid;
        exact = same_value (numerator t) (scale t) d.scale d.coefficient m n f.exact v.exact;
      })
  where
    nonzero : (a : ℕ) → 0 < a → (a == 0) ≡ false
    nonzero a h = ground (arith, h)

product_pos : (a b : ℕ) → 0 < a → 0 < b → 0 < a * b
product_pos a b h k = ground (arith, mul_le_mul 1 a b)

-- An order, against the order and the notional that are signed for it.
pub record IsOrder (market : ActionMarketRules) (account : ActionAccountRules)
    (controls : ActionControls) (intent : OrderIntent) (v : ValidatedTradingAction) : Type 0 where
  pub asset_id : ℕ
  pub precision : Precision
  pub size : List ℕ
  pub price : List ℕ
  pub cloid : String
  pub notional : List ℕ
  pub made : v.intent ≡ order (record intent { size = size; price = price; cloid = cloid })
  pub known : intent.asset_id ≡ pos asset_id
  pub tradable : IsTradable market asset_id precision
  pub sided : is_known_side intent.side ≡ true
  pub no_trigger : controls.trigger ≡ none
  pub sized : IsPositive intent.size size
  pub size_places : HasPlaces (numerator intent.size) (scale intent.size) precision.size_decimals
  pub priced : IsPositive intent.price price
  pub price_figures :
      HasFigures
        (numerator intent.price)
        (scale intent.price)
        precision.places
        precision.significant
  pub execution :
      IsExecution intent.kind controls.slippage_bps market.reference_price intent.side
        (numerator intent.price)
        (scale intent.price)
  pub backing :
      IsBacked
        (is_reduce_only intent.kind)
        (is_close intent.kind)
        market
        account
        intent.side
        (numerator intent.size)
        (scale intent.size)
        (numerator intent.size * numerator intent.price)
        (scale intent.size + scale intent.price)
  pub named : v.notional ≡ some notional
  pub worth :
      IsWorth notional
        (numerator intent.size * numerator intent.price)
        (scale intent.size + scale intent.price)

refuse_trigger-none :
    (trigger : Option TriggerControl) → refuse_trigger trigger ≡ ok tt → trigger ≡ none
refuse_trigger-none none h = refl
refuse_trigger-none (some t) h =
    let (p, _, h₁) = >>=-eq-ok (positive_decimal t.price "controls.trigger.price") _ h in
    let (_, h₂) =
      passed_check (is_other_direction t.direction)
        (validation "controls.trigger.direction" "expected above or below") _ h₁ in
    absurd (refused h₂)
  where
    refused :
        err (validation "controls.trigger" "trigger orders are not encoded by this action version")
          ≡ ok (tt {0})
        → ⊥
    refused e = cc

raw_pos : (raw text : List ℕ) → IsPositive raw text → 0 < numerator raw
raw_pos raw text p =
    positive_left (numerator raw) (ten_to (scale text)) (numerator text) (ten_to (scale raw))
      (sym p.same) p.positive (ten_to_pos (scale raw))

pub validate_order-IsOrder :
    (market : ActionMarketRules) (account : ActionAccountRules) (controls : ActionControls)
    (intent : OrderIntent) {v : ValidatedTradingAction}
    → validate_order market account controls intent ≡ ok v
    → IsOrder market account controls intent v
unfolding validate_order
validate_order-IsOrder market account controls intent {v} h =
    let (_, h₁) =
      >>-eq-ok (assert_exact_fields intent.fields (order_fields intent.kind) "intent.fields") _ h in
    let (sided, h₂) =
      passed_check (not (is_known_side intent.side))
        (validation "intent.side" "expected buy or sell") _ h₁ in
    let (_, h₃) = >>-eq-ok (assert_kind intent.kind) _ h₂ in
    let (asset_id, known, h₄) = >>=-eq-ok (safe_integer intent.asset_id "intent.assetId" 0) _ h₃ in
    let (precision, market_ok, h₅) = >>=-eq-ok (assert_tradable_market market asset_id) _ h₄ in
    let (untriggered, h₆) = >>-eq-ok (refuse_trigger controls.trigger) _ h₅ in
    let (size, sized, h₇) = >>=-eq-ok (normalize_size intent.size precision) _ h₆ in
    let (price, priced, h₈) = >>=-eq-ok (normalize_price intent.price precision) _ h₇ in
    let (quantity, parsed, h₉) = >>=-eq-ok (parse_decimal size "intent.size") _ h₈ in
    let (rate, parsed', k₁) = >>=-eq-ok (parse_decimal price "intent.price") _ h₉ in
    let (executed, k₂) =
      >>-eq-ok (assert_execution intent.kind controls market.reference_price intent.side price) _
        k₁ in
    let (reduced, k₃) =
      >>-eq-ok (assert_reduction intent.kind market.family account.position_size intent.side size) _
        k₂ in
    let (margin, k₄) =
      >>-eq-ok
        (assert_margin market account (multiply_decimal quantity rate) (is_reduce_only intent.kind))
        _ k₃ in
    let (cloid, _, k₅) = >>=-eq-ok (parse_cloid intent.cloid "cloid") _ k₄ in
    let (version, _, made) = >>=-eq-ok (safe_integer account.version "account.version" 0) _ k₅ in
    let (s, places) = normalize_size-HasPlaces intent.size precision sized in
    let (p, figures) = normalize_price-HasFigures intent.price precision priced in
    let q = positive-IsValue intent.size size "intent.size" s parsed in
    let r = positive-IsValue intent.price price "intent.price" p parsed' in
    let product =
      multiply_decimal-IsValue quantity rate (numerator intent.size) (scale intent.size)
        (numerator intent.price) (scale intent.price) q r in
    let positive =
      product_pos (numerator intent.size) (numerator intent.price) (raw_pos intent.size size s)
        (raw_pos intent.price price p) in
    record {
      asset_id = asset_id;
      precision = precision;
      size = size;
      price = price;
      cloid = cloid;
      notional = format_decimal (multiply_decimal quantity rate);
      made = ap (λ (a : ValidatedTradingAction). a.intent) (sym (ok_inj made));
      known = (safe_integer-eq-ok intent.asset_id "intent.assetId" 0 known).0;
      tradable = assert_tradable_market-IsTradable market asset_id market_ok;
      sided = not-eq-false _ sided;
      no_trigger = refuse_trigger-none controls.trigger untriggered;
      sized = s;
      size_places = places;
      priced = p;
      price_figures = figures;
      execution =
          assert_execution-IsExecution intent.kind controls market.reference_price intent.side price
            (numerator intent.price) (scale intent.price)
            (λ path d e. positive-IsValue intent.price price path p e) executed;
      backing =
          backed (is_reduce_only intent.kind) (is_close intent.kind) market account intent.side size
            (multiply_decimal quantity rate) (numerator intent.size) (scale intent.size)
            (numerator intent.size * numerator intent.price)
            (scale intent.size + scale intent.price)
            (λ path d e. positive-IsValue intent.size size path s e) product positive reduced
            margin;
      named = ap (λ (a : ValidatedTradingAction). a.notional) (sym (ok_inj made));
      worth =
          format_decimal-IsWorth (multiply_decimal quantity rate)
            (numerator intent.size * numerator intent.price)
            (scale intent.size + scale intent.price) product positive;
    }
