-- ===== src/Validation/Current.antt =====
-- What the checks of the context and of the market leave, and of the precision of sizes and prices.
use hyper_trader.Validation.Numerals.{safe_integer-eq-ok}
use hyper_trader.Common.{
  ℕ, ◌+◌, ◌<◌, ◌≤◌, ◌≡◌, sym, ap, ◌∙◌, subst, Bool, true, false, not, ◌||◌, Option, none, some,
  arith, ltb, ◌==◌, String, Number, pos, natural, ok, ok_inj, validation, throw_if-eq-ok, >>=-eq-ok,
  >>-eq-ok, str_eq, str_eq_iff, length, codes, utf16_units, matches_bounded, not-eq-false,
}
use hyper_trader.Decimals.{price_precision_for_size_decimals}
use hyper_trader.Signing.{assert_trading_action_capability, MainnetTradingReleaseStage}
use hyper_trader.Validation.{
  MarketFamily, perp, spot, outcome, other_family, ActionValidationContext, ActionMarketRules,
}
use hyper_trader.Validation.Checks.{
  safe_integer, is_review_expired, Precision, check_precision, is_expected_precision,
  expected_precision, is_outcome, is_other_value, assert_tradable_market, account_address,
  assert_same_address, assert_current_context, is_market_code, has_control_character,
  is_known_family,
}
use hyper_trader.Validation.Bounds.{passed_check}

-- The decimal places that size and price share in a market.
abbrev pub shared_places : MarketFamily → ℕ
shared_places perp = 6
shared_places _ = 8

-- The market is open for orders of this asset, and its precision is that of its family: five
-- significant digits, and the places that its sizes leave.
pub record IsTradable (market : ActionMarketRules) (asset_id : ℕ) (precision : Precision)
    : Type 0 where
  pub active : market.is_active ≡ true
  pub enabled : market.is_enabled ≡ true
  pub not_outcome : is_outcome market.family ≡ false
  pub same_asset : market.order_asset_id ≡ pos asset_id
  pub figures : precision.significant ≡ 5
  pub places : precision.places + precision.size_decimals ≤ shared_places market.family

expected_bounds :
    (family : MarketFamily) (n : ℕ) (significant places : Number)
    → is_expected_precision significant places (expected_precision family (pos n)) ≡ true
    → (natural significant ≡ 5) × (natural places + n ≤ shared_places family)
unfolding price_precision_for_size_decimals
expected_bounds perp n (pos s) (pos p) h = (ground (arith, h), ground (arith, h))
expected_bounds spot n (pos s) (pos p) h = (ground (arith, h), ground (arith, h))
expected_bounds perp n significant places h = (ground (arith, h), ground (arith, h))
expected_bounds spot n significant places h = (ground (arith, h), ground (arith, h))
expected_bounds outcome n significant places h = cc
expected_bounds other_family n significant places h = cc

precision_bounds :
    (family : MarketFamily) (decimals : Option Number) (limits : Option (Number × Number))
    {precision : Precision}
    → check_precision family decimals limits ≡ ok precision
    → (precision.significant ≡ 5)
      × (precision.places + precision.size_decimals ≤ shared_places family)
precision_bounds family (some decimals) (some (significant, places)) h =
    let (n, safe, h₁) = >>=-eq-ok (safe_integer decimals "market.sizeDecimals" 0) _ h in
    let (known, _) = safe_integer-eq-ok decimals "market.sizeDecimals" 0 safe in
    let (expected, made) =
      passed_check
        (not (is_expected_precision significant places (expected_precision family decimals)))
        (validation "market.pricePrecision"
          "precision metadata does not match the current market family")
        _ h₁ in
    let (five, few) = expected_bounds family n significant places (
      ap (λ d. is_expected_precision significant places (expected_precision family d)) (sym known)
      ∙ not-eq-false _ expected) in
    (
      ap (λ (p : Precision). p.significant) (sym (ok_inj made)) ∙ five,
      subst (λ (p : Precision). p.places + p.size_decimals ≤ shared_places family) (ok_inj made)
          few,
    )
precision_bounds family (some decimals) none h = cc
precision_bounds family none limits h = cc

abbrev is_bad_fingerprint : String → Bool
is_bad_fingerprint fingerprint =
    length (utf16_units (codes fingerprint)) == 0
    || (ltb 2_048 (length (utf16_units (codes fingerprint))) || has_control_character fingerprint)

pub assert_tradable_market-IsTradable :
    (market : ActionMarketRules) (asset_id : ℕ) {precision : Precision}
    → assert_tradable_market market asset_id ≡ ok precision
    → IsTradable market asset_id precision
unfolding assert_tradable_market
assert_tradable_market-IsTradable market asset_id {precision} h =
    let (_, h₁) =
      passed_check (not (matches_bounded is_market_code 1 256 market.canonical_id))
        (validation "market.canonicalId" "expected a bounded canonical market identity") _ h in
    let (_, h₂) =
      passed_check (is_bad_fingerprint market.metadata_fingerprint)
        (validation "market.metadataFingerprint" "expected a bounded metadata fingerprint") _ h₁ in
    let (_, h₃) =
      passed_check (not (is_known_family market.family))
        (validation "market.family" "unknown market family") _ h₂ in
    let (tradable, h₄) =
      passed_check (not market.is_active || not market.is_enabled)
        (validation "market.tradability" "the current market is not available for trading") _ h₃ in
    let (known, h₅) =
      passed_check (is_outcome market.family)
        (validation "market.family" "outcome trading is browse-only in this build") _ h₄ in
    let (current, safe, h₆) =
      >>=-eq-ok (safe_integer market.order_asset_id "market.orderAssetId" 0) _ h₅ in
    let (same, h₇) =
      passed_check (not (current == asset_id))
        (validation "intent.assetId" "the action asset does not match the current market") _ h₆ in
    let (found, checked, h₈) =
      >>=-eq-ok (check_precision market.family market.size_decimals market.price_precision) _ h₇ in
    let (_, made) =
      passed_check (is_other_value market.only_isolated)
        (validation "market.onlyIsolated" "expected a boolean") _ h₈ in
    let (figures, places) =
      precision_bounds market.family market.size_decimals market.price_precision (checked ∙ made) in
    record {
      active = ground (arith, tradable);
      enabled = ground (arith, tradable);
      not_outcome = known;
      same_asset =
          (safe_integer-eq-ok market.order_asset_id "market.orderAssetId" 0 safe).0
          ∙ ap pos (ground (arith, same));
      figures = figures;
      places = places;
    }

module _ (stage : MainnetTradingReleaseStage) (get_address : String → Option String) where
  -- Two texts are read as one address.
  pub record IsSameAddress (path reviewed current : String) : Type 0 where
    pub address : String
    pub first : account_address stage get_address reviewed path ≡ ok address
    pub second : account_address stage get_address current path ≡ ok address

  -- The action is reviewed for the context that is current, and the review has not expired.
  pub record IsCurrent (c : ActionValidationContext) : Type 0 where
    pub allowed : assert_trading_action_capability stage c.network ≡ ok tt
    pub same_network : c.current_network ≡ c.network
    pub same_epoch : c.captured_context_epoch ≡ c.current_context_epoch
    pub master : IsSameAddress "context.masterAccount" c.master_account c.current_master_account
    pub target : IsSameAddress "context.targetAccount" c.target_account c.current_target_account
    pub in_time : natural c.now_ms < natural c.review_expires_at_ms

  assert_same_address-IsSameAddress :
      (path reviewed current : String) {address : String}
      → account_address stage get_address reviewed path ≡ ok address
      → assert_same_address stage get_address path current address ≡ ok tt
      → IsSameAddress path reviewed current
  assert_same_address-IsSameAddress path reviewed current {address} e h =
      let (now, found, h₁) = >>=-eq-ok (account_address stage get_address current path) _ h in
      let same : now ≡ address = (str_eq_iff now address).0 (
        not-eq-false _ (
          throw_if-eq-ok (not (str_eq now address))
            (validation path "the active account changed after review") h₁)) in
      record { address = address; first = e; second = found ∙ ap ok same }

  pub assert_current_context-IsCurrent :
      (c : ActionValidationContext)
      → assert_current_context stage get_address c ≡ ok tt
      → IsCurrent c
  unfolding assert_current_context
  assert_current_context-IsCurrent c h =
      let (allowed, h₁) = >>-eq-ok (assert_trading_action_capability stage c.network) _ h in
      let (captured, e₁, h₂) =
        >>=-eq-ok (safe_integer c.captured_context_epoch "context.capturedContextEpoch" 0) _ h₁ in
      let (current, e₂, h₃) =
        >>=-eq-ok (safe_integer c.current_context_epoch "context.currentContextEpoch" 0) _ h₂ in
      let (reviewed, e₃, h₄) =
        >>=-eq-ok (safe_integer c.reviewed_at_ms "context.reviewedAtMs" 0) _ h₃ in
      let (expires, e₄, h₅) =
        >>=-eq-ok (safe_integer c.review_expires_at_ms "context.reviewExpiresAtMs" 0) _ h₄ in
      let (now, e₅, h₆) = >>=-eq-ok (safe_integer c.now_ms "context.nowMs" 0) _ h₅ in
      let (network, h₇) =
        passed_check (not (str_eq c.current_network c.network))
          (validation "context.network" "the active network changed after review") _ h₆ in
      let (epoch, h₈) =
        passed_check (not (captured == current))
          (validation "context.epoch" "the active trading context changed after review") _ h₇ in
      let (master, m, h₉) =
        >>=-eq-ok (account_address stage get_address c.master_account "context.masterAccount") _
          h₈ in
      let (target, t, k₁) =
        >>=-eq-ok (account_address stage get_address c.target_account "context.targetAccount") _
          h₉ in
      let (m', k₂) =
        >>-eq-ok
          (assert_same_address stage get_address "context.masterAccount" c.current_master_account
            master)
          _ k₁ in
      let (t', k₃) =
        >>-eq-ok
          (assert_same_address stage get_address "context.targetAccount" c.current_target_account
            target)
          _ k₂ in
      let expired =
        throw_if-eq-ok (is_review_expired reviewed expires now)
          (validation "context.review" "the reviewed action expired and must be reviewed again")
          k₃ in
      record {
        allowed = allowed;
        same_network = (str_eq_iff c.current_network c.network).0 (not-eq-false _ network);
        same_epoch =
            (safe_integer-eq-ok c.captured_context_epoch "context.capturedContextEpoch" 0 e₁).0
            ∙ ap pos (equal captured current epoch)
            ∙ sym (safe_integer-eq-ok c.current_context_epoch "context.currentContextEpoch" 0 e₂).0;
        master =
            assert_same_address-IsSameAddress "context.masterAccount" c.master_account
              c.current_master_account m m';
        target =
            assert_same_address-IsSameAddress "context.targetAccount" c.target_account
              c.current_target_account t t';
        in_time =
            later (ap natural (safe_integer-eq-ok c.now_ms "context.nowMs" 0 e₅).0)
              (ap natural
                (safe_integer-eq-ok c.review_expires_at_ms "context.reviewExpiresAtMs" 0 e₄).0)
              (unexpired reviewed expires now expired);
      }
    where
      equal : (a b : ℕ) → not (a == b) ≡ false → a ≡ b
      equal a b e = ground (arith, e)

      unexpired :
          (reviewed expires now : ℕ)
          → is_review_expired reviewed expires now ≡ false
          → now < expires
      unexpired reviewed expires now e = ground (arith, e)

      later : {a b c d : ℕ} → a ≡ b → c ≡ d → b < d → a < c
      later p q l = omega (arith, p, q, l)
