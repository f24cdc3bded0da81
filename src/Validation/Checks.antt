-- ===== src/Validation/Checks.antt =====
-- validation.ts: the checks that the validators share, of the context, the market, sizes and prices.
use hyper_trader.Common.{
  ℕ, Bool, true, false, not, ◌&&◌, ◌||◌, String, Option, none, some, List, ltb, leb, ◌==◌, str_eq,
  Number, natural, is_safe_integer, is_negative, number_eq, Result, ok, err, validation, throw_if,
  ◌>>=◌, ◌>>◌, length, all, any, codes, utf16_units, lower_text, matches_bounded, matches_fixed,
  is_digit, is_hex,
}
use hyper_trader.Decimals.{
  Family, PricePrecisionInputs, price_precision_for_size_decimals, strip_leading, is_empty,
}
use hyper_trader.Signing.{assert_trading_action_capability, MainnetTradingReleaseStage}
use hyper_trader.Prices.{digits_of}
use hyper_trader.Validation.{
  Flag, boolean, other_value, MarketFamily, perp, spot, outcome, other_family,
  ActionValidationContext, ActionMarketRules,
}
use hyper_trader.Validation.Amounts.{parse_decimal, positive_decimal}

-- The message of the source also names the minimum.
abbrev pub safe_integer : Number → String → ℕ → Result ℕ
safe_integer value path minimum = do
  throw_if (not (is_safe_integer value) || (is_negative value || ltb (natural value) minimum))
      (validation path "expected a safe integer")
  ok (natural value)

-- The keys of an object are exactly the expected ones.
abbrev pub assert_exact_fields : List String → List String → String → Result (Unit {0})
assert_exact_fields keys expected path =
    throw_if
      (not (length keys == length expected) || not (all (λ key. any (str_eq key) keys) expected))
      (validation path "unexpected or missing fields")

abbrev pub parse_cloid : String → String → Result String
parse_cloid value path = do
  throw_if (not (matches_fixed "0x" is_hex 32 value))
      (validation path "expected a 128-bit 0x-prefixed client order ID")
  ok (lower_text value)

abbrev pub is_review_expired : (reviewed expires now : ℕ) → Bool
is_review_expired reviewed expires now = leb expires reviewed || leb expires now

-- `/^[A-Za-z0-9:._/-]$/`
unfoldable pub is_market_code : ℕ → Bool
unfolding is_digit
is_market_code c =
    (leb b'A' c && leb c b'Z')
    || ((leb b'a' c && leb c b'z')
        || (is_digit c
            || ((c == b':') || ((c == b'.') || ((c == b'_') || ((c == b'/') || (c == b'-')))))))

abbrev pub is_control : ℕ → Bool
is_control c = ltb c 32 || (c == 127)

abbrev pub has_control_character : String → Bool
has_control_character value = any is_control (codes value)

abbrev pub is_known_family : MarketFamily → Bool
is_known_family other_family = false
is_known_family _ = true

abbrev pub is_outcome : MarketFamily → Bool
is_outcome outcome = true
is_outcome _ = false

abbrev pub is_perp : MarketFamily → Bool
is_perp perp = true
is_perp _ = false

abbrev pub is_spot : MarketFamily → Bool
is_spot spot = true
is_spot _ = false

-- The precision of the family; after the checks it is one of the two.
abbrev pub expected_precision : MarketFamily → Number → Option PricePrecisionInputs
expected_precision perp decimals =
    price_precision_for_size_decimals hyper_trader.Decimals.perp decimals
expected_precision spot decimals =
    price_precision_for_size_decimals hyper_trader.Decimals.spot decimals
expected_precision _ decimals = none

-- `significant` and `places` are those of the market.
abbrev pub is_expected_precision : Number → Number → Option PricePrecisionInputs → Bool
is_expected_precision significant places none = false
is_expected_precision significant places (some expected) =
    number_eq significant expected.max_significant_figures
    && (is_safe_integer places
        && (not (is_negative places) && leb (natural places) expected.max_decimal_places))

-- What the market allows of sizes and prices, once it is checked.
pub record Precision : Type 0 where
  pub size_decimals : ℕ
  pub significant : ℕ
  pub places : ℕ

abbrev pub check_precision :
    MarketFamily → Option Number → Option (Number × Number) → Result Precision
check_precision family (some decimals) (some (significant, places)) = do
  n ← safe_integer decimals "market.sizeDecimals" 0
  throw_if (not (is_expected_precision significant places (expected_precision family decimals))) (
      validation "market.pricePrecision"
        "precision metadata does not match the current market family")
  ok (record { size_decimals = n; significant = natural significant; places = natural places })
check_precision family _ _ =
    err (validation "market.precision" "current precision metadata is unavailable")

abbrev pub is_other_value : Flag → Bool
is_other_value other_value = true
is_other_value _ = false

abbrev pub is_boolean : Flag → Bool
is_boolean (boolean b) = true
is_boolean _ = false

abbrev pub is_set : Flag → Bool
is_set (boolean b) = b
is_set _ = false

unfoldable pub assert_tradable_market : ActionMarketRules → ℕ → Result Precision
assert_tradable_market market asset_id = do
  throw_if (not (matches_bounded is_market_code 1 256 market.canonical_id))
      (validation "market.canonicalId" "expected a bounded canonical market identity")
  throw_if
      (length (utf16_units (codes market.metadata_fingerprint)) == 0
        || (ltb 2_048 (length (utf16_units (codes market.metadata_fingerprint)))
            || has_control_character market.metadata_fingerprint))
      (validation "market.metadataFingerprint" "expected a bounded metadata fingerprint")
  throw_if (not (is_known_family market.family))
      (validation "market.family" "unknown market family")
  throw_if (not market.is_active || not market.is_enabled)
      (validation "market.tradability" "the current market is not available for trading")
  throw_if (is_outcome market.family)
      (validation "market.family" "outcome trading is browse-only in this build")
  current ← safe_integer market.order_asset_id "market.orderAssetId" 0
  throw_if (not (current == asset_id))
      (validation "intent.assetId" "the action asset does not match the current market")
  precision ← check_precision market.family market.size_decimals market.price_precision
  throw_if (is_other_value market.only_isolated)
      (validation "market.onlyIsolated" "expected a boolean")
  ok precision

unfoldable pub normalize_size : List ℕ → Precision → Result (List ℕ)
normalize_size value precision = do
  normalized ← positive_decimal value "intent.size"
  parsed ← parse_decimal normalized "intent.size"
  throw_if (ltb precision.size_decimals parsed.scale)
      (validation "intent.size" "size exceeds the current market precision")
  ok normalized

-- `coefficient.toString().replace(/^0+/, "").length`, of a coefficient that is positive here.
abbrev pub significant_digits : ℕ → ℕ
significant_digits coefficient = length (digits_of coefficient)

unfoldable pub normalize_price : List ℕ → Precision → Result (List ℕ)
normalize_price value precision = do
  normalized ← positive_decimal value "intent.price"
  parsed ← parse_decimal normalized "intent.price"
  throw_if (ltb precision.places parsed.scale)
      (validation "intent.price" "price exceeds the current decimal-place limit")
  throw_if (ltb 0 parsed.scale && ltb precision.significant (significant_digits parsed.coefficient))
      (validation "intent.price" "price exceeds the current significant-figure limit")
  ok normalized

module _ (stage : MainnetTradingReleaseStage) (get_address : String → Option String) where
  abbrev pub account_address : String → String → Result String
  account_address value path = elim (get_address value) [
    | none ↦ err (validation path "expected a 20-byte Ethereum address")
    | some address ↦ ok (lower_text address)
  ]

  abbrev pub assert_same_address : String → String → String → Result (Unit {0})
  assert_same_address path current reviewed = do
    now ← account_address current path
    throw_if (not (str_eq now reviewed)) (validation path "the active account changed after review")

  unfoldable pub assert_current_context : ActionValidationContext → Result (Unit {0})
  assert_current_context c = do
    assert_trading_action_capability stage c.network
    captured ← safe_integer c.captured_context_epoch "context.capturedContextEpoch" 0
    current ← safe_integer c.current_context_epoch "context.currentContextEpoch" 0
    reviewed ← safe_integer c.reviewed_at_ms "context.reviewedAtMs" 0
    expires ← safe_integer c.review_expires_at_ms "context.reviewExpiresAtMs" 0
    now ← safe_integer c.now_ms "context.nowMs" 0
    throw_if (not (str_eq c.current_network c.network))
        (validation "context.network" "the active network changed after review")
    throw_if (not (captured == current))
        (validation "context.epoch" "the active trading context changed after review")
    master ← account_address c.master_account "context.masterAccount"
    target ← account_address c.target_account "context.targetAccount"
    assert_same_address "context.masterAccount" c.current_master_account master
    assert_same_address "context.targetAccount" c.current_target_account target
    throw_if (is_review_expired reviewed expires now)
        (validation "context.review" "the reviewed action expired and must be reviewed again")
