-- ===== src/Examples/Alerts.antt =====
-- A rule on the price of a market, and the events that meet it.
use hyper_trader.Examples.Computed.{computed}
use hyper_trader.Common.{
  ℕ, ◌≡◌, refl, ap, true, false, some, none, Option, List, [], ◌∷◌, Result, ok, err, plain_error,
  codes, Error,
}
use hyper_trader.Rules.{
  NotificationRuleRecord, NotificationRuleEvent, price_scope, price_above, metric, price, mainnet,
  price_alert, trade, validate_rule, validate_event, evaluate_notification_rule, event_key_text,
  is_canonical_market,
}
use hyper_trader.Rules.Matches.{IsEvaluated, evaluate_notification_rule-IsEvaluated}
use hyper_trader.Rules.Keys.{IsSameKey, event_key_text-IsSameKey}
use hyper_trader.Delivery.{Answers, ErrorClass, other_error, handle_claim, initial_delivery}
use hyper_trader.Delivery.Settled.{is_closed, is_sent_once, handle_claim-IsClosed}

abbrev rule : NotificationRuleRecord
rule = record {
  rule_id = codes "00000000000000000000000000000001";
  identity_digest = codes "0000000000000000000000000000000000000000000000000000000000000002";
  installation_id = codes "00000000000000000000000000000003";
  account_link_id = none;
  rule_scope = price_scope;
  rule_network = mainnet;
  rule_market = codes "perp:0:1";
  rule_event = price_above;
  threshold = codes "100.50";
}

-- The price rises from below the threshold to it.
abbrev rise : NotificationRuleEvent
rise = record {
  kind = metric price (some (codes "100.4")) (codes "100.5");
  network = mainnet;
  market_id = codes "perp:0:1";
  event_account = none;
  source_id = codes "activeAssetCtx:17|1";
}

-- It stays.
abbrev rest : NotificationRuleEvent
rest = record rise { kind = metric price (some (codes "100.50")) (codes "100.7") }

valid_rule : validate_rule rule ≡ ok tt
unfolding validate_rule hyper_trader.Common.is_lower_hex is_canonical_market
    hyper_trader.Common.strip_prefix hyper_trader.Decimals.is_decimal_string
valid_rule = refl

valid_event : validate_event rise ≡ ok tt
unfolding validate_event is_canonical_market hyper_trader.Common.strip_prefix
    hyper_trader.Common.is_digit hyper_trader.Decimals.is_decimal_string
valid_event = refl

met :
    evaluate_notification_rule (λ s. s) rule rise
    ≡ ok (
        some (record {
          event_key = event_key_text rule rise;
          category = price_alert;
          route_hint = trade;
        }))
unfolding computed
met = refl

unmet : evaluate_notification_rule (λ s. s) rule rest ≡ ok none
unfolding computed
unmet = refl

other_markets : is_canonical_market (codes "outcome:7:2") ≡ false
unfolding is_canonical_market hyper_trader.Common.strip_prefix hyper_trader.Common.is_digit
other_markets = refl

evaluate_notification_rule-IsEvaluated_example : IsEvaluated (λ s. s) rule rise
evaluate_notification_rule-IsEvaluated_example =
    evaluate_notification_rule-IsEvaluated (λ s. s) rule rise valid_rule valid_event

same_text : event_key_text rule rise ≡ event_key_text rule rise
same_text = refl

event_key_text-IsSameKey_example : IsSameKey rule rule rise rise
event_key_text-IsSameKey_example =
    event_key_text-IsSameKey rule rule rise rise valid_rule valid_rule valid_event valid_event
      same_text

-- The request to the provider is made, and no response arrives.
abbrev no_response : Answers
no_response = record {
  after_claim = ok tt;
  started = ok tt;
  after_submission_started = ok tt;
  push_token = ok "token";
  authorization = ok 20;
  now = 10;
  response = err (plain_error "timeout");
  after_provider_response = ok tt;
  recorded = ok tt;
  recorded_late = ok tt;
}

abbrev class_of : Error → ErrorClass
class_of error = other_error

handle_claim-IsClosed_example :
    (is_closed class_of no_response (handle_claim class_of no_response initial_delivery) ≡ true)
    × (is_sent_once 10 (handle_claim class_of no_response initial_delivery).1.calls ≡ true)
handle_claim-IsClosed_example = handle_claim-IsClosed class_of no_response
