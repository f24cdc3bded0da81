-- ===== src/Rules.antt =====
-- apps/api/src/rules/evaluator.ts: whether an event of the exchange meets a notification rule. Every
-- text is the list of its code points, and a field that is `undefined` is `none`. The hash of the
-- event key is a parameter: it is computed by the platform's cryptography.
pub mod Judged
pub mod Matches
pub mod Keys
use Prim.Native.Nat.{Ordering}
use hyper_trader.Common.{
  ℕ, Bool, true, false, not, ◌&&◌, ◌||◌, Option, none, some, List, [], ◌∷◌, ◌++◌, leb, ◌==◌,
  if◌then◌else◌, Result, ok, plain_error, throw_if, ◌>>=◌, ◌>>◌, codes, codes_eq, opt_eq, is_some,
  is_none, is_digit, is_lower_hex, all, length, strip_prefix,
}
use hyper_trader.Decimals.{digit_zero, is_whole, is_decimal_string, compare_exact_decimals}

pub data Scope : Type 0 where
  price_scope account_scope : Scope

pub data EventType : Type 0 where
  fill cancellation rejection price_above price_below funding_above funding_below : EventType
  margin_risk liquidation_risk : EventType

pub data Metric : Type 0 where
  price funding margin liquidation : Metric

pub data Network : Type 0 where
  testnet mainnet : Network

pub record NotificationRuleRecord : Type 0 where
  pub rule_id : List ℕ
  pub identity_digest : List ℕ
  pub installation_id : List ℕ
  pub account_link_id : Option (List ℕ)
  pub rule_scope : Scope
  pub rule_network : Network
  pub rule_market : List ℕ
  pub rule_event : EventType
  pub threshold : List ℕ

-- What the two kinds of event do not share; an execution is a fill, a cancellation or a rejection.
pub data EventKind : Type 0 where
  execution : (event_type : EventType) → EventKind
  metric : Metric → (previous : Option (List ℕ)) (current : List ℕ) → EventKind

pub record NotificationRuleEvent : Type 0 where
  pub kind : EventKind
  pub network : Network
  pub market_id : List ℕ
  pub event_account : Option (List ℕ)
  pub source_id : List ℕ

pub data Category : Type 0 where
  execution_alert risk_alert price_alert funding_alert : Category

pub data RouteHint : Type 0 where
  trade portfolio : RouteHint

pub record NotificationRuleMatch : Type 0 where
  pub event_key : List ℕ
  pub category : Category
  pub route_hint : RouteHint

-- `^[0-9a-f]{n}$` and `^[\x21-\x7e]{1,256}$`
abbrev pub is_hex_text : ℕ → List ℕ → Bool
is_hex_text n s = (length s == n) && all is_lower_hex s

abbrev pub is_visible : ℕ → Bool
is_visible c = leb b'!' c && leb c b'~'

abbrev pub is_source_id : List ℕ → Bool
is_source_id s = (leb 1 (length s) && leb (length s) 256) && all is_visible s

-- The parts before and after the first colon.
abbrev pub before_colon : List ℕ → List ℕ
before_colon [] = []
before_colon (c ∷ s) = let rest = before_colon s in if c == b':' then [] else c ∷ rest

abbrev pub after_colon : List ℕ → Option (List ℕ)
after_colon [] = none
after_colon (c ∷ s) = let rest = after_colon s in if c == b':' then some s else rest

-- `0|[1-9][0-9]*`, and a pair of them or of one and `[01]` with a colon between.
abbrev pub is_index : List ℕ → Bool
is_index = is_whole

abbrev pub is_side : List ℕ → Bool
is_side s = codes_eq s (digit_zero ∷ []) || codes_eq s (b'1' ∷ [])

abbrev pub is_last : (List ℕ → Bool) → Option (List ℕ) → Bool
is_last test none = false
is_last test (some s) = test s

abbrev pub is_pair : (List ℕ → Bool) → List ℕ → Bool
is_pair test s = is_index (before_colon s) && is_last test (after_colon s)

-- `^prefix`, and a test of what follows it.
abbrev pub follows : List ℕ → (List ℕ → Bool) → List ℕ → Bool
follows start test s = let (rest, found) = strip_prefix start s in found && test rest

unfoldable pub is_canonical_market : List ℕ → Bool
is_canonical_market s =
    follows (codes "perp:") (is_pair is_index) s
    || (follows (codes "spot:") is_index s || follows (codes "outcome:") (is_pair is_side) s)

abbrev pub is_account_link : Option (List ℕ) → Bool
is_account_link none = false
is_account_link (some link) = is_hex_text 32 link

-- What the scope of a rule asks of its account.
abbrev pub has_bad_account : Scope → Option (List ℕ) → Bool
has_bad_account account_scope link = not (is_account_link link)
has_bad_account price_scope link = is_some link

unfoldable pub validate_rule : NotificationRuleRecord → Result (Unit {0})
validate_rule rule =
    throw_if
      (not (is_hex_text 32 rule.rule_id)
        || (not (is_hex_text 64 rule.identity_digest)
            || (not (is_hex_text 32 rule.installation_id)
                || (not (is_canonical_market rule.rule_market)
                    || (not (is_decimal_string rule.threshold)
                        || has_bad_account rule.rule_scope rule.account_link_id)))))
      (plain_error "notification rule is invalid")

abbrev pub has_bad_decimal : EventKind → Bool
has_bad_decimal (execution _) = false
has_bad_decimal (metric _ none current) = not (is_decimal_string current)
has_bad_decimal (metric _ (some previous) current) =
    not (is_decimal_string current) || not (is_decimal_string previous)

unfoldable pub validate_event : NotificationRuleEvent → Result (Unit {0})
validate_event event = do
  throw_if
      (not (is_canonical_market event.market_id)
        || (not (is_source_id event.source_id)
            || (is_some event.event_account && not (is_account_link event.event_account))))
      (plain_error "notification event is invalid")
  throw_if (has_bad_decimal event.kind) (plain_error "notification decimal is invalid")

abbrev pub network_eq : Network → Network → Bool
network_eq testnet testnet = true
network_eq mainnet mainnet = true
network_eq _ _ = false

-- The account of an event that the scope of a rule keeps out.
abbrev pub is_other_account : Scope → Option (List ℕ) → Option (List ℕ) → Bool
is_other_account account_scope link account = not (opt_eq codes_eq link account)
is_other_account price_scope link account = is_some account

abbrev pub is_elsewhere : NotificationRuleRecord → NotificationRuleEvent → Bool
is_elsewhere rule event =
    not (network_eq rule.rule_network event.network)
    || (not (codes_eq rule.rule_market event.market_id)
        || is_other_account rule.rule_scope rule.account_link_id event.event_account)

-- `===` on event types, by their places in the type.
abbrev pub event_index : EventType → ℕ
event_index fill = 0
event_index cancellation = 1
event_index rejection = 2
event_index price_above = 3
event_index price_below = 4
event_index funding_above = 5
event_index funding_below = 6
event_index margin_risk = 7
event_index liquidation_risk = 8

abbrev pub event_type_eq : EventType → EventType → Bool
event_type_eq first second = event_index first == event_index second

pub data Direction : Type 0 where
  upward downward : Direction

abbrev pub rule_direction : EventType → Metric → Option Direction
rule_direction price_above price = some upward
rule_direction price_below price = some downward
rule_direction funding_above funding = some upward
rule_direction funding_below funding = some downward
rule_direction margin_risk margin = some upward
rule_direction liquidation_risk liquidation = some downward
rule_direction _ _ = none

-- The orders of the last value and of this one against the threshold.
abbrev pub is_crossing : Direction → Ordering → Ordering → Bool
is_crossing upward Ordering.lt Ordering.lt = false
is_crossing upward Ordering.lt _ = true
is_crossing downward Ordering.gt Ordering.gt = false
is_crossing downward Ordering.gt _ = true
is_crossing _ _ _ = false

abbrev pub metric_category : Metric → Category
metric_category price = price_alert
metric_category funding = funding_alert
metric_category _ = risk_alert

abbrev pub metric_route : Metric → RouteHint
metric_route price = trade
metric_route _ = portfolio

-- The category and the route of what an event of a kind meets, if it meets the rule.
unfoldable pub judge_metric :
    Option Direction → Metric → List ℕ → List ℕ → List ℕ → Result (Option (Category × RouteHint))
judge_metric none quantity previous current threshold = ok none
judge_metric (some direction) quantity previous current threshold = do
  before ← compare_exact_decimals previous threshold
  now ← compare_exact_decimals current threshold
  ok (
      if is_crossing direction before now
      then some (metric_category quantity, metric_route quantity)
      else none)

unfoldable pub judge : NotificationRuleRecord → EventKind → Result (Option (Category × RouteHint))
judge rule (execution event_type) =
    ok
      (if event_type_eq rule.rule_event event_type then some (execution_alert, portfolio) else none)
judge rule (metric quantity none current) = ok none
judge rule (metric quantity (some previous) current) =
    judge_metric (rule_direction rule.rule_event quantity) quantity previous current rule.threshold

-- `.join("|")`
abbrev pub join : List (List ℕ) → List ℕ
join [] = []
join (s ∷ []) = s
join (s ∷ t ∷ rest) = s ++ b'|' ∷ join (t ∷ rest)

abbrev pub network_text : Network → List ℕ
network_text testnet = codes "testnet"
network_text mainnet = codes "mainnet"

abbrev pub account_text : Option (List ℕ) → List ℕ
account_text none = codes "public"
account_text (some account) = account

unfoldable pub event_key_text : NotificationRuleRecord → NotificationRuleEvent → List ℕ
event_key_text rule event = join (
    codes "notification-event/v1"
    ∷ rule.rule_id
    ∷ rule.identity_digest
    ∷ network_text event.network
    ∷ event.market_id
    ∷ account_text event.event_account
    ∷ event.source_id
    ∷ [])

module _ (sha256_hex : List ℕ → List ℕ) where
  abbrev pub matched :
      NotificationRuleRecord
      → NotificationRuleEvent
      → Option (Category × RouteHint)
      → Option NotificationRuleMatch
  matched rule event none = none
  matched rule event (some (category, route)) = some (record {
    event_key = sha256_hex (event_key_text rule event);
    category = category;
    route_hint = route;
  })

  unfoldable pub evaluate_notification_rule :
      NotificationRuleRecord → NotificationRuleEvent → Result (Option NotificationRuleMatch)
  evaluate_notification_rule rule event = do
    validate_rule rule
    validate_event event
    verdict ← (if is_elsewhere rule event then ok none else judge rule event.kind)
    ok (matched rule event verdict)
