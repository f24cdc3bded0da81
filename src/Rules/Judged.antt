-- ===== src/Rules/Judged.antt =====
-- What a rule asks of an event, and when the evaluator finds that it is met.
use Prim.Native.Nat.{compare}
use hyper_trader.Common.{
  ℕ, ◌+◌, ◌<◌, ◌≡◌, ◌↔◌, refl, sym, ap, ◌∙◌, subst, Bool, true, false, Option, none, some, List, [],
  ◌∷◌, drop, arith, ok, codes_eq_iff, ==_iff, if◌then◌else◌,
}
use hyper_trader.Decimals.{is_decimal_string}
use hyper_trader.Decimals.Compare.{above, below, compare_exact_decimals-value}
use hyper_trader.Rules.{
  Scope, price_scope, account_scope, EventType, Metric, Network, testnet, mainnet,
  NotificationRuleRecord, NotificationRuleEvent, EventKind, execution, metric, Category,
  price_alert, funding_alert, risk_alert, price, funding, margin, liquidation, trade,
  execution_alert, RouteHint, portfolio, is_elsewhere, is_other_account, network_eq, event_type_eq,
  event_index, fill, cancellation, rejection, price_above, price_below, funding_above,
  funding_below, margin_risk, liquidation_risk, Direction, upward, downward, rule_direction,
  is_crossing, metric_category, metric_route, judge_metric, judge, has_bad_decimal,
}

-- The order of two decimals as fractions: those below zero are moved to the other side.
abbrev pub IsBelow : List ℕ → List ℕ → Type 0
IsBelow a b = above a b + below b a < above b a + below a b

-- The value was below the threshold and no longer is, or was above it and no longer is.
abbrev pub HasRisen : (previous current threshold : List ℕ) → Type 0
HasRisen previous current threshold = IsBelow previous threshold × ¬ IsBelow current threshold

abbrev pub HasFallen : (previous current threshold : List ℕ) → Type 0
HasFallen previous current threshold = IsBelow threshold previous × ¬ IsBelow threshold current

-- What each type of rule asks of a quantity; the other types of rule ask nothing of it.
abbrev pub IsTriggered : EventType → Metric → (previous current threshold : List ℕ) → Type 0
IsTriggered price_above price p c t = HasRisen p c t
IsTriggered price_below price p c t = HasFallen p c t
IsTriggered funding_above funding p c t = HasRisen p c t
IsTriggered funding_below funding p c t = HasFallen p c t
IsTriggered margin_risk margin p c t = HasRisen p c t
IsTriggered liquidation_risk liquidation p c t = HasFallen p c t
IsTriggered _ _ p c t = ⊥

-- What the rule asks of the kind of an event.
abbrev pub IsMet : NotificationRuleRecord → EventKind → Type 0
IsMet rule (execution event_type) = rule.rule_event ≡ event_type
IsMet rule (metric quantity none current) = ⊥
IsMet rule (metric quantity (some previous) current) =
    IsTriggered rule.rule_event quantity previous current rule.threshold

-- The account that a rule of a scope is about: its own, or none.
abbrev pub IsAccountOf : Scope → Option (List ℕ) → Option (List ℕ) → Type 0
IsAccountOf account_scope link account = link ≡ account
IsAccountOf price_scope link account = account ≡ none

pub record IsAbout (rule : NotificationRuleRecord) (event : NotificationRuleEvent) : Type 0 where
  pub same_network : rule.rule_network ≡ event.network
  pub same_market : rule.rule_market ≡ event.market_id
  pub own_account : IsAccountOf rule.rule_scope rule.account_link_id event.event_account

abbrev pub category_of : EventKind → Category
category_of (execution _) = execution_alert
category_of (metric price _ _) = price_alert
category_of (metric funding _ _) = funding_alert
category_of (metric margin _ _) = risk_alert
category_of (metric liquidation _ _) = risk_alert

abbrev pub route_of : EventKind → RouteHint
route_of (execution _) = portfolio
route_of (metric price _ _) = trade
route_of (metric funding _ _) = portfolio
route_of (metric margin _ _) = portfolio
route_of (metric liquidation _ _) = portfolio

network_eq_iff : (m n : Network) → (network_eq m n ≡ true) ↔ (m ≡ n)
network_eq_iff testnet testnet = (λ e. refl, λ e. refl)
network_eq_iff testnet mainnet = (λ e. cc, λ e. cc)
network_eq_iff mainnet testnet = (λ e. cc, λ e. cc)
network_eq_iff mainnet mainnet = (λ e. refl, λ e. refl)

is_other_account_iff :
    (scope : Scope) (link account : Option (List ℕ))
    → (is_other_account scope link account ≡ false) ↔ IsAccountOf scope link account
is_other_account_iff account_scope none none = (λ e. refl, λ e. refl)
is_other_account_iff account_scope none (some a) = (λ e. cc, λ e. cc)
is_other_account_iff account_scope (some l) none = (λ e. cc, λ e. cc)
is_other_account_iff account_scope (some l) (some a) =
    (λ e. ap some ((codes_eq_iff l a).0 (ground arith)), λ e. rw ((codes_eq_iff l a).1 (cc)) refl)
is_other_account_iff price_scope link none = (λ e. refl, λ e. refl)
is_other_account_iff price_scope link (some a) = (λ e. cc, λ e. cc)

pub is_elsewhere_iff :
    (rule : NotificationRuleRecord) (event : NotificationRuleEvent)
    → (is_elsewhere rule event ≡ false) ↔ IsAbout rule event
is_elsewhere_iff rule event =
    let n = network_eq_iff rule.rule_network event.network in
    let m = codes_eq_iff rule.rule_market event.market_id in
    let a = is_other_account_iff rule.rule_scope rule.account_link_id event.event_account in
    (
      λ e. record {
        same_network = n.0 (ground (arith, e));
        same_market = m.0 (ground (arith, e));
        own_account = a.0 (ground (arith, e));
      },
      λ h. rw (n.1 h.same_network, m.1 h.same_market, a.1 h.own_account) refl,
    )

first_event : List EventType → EventType
first_event [] = fill
first_event (e ∷ _) = e

event_at : ℕ → EventType
unfolding first_event
event_at n = first_event (
    drop n (
      fill ∷ cancellation ∷ rejection ∷ price_above ∷ price_below ∷ funding_above ∷ funding_below
      ∷ margin_risk ∷ liquidation_risk ∷ []))

event_at-event_index : (e : EventType) → event_at (event_index e) ≡ e
unfolding event_at first_event
event_at-event_index fill = refl
event_at-event_index cancellation = refl
event_at-event_index rejection = refl
event_at-event_index price_above = refl
event_at-event_index price_below = refl
event_at-event_index funding_above = refl
event_at-event_index funding_below = refl
event_at-event_index margin_risk = refl
event_at-event_index liquidation_risk = refl

event_type_eq_iff : (a b : EventType) → (event_type_eq a b ≡ true) ↔ (a ≡ b)
event_type_eq_iff a b = (
  λ e.
      sym (event_at-event_index a)
      ∙ ap event_at ((==_iff (event_index a) (event_index b)).0 e)
      ∙ event_at-event_index b,
  λ e. (==_iff (event_index a) (event_index b)).1 (ap event_index e),
)

IsPassed : Direction → ℕ → ℕ → ℕ → ℕ → Type 0
IsPassed upward a b c e = (a < b) × ¬ (c < e)
IsPassed downward a b c e = (b < a) × ¬ (e < c)

-- The crossing by the orders of two pairs of sums.
is_crossing_iff :
    (d : Direction) (a b c e : ℕ)
    → (is_crossing d (compare a b) (compare c e) ≡ true) ↔ IsPassed d a b c e
unfolding IsPassed
is_crossing_iff upward a b c e = ground arith
is_crossing_iff downward a b c e = ground arith

-- What a rule asks of a quantity whose direction the code finds, or does not find.
abbrev IsMoved : Option Direction → (previous current threshold : List ℕ) → Type 0
IsMoved none p c t = ⊥
IsMoved (some upward) p c t = HasRisen p c t
IsMoved (some downward) p c t = HasFallen p c t

rule_direction_lem :
    (e : EventType) (q : Metric) (p c t : List ℕ)
    → IsMoved (rule_direction e q) p c t ≡ IsTriggered e q p c t
rule_direction_lem fill price p c t = refl
rule_direction_lem fill funding p c t = refl
rule_direction_lem fill margin p c t = refl
rule_direction_lem fill liquidation p c t = refl
rule_direction_lem cancellation price p c t = refl
rule_direction_lem cancellation funding p c t = refl
rule_direction_lem cancellation margin p c t = refl
rule_direction_lem cancellation liquidation p c t = refl
rule_direction_lem rejection price p c t = refl
rule_direction_lem rejection funding p c t = refl
rule_direction_lem rejection margin p c t = refl
rule_direction_lem rejection liquidation p c t = refl
rule_direction_lem price_above price p c t = refl
rule_direction_lem price_above funding p c t = refl
rule_direction_lem price_above margin p c t = refl
rule_direction_lem price_above liquidation p c t = refl
rule_direction_lem price_below price p c t = refl
rule_direction_lem price_below funding p c t = refl
rule_direction_lem price_below margin p c t = refl
rule_direction_lem price_below liquidation p c t = refl
rule_direction_lem funding_above price p c t = refl
rule_direction_lem funding_above funding p c t = refl
rule_direction_lem funding_above margin p c t = refl
rule_direction_lem funding_above liquidation p c t = refl
rule_direction_lem funding_below price p c t = refl
rule_direction_lem funding_below funding p c t = refl
rule_direction_lem funding_below margin p c t = refl
rule_direction_lem funding_below liquidation p c t = refl
rule_direction_lem margin_risk price p c t = refl
rule_direction_lem margin_risk funding p c t = refl
rule_direction_lem margin_risk margin p c t = refl
rule_direction_lem margin_risk liquidation p c t = refl
rule_direction_lem liquidation_risk price p c t = refl
rule_direction_lem liquidation_risk funding p c t = refl
rule_direction_lem liquidation_risk margin p c t = refl
rule_direction_lem liquidation_risk liquidation p c t = refl

IsMoved_lem :
    (d : Direction) (previous current threshold : List ℕ)
    → IsPassed d
        (above previous threshold + below threshold previous)
        (above threshold previous + below previous threshold)
        (above current threshold + below threshold current)
        (above threshold current + below current threshold)
      ↔ IsMoved (some d) previous current threshold
unfolding IsPassed
IsMoved_lem upward previous current threshold = (λ h. h, λ h. h)
IsMoved_lem downward previous current threshold = (λ h. h, λ h. h)

-- What the judgement of an event comes to: the answer, which is given if and only if the rule asks
-- for the event.
pub record IsJudged (rule : NotificationRuleRecord) (kind : EventKind) : Type 0 where
  pub answer : Bool
  pub judged :
      judge rule kind ≡ ok (if answer then some (category_of kind, route_of kind) else none)
  pub met : (answer ≡ true) ↔ IsMet rule kind

metric_category_lem :
    (q : Metric) (previous : Option (List ℕ)) (current : List ℕ)
    → metric_category q ≡ category_of (metric q previous current)
metric_category_lem price previous current = refl
metric_category_lem funding previous current = refl
metric_category_lem margin previous current = refl
metric_category_lem liquidation previous current = refl

metric_route_lem :
    (q : Metric) (previous : Option (List ℕ)) (current : List ℕ)
    → metric_route q ≡ route_of (metric q previous current)
metric_route_lem price previous current = refl
metric_route_lem funding previous current = refl
metric_route_lem margin previous current = refl
metric_route_lem liquidation previous current = refl

judge_crossing :
    (rule : NotificationRuleRecord) (quantity : Metric) (previous current : List ℕ)
    → is_decimal_string rule.threshold ≡ true
    → is_decimal_string previous ≡ true
    → is_decimal_string current ≡ true
    → (o : Option Direction) → rule_direction rule.rule_event quantity ≡ o
    → IsJudged rule (metric quantity (some previous) current)
unfolding judge judge_metric
judge_crossing rule quantity previous current t p c none e = record {
  answer = false;
  judged = rw e refl;
  met = (λ h. cc, λ m. absurd (subst (λ T. T) (sym (asked none e)) m));
}
  where
    asked :
        (o : Option Direction)
        → rule_direction rule.rule_event quantity ≡ o
        → IsMoved o previous current rule.threshold
          ≡ IsTriggered rule.rule_event quantity previous current rule.threshold
    asked o e =
        ap (λ d. IsMoved d previous current rule.threshold) (sym e)
        ∙ rule_direction_lem rule.rule_event quantity previous current rule.threshold
judge_crossing rule quantity previous current t p c (some d) e =
    let before = compare_exact_decimals-value previous rule.threshold p t in
    let now = compare_exact_decimals-value current rule.threshold c t in
    let passed = is_crossing_iff d _ _ _ _ in
    let moved = IsMoved_lem d previous current rule.threshold in
    let asked : IsMoved (some d) previous current rule.threshold
        ≡ IsTriggered rule.rule_event quantity previous current rule.threshold =
      ap (λ o. IsMoved o previous current rule.threshold) (sym e)
      ∙ rule_direction_lem rule.rule_event quantity previous current rule.threshold in
    record {
      answer =
          is_crossing d
            (compare (above previous rule.threshold + below rule.threshold previous)
              (above rule.threshold previous + below previous rule.threshold))
            (compare (above current rule.threshold + below rule.threshold current)
              (above rule.threshold current + below current rule.threshold));
      judged =
          rw
            (
              e,
              before,
              now,
              metric_category_lem quantity (some previous) current,
              metric_route_lem quantity (some previous) current,
            )
            refl;
      met = (
        λ h. subst (λ T. T) asked (moved.0 (passed.0 h)),
        λ m. passed.1 (moved.1 (subst (λ T. T) (sym asked) m)),
      );
    }

pub judge-IsJudged :
    (rule : NotificationRuleRecord) (kind : EventKind)
    → is_decimal_string rule.threshold ≡ true
    → has_bad_decimal kind ≡ false
    → IsJudged rule kind
unfolding judge
judge-IsJudged rule (execution event_type) t h = record {
  answer = event_type_eq rule.rule_event event_type;
  judged = refl;
  met = event_type_eq_iff rule.rule_event event_type;
}
judge-IsJudged rule (metric quantity none current) t h = record {
  answer = false;
  judged = refl;
  met = (λ e. cc, λ n. absurd n);
}
judge-IsJudged rule (metric quantity (some previous) current) t h =
    judge_crossing rule quantity previous current t (ground arith) (ground arith) _ refl
