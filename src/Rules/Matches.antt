-- ===== src/Rules/Matches.antt =====
-- What the rules match, against the numbers that their texts stand for.
use hyper_trader.Rules.Judged.{
  IsMet, IsAbout, category_of, route_of, is_elsewhere_iff, IsJudged, judge-IsJudged,
}
use hyper_trader.Common.{
  ℕ, ◌≡◌, ◌↔◌, refl, Bool, true, false, Option, none, some, List, arith, ok, throw_if, >>-eq-ok,
  throw_if-eq-ok,
}
use hyper_trader.Decimals.{is_decimal_string}
use hyper_trader.Rules.{
  NotificationRuleRecord, NotificationRuleEvent, NotificationRuleMatch, validate_rule,
  validate_event, is_elsewhere, event_key_text, evaluate_notification_rule, has_bad_decimal,
}

abbrev pub alert :
    (List ℕ → List ℕ) → NotificationRuleRecord → NotificationRuleEvent → NotificationRuleMatch
alert sha256_hex rule event = record {
  event_key = sha256_hex (event_key_text rule event);
  category = category_of event.kind;
  route_hint = route_of event.kind;
}

-- An evaluation has a result, and it is a match m if and only if the rule is about the event, asks
-- for it, and m is the alert.
pub record IsEvaluated (sha256_hex : List ℕ → List ℕ) (rule : NotificationRuleRecord)
    (event : NotificationRuleEvent) : Type 0 where
  pub result : Option NotificationRuleMatch
  pub evaluated : evaluate_notification_rule sha256_hex rule event ≡ ok result
  pub match_iff :
      (m : NotificationRuleMatch)
      → (result ≡ some m)
        ↔ IsAbout rule event × IsMet rule event.kind × (m ≡ alert sha256_hex rule event)

some_eq_iff : {A : Type 0} {a m : A} → (some a ≡ some m) ↔ (m ≡ a)
some_eq_iff = (λ e. cc, λ e. cc)

true_and_false : {b : Bool} {A : Type 0} → b ≡ true → b ≡ false → A
true_and_false t f = cc

evaluated_lem :
    (sha256_hex : List ℕ → List ℕ) (rule : NotificationRuleRecord) (event : NotificationRuleEvent)
    → validate_rule rule ≡ ok tt
    → validate_event event ≡ ok tt
    → (j : IsJudged rule event.kind) → (elsewhere answer : Bool)
    → is_elsewhere rule event ≡ elsewhere
    → j.answer ≡ answer
    → IsEvaluated sha256_hex rule event
unfolding evaluate_notification_rule
evaluated_lem sha256_hex rule event v w j true _ e a = record {
  result = none;
  evaluated = rw (v, w, e) refl;
  match_iff =
      λ m. (λ h. cc, λ (about, _, _). true_and_false e ((is_elsewhere_iff rule event).1 about));
}
evaluated_lem sha256_hex rule event v w j false false e a = record {
  result = none;
  evaluated = rw (v, w, e, j.judged, a) refl;
  match_iff = λ m. (λ h. cc, λ (_, met, _). true_and_false (j.met.1 met) a);
}
evaluated_lem sha256_hex rule event v w j false true e a = record {
  result = some (alert sha256_hex rule event);
  evaluated = rw (v, w, e, j.judged, a) refl;
  match_iff = λ m. (
    λ h. ((is_elsewhere_iff rule event).0 e, j.met.0 a, some_eq_iff.0 h),
    λ (_, _, same). some_eq_iff.1 same,
  );
}

threshold_valid :
    (rule : NotificationRuleRecord)
    → validate_rule rule ≡ ok tt
    → is_decimal_string rule.threshold ≡ true
unfolding validate_rule
threshold_valid rule h = ground (arith, throw_if-eq-ok _ _ h)

decimals_valid :
    (event : NotificationRuleEvent)
    → validate_event event ≡ ok tt
    → has_bad_decimal event.kind ≡ false
unfolding validate_event
decimals_valid event h = throw_if-eq-ok _ _ ((>>-eq-ok (throw_if _ _) _ h).1)

-- The evaluation of a valid event against a valid rule has a result. It is a match if and only if
-- the networks and the markets are the same, the event has the rule's account (for a rule on prices:
-- none), and the event is of the rule's type: an execution of that type, or a metric of it whose
-- value was strictly on one side of the threshold and now is at it or on the other side, compared as
-- exact fractions. The match is the alert with the event's category, route and key.
pub evaluate_notification_rule-IsEvaluated :
    (sha256_hex : List ℕ → List ℕ) (rule : NotificationRuleRecord) (event : NotificationRuleEvent)
    → validate_rule rule ≡ ok tt
    → validate_event event ≡ ok tt
    → IsEvaluated sha256_hex rule event
evaluate_notification_rule-IsEvaluated sha256_hex rule event v w =
    let j = judge-IsJudged rule event.kind (threshold_valid rule v) (decimals_valid event w) in
    evaluated_lem sha256_hex rule event v w j _ _ refl refl
