-- ===== src/Policy/Verdicts.antt =====
-- What a verdict about an action that creates an order rests on.
use hyper_trader.Common.{
  ◌≡◌, ◌↔◌, ◌<◌, Bool, true, false, String, Option, arith, is_none, natural, ok, refl, ◌∙◌,
}
use hyper_trader.Journal.{
  JournalActionType, market_order, limit_order, position_tpsl, accepted, JournalState, expired,
  reconciled_ambiguous,
}
use hyper_trader.Policy.{
  ReconciliationRecord, ReconciliationEvidence, ReconciliationDecision, terminal, unresolved,
  create_verdict, before_expiry, has_acceptance, has_rejection, at_or_after_expiry, decide_create,
  decide_action, decide_reconciliation, is_malformed,
}
use hyper_trader.Policy.Context.{IsSameContext, assert_context-IsSameContext}
use hyper_trader.Policy.Evidence.{
  IsReported, IsRefused, has_acceptance-IsReported, has_rejection-IsRefused,
}

abbrev pub IsCreate : JournalActionType → Type 0
IsCreate market_order = Unit
IsCreate limit_order = Unit
IsCreate position_tpsl = Unit
IsCreate _ = ⊥

-- Evidence that may be judged: about the record's context, complete and understood.
pub record IsJudged (get_address : String → Option String) (r : ReconciliationRecord)
    (evidence : ReconciliationEvidence) : Type 0 where
  pub context : IsSameContext get_address r evidence
  pub complete : evidence.complete ≡ true
  pub understood : is_malformed evidence.order ≡ false

-- The verdicts on an order that was to be created, by whether the exchange has reported it, has
-- refused it, and by whether its time is past.
pub record IsVerdict (Reported Refused Past : Type 0) (decision : ReconciliationDecision)
    : Type 0 where
  pub is_accepted : (decision ≡ terminal accepted) ↔ (Reported × ¬ Refused)
  pub is_rejected : (decision ≡ terminal JournalState.rejected) ↔ (Refused × ¬ Reported)
  pub is_ambiguous : (decision ≡ terminal reconciled_ambiguous) ↔ (Reported × Refused)
  pub is_expired : (decision ≡ terminal expired) ↔ ((¬ Reported) × (¬ Refused) × Past)
  pub is_early : (decision ≡ unresolved before_expiry) ↔ ((¬ Reported) × (¬ Refused) × ¬ Past)

create_verdict-IsVerdict :
    {P Q R : Type 0} (a b c : Bool)
    → (a ≡ true) ↔ P
    → (b ≡ true) ↔ Q
    → (c ≡ true) ↔ R
    → IsVerdict P Q R (create_verdict a b c)
unfolding create_verdict
create_verdict-IsVerdict a b c p q r = record {
  is_accepted = (λ e. ground (arith, p.0), λ e. ground arith);
  is_rejected = (λ e. ground arith, λ e. ground arith);
  is_ambiguous = (λ e. ground arith, λ e. ground arith);
  is_expired = (λ e. ground arith, λ e. ground arith);
  is_early = (λ e. ground arith, λ e. ground arith);
}

decide_action-create :
    (t : JournalActionType) (r : ReconciliationRecord) (evidence : ReconciliationEvidence)
    → IsCreate t
    → decide_action t r evidence ≡ decide_create r evidence
unfolding decide_action
decide_action-create market_order r evidence h = refl
decide_action-create limit_order r evidence h = refl
decide_action-create position_tpsl r evidence h = refl
decide_action-create _ r evidence h = absurd h

-- Evidence that may be judged is, by the rules for the action's type.
pub decide_reconciliation-IsJudged :
    (get_address : String → Option String) (r : ReconciliationRecord)
    (evidence : ReconciliationEvidence)
    → IsJudged get_address r evidence
    → decide_reconciliation get_address r evidence ≡ decide_action r.action_type r evidence
unfolding decide_reconciliation
decide_reconciliation-IsJudged get_address r evidence j =
    rw ((assert_context-IsSameContext get_address r evidence).1 j.context, j.complete, j.understood)

-- For an order placed by its client order ID, evidence about its own context that is complete and
-- understood always gives a decision: accepted if the exchange has only reported it, rejected if
-- it has only refused it, ambiguous if both; if neither, expired once the server's clock has passed
-- the expiry, and unresolved before.
pub decide_reconciliation-IsVerdict :
    (get_address : String → Option String) (r : ReconciliationRecord)
    (evidence : ReconciliationEvidence)
    → IsCreate r.action_type
    → is_none r.cloid ≡ false
    → IsJudged get_address r evidence
    → (decision : ReconciliationDecision) × (decide_reconciliation get_address r evidence
        ≡ ok decision)
      × IsVerdict
          (IsReported r evidence)
          (IsRefused r evidence)
          (natural r.expires_after_ms < natural evidence.server_time_ms)
          decision
unfolding decide_create at_or_after_expiry
decide_reconciliation-IsVerdict get_address r evidence t c j = (
  create_verdict (has_acceptance r evidence) (has_rejection r evidence)
      (at_or_after_expiry r evidence),
  decide_reconciliation-IsJudged get_address r evidence j
      ∙ decide_action-create r.action_type r evidence t
      ∙ rw c,
  create_verdict-IsVerdict (has_acceptance r evidence) (has_rejection r evidence)
      (at_or_after_expiry r evidence) (has_acceptance-IsReported r evidence)
      (has_rejection-IsRefused r evidence) (λ e. ground arith, λ e. ground arith),
)
