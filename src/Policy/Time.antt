-- ===== src/Policy/Time.antt =====
-- Verdicts for every type of action, and the same evidence read at another time.
use hyper_trader.Common.{
  ℕ, ◌≡◌, ◌≤◌, ◌<◌, false, String, Option, arith, natural, pos, ok, max_safe_integer,
}
use hyper_trader.Journal.{JournalActionType, JournalState, expired, market_order}
use hyper_trader.Policy.{
  ReconciliationRecord, ReconciliationEvidence, terminal, has_acceptance, has_rejection,
  at_or_after_expiry, create_verdict, decide_create, decide_close, decide_cancel, decide_leverage,
  decide_action, decide_reconciliation, assert_context, safe_time,
}
use hyper_trader.Policy.Context.{assert_context-IsSameContext}
use hyper_trader.Policy.Verdicts.{IsJudged}

expired_action :
    (t : JournalActionType) (r : ReconciliationRecord) (evidence : ReconciliationEvidence)
    → decide_action t r evidence ≡ ok (terminal expired)
    → (natural r.expires_after_ms < natural evidence.server_time_ms)
      × (evidence.definitive_rejection ≡ false)
unfolding decide_action decide_create decide_close decide_cancel decide_leverage create_verdict
    has_rejection at_or_after_expiry
expired_action market_order r evidence h = ground arith
expired_action _ r evidence h = ground arith

-- A terminal decision, for any type of action, rests on evidence about the record's own context
-- that is complete and understood.
pub decide_reconciliation-terminal :
    (get_address : String → Option String) (r : ReconciliationRecord)
    (evidence : ReconciliationEvidence) (s : JournalState)
    → decide_reconciliation get_address r evidence ≡ ok (terminal s)
    → IsJudged get_address r evidence
unfolding decide_reconciliation
decide_reconciliation-terminal get_address r evidence s h = record {
  context = (assert_context-IsSameContext get_address r evidence).0 (ground arith);
  complete = ground arith;
  understood = ground arith;
}

-- For any type of action, `expired` is decided only when the server's clock has passed the expiry,
-- and never against a definitive rejection.
pub decide_reconciliation-expired :
    (get_address : String → Option String) (r : ReconciliationRecord)
    (evidence : ReconciliationEvidence)
    → decide_reconciliation get_address r evidence ≡ ok (terminal expired)
    → (natural r.expires_after_ms < natural evidence.server_time_ms)
      × (evidence.definitive_rejection ≡ false)
unfolding decide_reconciliation
decide_reconciliation-expired get_address r evidence h =
    expired_action r.action_type r evidence (ground arith)

-- The same evidence, read when the server's clock shows n.
abbrev pub at_time : ReconciliationEvidence → ℕ → ReconciliationEvidence
at_time evidence n = record evidence { server_time_ms = pos n }

later_action :
    (t : JournalActionType) (r : ReconciliationRecord) (evidence : ReconciliationEvidence) (n m : ℕ)
    {s : JournalState}
    → n ≤ m
    → decide_action t r (at_time evidence n) ≡ ok (terminal s)
    → decide_action t r (at_time evidence m) ≡ ok (terminal s)
unfolding decide_action decide_create decide_close decide_cancel decide_leverage create_verdict
    has_acceptance has_rejection at_or_after_expiry
later_action market_order r evidence n m l h = ground arith
later_action _ r evidence n m l h = ground arith

-- A terminal decision stands: the same evidence read at any later time that is a safe integer gives
-- it again.
pub decide_reconciliation-at_time :
    (get_address : String → Option String) (r : ReconciliationRecord)
    (evidence : ReconciliationEvidence) (n m : ℕ) {s : JournalState}
    → n ≤ m
    → m ≤ max_safe_integer
    → decide_reconciliation get_address r (at_time evidence n) ≡ ok (terminal s)
    → decide_reconciliation get_address r (at_time evidence m) ≡ ok (terminal s)
unfolding decide_reconciliation assert_context safe_time
decide_reconciliation-at_time get_address r evidence n m {s} l k h =
    ground (arith, later_action r.action_type r evidence n m {s = s} l)
