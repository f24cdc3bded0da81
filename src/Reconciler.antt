-- ===== src/Reconciler.antt =====
-- apps/mobile/src/features/actions/reconciler.ts: a submitted action is claimed, evidence of it is
-- read, and what that evidence decides is stored. While the code waits, others call the repositories:
-- every await comes with the calls that are made meanwhile. What the clock shows when it is read, and
-- what the evidence source answers, are inputs too.
pub mod Delays
pub mod Stored
pub mod Shown
pub mod Later
pub mod Live
use hyper_trader.Common.{
  ℕ, ◌+◌, ◌-◌, ◌*◌, ◌^◌, min, Bool, true, false, not, ◌||◌, String, Option, none, some, List, [],
  ◌∷◌, ltb, if◌then◌else◌, Number, pos, natural, is_safe_integer, Result, ok, err, type_error,
}
use hyper_trader.Common.Runs.{Run, passed, ◌>>=◌, ◌>>◌, return, query, meanwhile}
use hyper_trader.Journal.{
  PreparedActionRecord, JournalState, JournalResultClass, reconciled_ambiguous, submission_started,
  is_terminal_journal_state, state_eq,
}
use hyper_trader.Policy.{
  ReconciliationRecord, ReconciliationEvidence, ReconciliationDecision, terminal, unresolved,
  incomplete_evidence, decide_reconciliation,
}
use hyper_trader.Persistence.Tables.{Database}
use hyper_trader.Persistence.Actions.{Repository, get_action, transition_action}
use hyper_trader.Persistence.Leases.{
  ReconciliationLease, Claim, claim_reconciliation_lease, claim_next_reconciliation,
  renew_reconciliation_lease, schedule_reconciliation,
}
use hyper_trader.Persistence.Signers.{External}
use hyper_trader.Persistence.Calls.{Call, run}

-- `decideReconciliation` reads these fields of the record.
abbrev pub reconciliation_record : PreparedActionRecord → ReconciliationRecord
reconciliation_record row = record {
  network = row.network;
  master_account = row.master_account;
  target_account = row.target_account;
  action_type = row.action_type;
  asset_id = row.asset_id;
  cloid = row.cloid;
  target_oid = row.target_oid;
  expires_after_ms = pos row.expires_after_ms;
  normalized_secret_free_intent = row.normalized_secret_free_intent;
}

pub data ActionReconcilerResult : Type 0 where
  decided : ReconciliationDecision → ActionReconcilerResult
  lease_lost not_reconcilable : ActionReconcilerResult
  already_terminal : JournalState → ActionReconcilerResult

-- When a record that has been tried some number of times is tried again.
abbrev pub delay_after : ℕ → ℕ
delay_after attempts = min 30_000 (1_000 * 2 ^ min attempts 5)

unfoldable pub next_attempt : (attempts expires now : ℕ) → ℕ
next_attempt attempts expires now =
    if ltb now (expires + 1_000)
    then min (now + delay_after attempts) (expires + 1_000)
    else min (now + delay_after attempts) (now + 1_000)

-- The states that end an action; no other is decided.
abbrev pub result_class : JournalState → Option JournalResultClass
result_class reconciled_ambiguous = some JournalResultClass.ambiguous
result_class JournalState.accepted = some JournalResultClass.accepted
result_class JournalState.rejected = some JournalResultClass.rejected
result_class JournalState.expired = some JournalResultClass.expired
result_class _ = none

-- `ReconciledActionPhase`, which has the classes of the terminal states for its names.
abbrev pub terminal_phase : JournalState → Option JournalResultClass
terminal_phase reconciled_ambiguous = some JournalResultClass.ambiguous
terminal_phase JournalState.accepted = some JournalResultClass.accepted
terminal_phase JournalState.rejected = some JournalResultClass.rejected
terminal_phase JournalState.expired = some JournalResultClass.expired
terminal_phase _ = none

abbrev pub is_submitted : JournalState → Bool
is_submitted state = state_eq state submission_started || state_eq state JournalState.unresolved

-- What the evidence source answers, or `none` where it throws, and what others call until it does.
pub record Load : Type 0 where
  pub answer : Option ReconciliationEvidence
  pub others : List Call

-- One turn of the loop of `createActionReconciliationPort`: whether it is to go on, before and after
-- the wait until the record is due; what others call while it waits, there and when the lease is
-- lost; and what `reconcile` meets.
pub record Attempt : Type 0 where
  pub goes_on : Bool
  pub waited : List Call
  pub still_goes_on : Bool
  pub claimed_at : Number
  pub load : Load
  pub now : Number
  pub retry_wait : List Call

-- What a turn comes to: the answer of the loop, or the next turn.
pub data Turn : Type 0 where
  answered : Option JournalResultClass → Turn
  again : Turn

module _ (x : External) (owner : String) where
  abbrev pub schedule_held :
      PreparedActionRecord
      → Number
      → Option ReconciliationLease
      → Run Repository ActionReconcilerResult
  schedule_held row now none = return lease_lost
  schedule_held row now (some _) = do
    schedule_reconciliation row.journal_id owner now
        (pos (next_attempt row.reconciliation_attempts row.expires_after_ms (natural now)))
    return (decided (unresolved incomplete_evidence))

  unfoldable pub schedule_after_failure :
      PreparedActionRecord → ReconciliationLease → Number → Run Repository ActionReconcilerResult
  schedule_after_failure row lease now = do
    renewed ← renew_reconciliation_lease lease now none
    schedule_held row now renewed

  -- What is stored of a decision.
  abbrev pub store_decision :
      PreparedActionRecord → Number → ReconciliationDecision → Run Repository PreparedActionRecord
  store_decision row now (unresolved reason) =
      schedule_reconciliation row.journal_id owner now
        (pos (next_attempt row.reconciliation_attempts row.expires_after_ms (natural now)))
  store_decision row now (terminal state) =
      transition_action row.journal_id state (result_class state) now

  abbrev pub decide_held :
      PreparedActionRecord
      → ReconciliationEvidence
      → Number
      → Option ReconciliationLease
      → Run Repository ActionReconcilerResult
  decide_held row evidence now none = return lease_lost
  decide_held row evidence now (some _) = do
    decision ← query (λ _. decide_reconciliation x.get_address (reconciliation_record row) evidence)
    store_decision row now decision
    return (decided decision)

  abbrev pub after_load :
      PreparedActionRecord
      → ReconciliationLease
      → Number
      → Option ReconciliationEvidence
      → Run Repository ActionReconcilerResult
  after_load row lease now none = schedule_after_failure row lease now
  after_load row lease now (some evidence) = do
    renewed ← renew_reconciliation_lease lease now none
    decide_held row evidence now renewed

  -- `now` is what the clock shows after the load.
  unfoldable pub reconcile_claim :
      PreparedActionRecord
      → ReconciliationLease
      → Load
      → Number
      → Run Repository ActionReconcilerResult
  reconcile_claim row lease load now = do
    meanwhile (run x load.others)
    after_load row lease now load.answer

  abbrev pub reconcile_leased :
      PreparedActionRecord
      → Load
      → Number
      → Option ReconciliationLease
      → Run Repository ActionReconcilerResult
  reconcile_leased row load now none = return lease_lost
  reconcile_leased row load now (some lease) = reconcile_claim row lease load now

  abbrev pub reconcile_found :
      Number → Load → Number → Option PreparedActionRecord → Run Repository ActionReconcilerResult
  reconcile_found claimed_at load now none = return not_reconcilable
  reconcile_found claimed_at load now (some row) =
      if is_terminal_journal_state row.state
      then return (already_terminal row.state)
      else if not (is_submitted row.state)
      then return not_reconcilable
      else (do
        lease ← claim_reconciliation_lease row.journal_id owner claimed_at none
        reconcile_leased row load now lease)

  unfoldable pub reconcile : String → Number → Load → Number → Run Repository ActionReconcilerResult
  reconcile id claimed_at load now = do
    row ← query (λ repo. get_action id repo.database)
    reconcile_found claimed_at load now row

  abbrev pub reconcile_taken :
      Load → Number → Option Claim → Run Repository (Option ActionReconcilerResult)
  reconcile_taken load now none = return none
  reconcile_taken load now (some claim) = do
    result ← reconcile_claim claim.0 claim.1 load now
    return (some result)

  unfoldable pub reconcile_next :
      Number → Load → Number → Run Repository (Option ActionReconcilerResult)
  reconcile_next claimed_at load now = do
    claim ← claim_next_reconciliation owner claimed_at none
    reconcile_taken load now claim

  abbrev pub turn_result : Attempt → ActionReconcilerResult → Run Repository Turn
  turn_result attempt (decided (terminal state)) = return (answered (result_class state))
  turn_result attempt (already_terminal state) = return (answered (terminal_phase state))
  turn_result attempt not_reconcilable = return (answered none)
  turn_result attempt lease_lost = do meanwhile (run x attempt.retry_wait); return again
  turn_result attempt (decided (unresolved reason)) = return again

  abbrev pub turn_due : String → Attempt → Run Repository Turn
  turn_due id attempt = if not attempt.still_goes_on then return (answered none) else (do
    result ← reconcile id attempt.claimed_at attempt.load attempt.now
    turn_result attempt result)

  abbrev pub turn_open :
      String → Attempt → JournalState → Option JournalResultClass → Run Repository Turn
  turn_open id attempt state (some phase) = return (answered (some phase))
  turn_open id attempt state none =
      if not (is_submitted state)
      then return (answered none)
      else (do meanwhile (run x attempt.waited); turn_due id attempt)

  abbrev pub turn_found : String → Attempt → Option PreparedActionRecord → Run Repository Turn
  turn_found id attempt none = return (answered none)
  turn_found id attempt (some row) = turn_open id attempt row.state (terminal_phase row.state)

  unfoldable pub turn : String → Attempt → Run Repository Turn
  turn id attempt =
      if not attempt.goes_on
      then return (answered none)
      else (do row ← query (λ repo. get_action id repo.database); turn_found id attempt row)

  abbrev pub after_turn :
      Run Repository (Option JournalResultClass) → Turn → Run Repository (Option JournalResultClass)
  after_turn rest (answered phase) = return phase
  after_turn rest again = rest

  -- `reconcile` of the port, with one entry for each of its `maxAttempts` turns.
  unfoldable pub reconcile_action :
      String → List Attempt → Run Repository (Option JournalResultClass)
  reconcile_action id [] = return none
  reconcile_action id (attempt ∷ rest) = turn id attempt >>= after_turn (reconcile_action id rest)
