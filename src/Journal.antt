-- ===== src/Journal.antt =====
-- packages/hyperliquid/src/reconciliation/types.ts and state.ts: the record of a prepared action,
-- its states and the transitions between them.
pub mod States
use hyper_trader.Common.{
  ℕ, Bool, true, false, not, ◌&&◌, ◌||◌, String, Option, none, some, ltb, is_some, is_none, opt_eq,
  if◌then◌else◌, Result, validation, throw_if, str_eq,
}
use hyper_trader.Json.{Fields}

-- `unsupported` is any other text that a stored row may hold.
pub data JournalActionType : Type 0 where
  market_order limit_order cancel bulk_cancel update_leverage reduce_only_close position_tpsl :
      JournalActionType
  unsupported : String → JournalActionType

pub data JournalState : Type 0 where
  prepared submission_started unresolved accepted rejected expired abandoned_before_submission
        reconciled_ambiguous :
      JournalState

pub data JournalResultClass : Type 0 where
  accepted rejected expired unresolved ambiguous : JournalResultClass

-- `===` on states and on result classes.
abbrev pub state_eq : JournalState → JournalState → Bool
state_eq prepared prepared = true
state_eq submission_started submission_started = true
state_eq JournalState.unresolved JournalState.unresolved = true
state_eq JournalState.accepted JournalState.accepted = true
state_eq JournalState.rejected JournalState.rejected = true
state_eq JournalState.expired JournalState.expired = true
state_eq abandoned_before_submission abandoned_before_submission = true
state_eq reconciled_ambiguous reconciled_ambiguous = true
state_eq _ _ = false

abbrev pub class_eq : JournalResultClass → JournalResultClass → Bool
class_eq JournalResultClass.accepted JournalResultClass.accepted = true
class_eq JournalResultClass.rejected JournalResultClass.rejected = true
class_eq JournalResultClass.expired JournalResultClass.expired = true
class_eq JournalResultClass.unresolved JournalResultClass.unresolved = true
class_eq JournalResultClass.ambiguous JournalResultClass.ambiguous = true
class_eq _ _ = false

-- `TERMINAL_JOURNAL_STATES.has(state)`
abbrev pub is_terminal_journal_state : JournalState → Bool
is_terminal_journal_state JournalState.accepted = true
is_terminal_journal_state JournalState.rejected = true
is_terminal_journal_state JournalState.expired = true
is_terminal_journal_state abandoned_before_submission = true
is_terminal_journal_state reconciled_ambiguous = true
is_terminal_journal_state _ = false

-- `PreparedActionInput` with the fields that `PreparedActionRecord` adds to it. Numbers are those
-- of SQLite's INTEGER columns, which this code writes only after it has checked that they are not
-- negative.
pub record PreparedActionRecord : Type 0 where
  pub journal_id : String
  pub correlation_id : String
  pub network : String
  pub master_account : String
  pub target_account : String
  pub agent_address : String
  pub signer_generation : ℕ
  pub captured_context_epoch : ℕ
  pub action_type : JournalActionType
  pub intent_version : ℕ
  pub normalized_secret_free_intent : Fields
  pub intent_digest : String
  pub equivalence_fingerprint : String
  pub nonce : ℕ
  pub expires_after_ms : ℕ
  pub cloid : Option String
  pub asset_id : Option ℕ
  pub target_oid : Option ℕ
  pub reconciliation_key : String
  pub prepared_at : ℕ
  pub state : JournalState
  pub submission_started_at : Option ℕ
  pub last_result_class : Option JournalResultClass
  pub lease_owner : Option String
  pub lease_expires_at : Option ℕ
  pub reconciliation_attempts : ℕ
  pub next_reconciliation_at : ℕ
  pub created_at : ℕ
  pub updated_at : ℕ

-- `ALLOWED_TRANSITIONS[current].has(next)`
abbrev pub is_allowed : JournalState → JournalState → Bool
is_allowed prepared submission_started = true
is_allowed prepared abandoned_before_submission = true
is_allowed submission_started JournalState.accepted = true
is_allowed submission_started JournalState.rejected = true
is_allowed submission_started JournalState.expired = true
is_allowed submission_started JournalState.unresolved = true
is_allowed submission_started reconciled_ambiguous = true
is_allowed JournalState.unresolved JournalState.accepted = true
is_allowed JournalState.unresolved JournalState.rejected = true
is_allowed JournalState.unresolved JournalState.expired = true
is_allowed JournalState.unresolved reconciled_ambiguous = true
is_allowed _ _ = false

-- The message leaves out the two states that the source prints in it.
unfoldable pub assert_journal_transition : JournalState → JournalState → Result (Unit {0})
assert_journal_transition current next =
    throw_if (not (is_allowed current next)) (validation "journal.state" "transition is forbidden")

unfoldable pub may_mark_submission_started : PreparedActionRecord → ℕ → Bool
may_mark_submission_started record' now =
    state_eq record'.state prepared
    && (is_none record'.submission_started_at && ltb now record'.expires_after_ms)

pub data RestartRecoveryDecision : Type 0 where
  unchanged : RestartRecoveryDecision
  transition : JournalState → RestartRecoveryDecision

unfoldable pub restart_recovery_decision : PreparedActionRecord → RestartRecoveryDecision
restart_recovery_decision record' =
    if is_terminal_journal_state record'.state || state_eq record'.state JournalState.unresolved
    then unchanged
    else if is_some record'.submission_started_at || state_eq record'.state submission_started
    then transition JournalState.unresolved
    else if state_eq record'.state prepared
    then transition abandoned_before_submission
    else unchanged

-- `RESULT_FOR_STATE`, which has an entry for every state.
abbrev pub result_for_state : JournalState → Option JournalResultClass
result_for_state prepared = none
result_for_state submission_started = none
result_for_state JournalState.unresolved = some JournalResultClass.unresolved
result_for_state JournalState.accepted = some JournalResultClass.accepted
result_for_state JournalState.rejected = some JournalResultClass.rejected
result_for_state JournalState.expired = some JournalResultClass.expired
result_for_state abandoned_before_submission = none
result_for_state reconciled_ambiguous = some JournalResultClass.ambiguous

unfoldable pub assert_journal_result_class :
    JournalState → Option JournalResultClass → Result (Unit {0})
assert_journal_result_class state result_class =
    throw_if (not (opt_eq class_eq result_class (result_for_state state)))
      (validation "journal.lastResultClass" "result class is invalid for state")
