-- ===== src/Orchestrator/Messages.antt =====
-- apps/mobile/src/features/actions/orchestrator.ts: what an answer, a stored state and a failure are shown and recorded as.
use hyper_trader.Common.{Bool, true, false, ◌||◌, String, Option, none, some, if◌then◌else◌, str_eq}
use hyper_trader.Journal.{JournalState, JournalResultClass, reconciled_ambiguous}
use hyper_trader.Flow.{
  ActionFlowPhase, unlocking, refreshing, reserving, signing, submission_start, Outcome,
  accepted_outcome, rejected_outcome, expired_outcome, ambiguous_outcome,
}
use hyper_trader.Orchestrator.Ports.{
  ExchangeSubmissionResult, accepted_result, rejected_result, expired_result, unresolved_result,
}

abbrev pub recorded_state : ExchangeSubmissionResult → JournalState
recorded_state accepted_result = JournalState.accepted
recorded_state (rejected_result _) = JournalState.rejected
recorded_state expired_result = JournalState.expired
recorded_state unresolved_result = JournalState.unresolved

abbrev pub recorded_class : ExchangeSubmissionResult → JournalResultClass
recorded_class accepted_result = JournalResultClass.accepted
recorded_class (rejected_result _) = JournalResultClass.rejected
recorded_class expired_result = JournalResultClass.expired
recorded_class unresolved_result = JournalResultClass.unresolved

abbrev pub rejected_text : Bool → Option String → Option String
rejected_text true message = some "Order must have minimum value of $10."
rejected_text false message = message

abbrev pub phase_outcome : JournalResultClass → Option Outcome
phase_outcome JournalResultClass.accepted = some accepted_outcome
phase_outcome JournalResultClass.rejected = some rejected_outcome
phase_outcome JournalResultClass.expired = some expired_outcome
phase_outcome JournalResultClass.ambiguous = some ambiguous_outcome
phase_outcome JournalResultClass.unresolved = none

-- What the durable state of an action is shown as.
abbrev pub state_outcome : JournalState → Option Outcome
state_outcome reconciled_ambiguous = some ambiguous_outcome
state_outcome JournalState.accepted = some accepted_outcome
state_outcome JournalState.rejected = some rejected_outcome
state_outcome JournalState.expired = some expired_outcome
state_outcome _ = none

abbrev unlocking_message : Option String → String
unlocking_message none =
    "The selected account or API wallet could not be confirmed. Check the account and try again."
unlocking_message (some code) =
    if str_eq code "missing_or_invalidated" || str_eq code "malformed_record"
    then "The protected API wallet is no longer available. Set up a new API wallet on this network before trading."
    else if str_eq code "authentication_failed"
    then "Device authentication did not complete. Try again and finish the Face ID, biometric, or passcode prompt."
    else if str_eq code "app_not_active" || str_eq code "session_invalidated"
    then "Device authentication was interrupted. Keep Hyper Trader open and try again."
    else if str_eq code "context_changed"
    then "The selected account changed during confirmation. Return to the order and review it again."
    else "The selected account or API wallet could not be confirmed. Check the account and try again."

abbrev refreshing_message : Option String → String
refreshing_message none =
    "The latest market or account details could not be confirmed for this order. Return to the order, refresh, and try again."
refreshing_message (some code) =
    if str_eq code "cancel_target_not_open"
    then "This order is no longer open. Refresh open orders before trying again."
    else "The latest market or account details could not be confirmed for this order. Return to the order, refresh, and try again."

unfoldable pub pre_submission_failure_message : ActionFlowPhase → Option String → String
pre_submission_failure_message unlocking code = unlocking_message code
pre_submission_failure_message refreshing code = refreshing_message code
pre_submission_failure_message reserving code =
    "The order could not be prepared safely. Return to the order and try again."
pre_submission_failure_message signing code =
    "The API wallet could not sign this order. Unlock it and try again."
pre_submission_failure_message submission_start code =
    "The order was not submitted because safe submission could not be started. Return to the order and try again."
pre_submission_failure_message _ code =
    "The order was not submitted. Return to the order and try again."
