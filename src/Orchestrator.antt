-- ===== src/Orchestrator.antt =====
-- apps/mobile/src/features/actions/orchestrator.ts: `confirm`, which takes a reviewed action through
-- refresh, unlock, reservation, signing and submission, and what it does when a step throws. While
-- the code waits, others call the repositories and dispatch actions: every await comes with what they
-- do meanwhile. What the ports answer, the review of the refreshed data among it, is an input.
pub mod Failures
pub mod Messages
pub mod Ports
pub mod Effects
pub mod Quiet
pub mod Once
pub mod Sent
pub mod Accounts
pub use hyper_trader.Orchestrator.Messages.{
  recorded_state, recorded_class, rejected_text, state_outcome,
}
unfoldable pub use hyper_trader.Orchestrator.Messages.{pre_submission_failure_message}
pub use hyper_trader.Orchestrator.Ports.{
  Submission, ExchangeSubmissionResult, World, Others, Checked, Reconciliation, Script,
  require_current, require_capability, accepted_result, expired_result, unresolved_result,
  rejected_result,
}
unfoldable pub use hyper_trader.Orchestrator.Ports.{
  dispatch, on_repository, hold_journal, given, send,
}
pub use hyper_trader.Orchestrator.Failures.{
  act, show_port, is_open_state, show_outcome, catch_up, reread, try_transition, fail,
  after_unresolved, is_prepared, after_abandoned, settle_state, settle_found, find_held,
  if_reconciling,
}
unfoldable pub use hyper_trader.Orchestrator.Failures.{
  reconcile_unresolved, reflect_durable, reconcile_failure, recover_from,
}
use hyper_trader.Common.{
  ℕ, Bool, true, false, not, ◌||◌, String, Option, none, some, List, [], ◌∷◌, if◌then◌else◌, str_eq,
  Number, Result, ok, err, Error, plain_error, throw_if,
}
use hyper_trader.Common.Runs.{
  Run, ◌>>=◌, ◌>>◌, return, query, meanwhile, reading, catching, optional,
}
use hyper_trader.Nonces.{ClockGateInput}
use hyper_trader.Journal.{
  PreparedActionRecord, JournalState, JournalResultClass, prepared, submission_started,
  abandoned_before_submission, reconciled_ambiguous,
}
use hyper_trader.Signing.{
  SignerBinding, Eip712Signature, mainnet_trading_release_stage, assert_trading_action_capability,
}
use hyper_trader.Persistence.Actions.{
  Repository, SubmissionStartReceipt, TransportWritePermit, consume, get_action, transition_action,
  mark_submission_started,
}
use hyper_trader.Persistence.Signers.{
  External, PreparedActionInput, AtomicActionReservationInput, reserve_prepared_action,
}
use hyper_trader.Persistence.Calls.{Call, run}
use hyper_trader.Flow.{
  ActionFlowState, ActionFlowAction, ActionFlowPhase, confirm, advance, unresolved, terminal,
  fail_before_submission, reset, unlocking, refreshing, reserving, signing, submission_start,
  submitting, reconciling, Outcome, accepted_outcome, rejected_outcome, expired_outcome,
  ambiguous_outcome, reduce_action_flow, run_flow, phase_eq, initial_action_flow, is_confirmable,
}
use hyper_trader.Reconciler.{Attempt, reconcile_action}

pub data Event : Type 0 where
  confirmed : Script → Event
  acted : Others → Event
  restarted : Event

-- `failureCode` reads a property of the error that is thrown.
module _ (x : External) (failure_code : Error → Option String) where
  -- The journal entry and the state of the flow after the exchange has answered.
  abbrev pub show_result :
      ℕ → Script → Checked → String → ExchangeSubmissionResult → Run World (Unit {0})
  show_result generation script checked id accepted_result =
      dispatch (terminal generation id accepted_outcome none)
  show_result generation script checked id (rejected_result minimum) =
      dispatch
        (terminal generation id rejected_outcome (rejected_text minimum checked.rejected_message))
  show_result generation script checked id expired_result =
      dispatch (terminal generation id expired_outcome none)
  show_result generation script checked id unresolved_result = do
    dispatch (unresolved generation id)
    reconcile_unresolved x failure_code generation id script.reconciliation

  unfoldable pub record_result :
      ℕ → Script → Checked → String → ExchangeSubmissionResult → Run World (Unit {0})
  record_result generation script checked id result = do
    on_repository (
        transition_action id (recorded_state result) (some (recorded_class result))
          script.recorded_at)
    show_result generation script checked id result

  abbrev pub submission_of : PreparedActionRecord → Eip712Signature → Submission
  submission_of row signature = record {
    journal_id = row.journal_id;
    nonce = row.nonce;
    signature = signature;
    expires_after = row.expires_after_ms;
  }

  abbrev pub answered : ℕ → Script → Checked → PreparedActionRecord → Run World (Unit {0})
  answered generation script checked row = do
    meanwhile (act x failure_code script.during_submission)
    result ← given script.answer
    record_result generation script checked row.journal_id result

  unfoldable pub send_marked :
      ℕ
      → Script
      → Checked
      → PreparedActionRecord
      → Eip712Signature
      → SubmissionStartReceipt
      → Run World (Unit {0})
  send_marked generation script checked row signature receipt = do
    dispatch (advance generation submitting (some row.journal_id))
    given ((consume receipt.transport_permit).0)
    send (submission_of row signature)
    answered generation script checked row

  -- Nothing is awaited between the start marker and the submission.
  unfoldable pub submit :
      ℕ → Script → Checked → PreparedActionRecord → Eip712Signature → Run World (Unit {0})
  submit generation script checked row signature = do
    receipt ← on_repository (mark_submission_started row.journal_id script.started_at)
    send_marked generation script checked row signature receipt

  abbrev pub sign : ℕ → Script → Checked → PreparedActionRecord → Run World (Unit {0})
  sign generation script checked row = do
    hold_journal (some row.journal_id)
    require_current script.current_after_reservation
    dispatch (advance generation signing (some row.journal_id))
    meanwhile (act x failure_code script.during_signing)
    signature ← given script.signed
    require_current script.current_after_signing
    dispatch (advance generation submission_start (some row.journal_id))
    require_capability script.binding.network
    submit generation script checked row signature

  abbrev pub unlock_and_reserve : ℕ → Script → Checked → Run World (Unit {0})
  unlock_and_reserve generation script checked = do
    dispatch (advance generation unlocking none)
    meanwhile (act x failure_code script.during_unlock)
    given script.unlocked
    require_current script.current_after_unlock
    dispatch (advance generation reserving none)
    row ← on_repository (
        reserve_prepared_action x (record {
          binding = script.binding;
          captured_context_epoch = script.captured_context_epoch;
          clock = script.clock;
          prepared_action = checked.prepared_action;
        }))
    sign generation script checked row

  unfoldable pub pipeline : ℕ → Script → Run World (Unit {0})
  pipeline generation script = do
    require_current script.current_before_refresh
    meanwhile (act x failure_code script.during_refresh)
    given script.refreshed
    require_current script.current_after_refresh
    checked ← given script.checked
    unlock_and_reserve generation script checked

  abbrev pub begin : Script → Run World (Unit {0})
  begin script = do
    dispatch confirm
    hold_journal none
    reading (λ w.
        catching (pipeline w.flow.generation script)
          (recover_from x failure_code w.flow.generation script))

  -- The state that `confirm` returns is the flow of the world that it leaves.
  unfoldable pub confirm_action : Script → Run World (Unit {0})
  confirm_action script = do
    require_capability script.binding.network
    require_capability script.validation_network
    reading (λ w. given (
        throw_if (not (is_confirmable w.flow.phase))
          (plain_error "An action confirmation is already in progress.")))
    begin script

  -- What happens to the world between confirmations: what others do, a confirmation, and the start of a
  -- new process, which begins with the initial flow and no reservations, and submits nothing itself.
  abbrev pub run_event : Event → World → World
  run_event (confirmed script) w = (confirm_action script w).1
  run_event (acted others) w = act x failure_code others w
  run_event restarted w = record w {
    flow = initial_action_flow;
    held = none;
    repository = run x (Call.restart ∷ []) w.repository;
  }

  abbrev pub run_events : List Event → World → World
  run_events [] w = w
  run_events (event ∷ events) w = run_events events (run_event event w)
