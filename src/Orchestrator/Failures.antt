-- ===== src/Orchestrator/Failures.antt =====
-- apps/mobile/src/features/actions/orchestrator.ts: how an open action is followed up, and what is done
-- when a step of a confirmation throws (`reconcileFailure`).
use hyper_trader.Orchestrator.Messages.{phase_outcome, state_outcome}
use hyper_trader.Orchestrator.Messages.{pre_submission_failure_message}
use hyper_trader.Orchestrator.Ports.{World, Others, Reconciliation, Script}
use hyper_trader.Orchestrator.Ports.{dispatch, on_repository}
use hyper_trader.Common.{
  ℕ, Bool, true, false, String, Option, none, some, if◌then◌else◌, Number, Error,
}
use hyper_trader.Common.Runs.{Run, ◌>>=◌, ◌>>◌, return, query, meanwhile, reading, optional}
use hyper_trader.Journal.{
  PreparedActionRecord, JournalState, JournalResultClass, prepared, submission_started,
  abandoned_before_submission,
}
use hyper_trader.Persistence.Actions.{get_action, transition_action}
use hyper_trader.Persistence.Signers.{External}
use hyper_trader.Persistence.Calls.{run}
use hyper_trader.Flow.{
  advance, unresolved, terminal, fail_before_submission, submission_start, submitting, reconciling,
  Outcome, run_flow, phase_eq,
}
use hyper_trader.Reconciler.{reconcile_action}

-- `failureCode` reads a property of the error that is thrown.
module _ (x : External) (failure_code : Error → Option String) where
  abbrev pub act : Others → World → World
  act others w = record w {
    flow = run_flow w.flow others.dispatched;
    repository = run x others.calls w.repository;
  }

  abbrev show_phase : ℕ → String → Option JournalResultClass → Run World (Unit {0})
  show_phase generation id none = return tt
  show_phase generation id (some phase) = elim (phase_outcome phase) [
    | none ↦ return tt
    | some outcome ↦ dispatch (terminal generation id outcome none)
  ]

  abbrev pub show_port : ℕ → String → Option (Option JournalResultClass) → Run World (Unit {0})
  show_port generation id none = return tt
  show_port generation id (some phase) = show_phase generation id phase

  -- What the port throws is dropped, and what it has written stays.
  unfoldable pub reconcile_unresolved : ℕ → String → Option Reconciliation → Run World (Unit {0})
  reconcile_unresolved generation id none = return tt
  reconcile_unresolved generation id (some port) = do
    phase ← optional (on_repository (reconcile_action x port.owner id port.attempts))
    meanwhile (act port.others)
    show_port generation id phase

  abbrev pub is_open_state : JournalState → Bool
  is_open_state JournalState.unresolved = true
  is_open_state submission_started = true
  is_open_state _ = false

  abbrev pub show_outcome : ℕ → String → Option Outcome → Run World (Unit {0})
  show_outcome generation id none = return tt
  show_outcome generation id (some outcome) = dispatch (terminal generation id outcome none)

  abbrev pub catch_up : ℕ → String → Run World (Unit {0})
  catch_up generation id = reading (λ w.
      if phase_eq w.flow.phase submission_start
      then dispatch (advance generation submitting (some id))
      else return tt)

  unfoldable pub reflect_durable : ℕ → PreparedActionRecord → Run World (Unit {0})
  reflect_durable generation row = do
    catch_up generation row.journal_id
    if is_open_state row.state
        then dispatch (unresolved generation row.journal_id)
        else show_outcome generation row.journal_id (state_outcome row.state)

  abbrev read_or : PreparedActionRecord → Option PreparedActionRecord → PreparedActionRecord
  read_or row none = row
  read_or row (some found) = found

  -- `getAction(record.journalId) ?? record`
  abbrev pub reread : PreparedActionRecord → Run World PreparedActionRecord
  reread row = do
    found ← query (λ w. get_action row.journal_id w.repository.database)
    return (read_or row found)

  -- A transition whose error is caught; `none` is that it threw.
  abbrev pub try_transition :
      PreparedActionRecord
      → JournalState
      → Option JournalResultClass
      → Number
      → Run World (Option PreparedActionRecord)
  try_transition row next class now =
      optional (on_repository (transition_action row.journal_id next class now))

  abbrev row_id : Option PreparedActionRecord → Option String
  row_id none = none
  row_id (some row) = some row.journal_id

  abbrev pub fail : ℕ → Option PreparedActionRecord → Error → Run World (Unit {0})
  fail generation row thrown = reading (λ w. dispatch (
      fail_before_submission generation (row_id row)
        (pre_submission_failure_message w.flow.phase (failure_code thrown))))

  -- After the attempt to store that a started submission has no answer.
  abbrev pub after_unresolved :
      ℕ → PreparedActionRecord → Option PreparedActionRecord → Run World (Unit {0})
  after_unresolved generation row (some stored) = reflect_durable generation stored
  after_unresolved generation row none = do current ← reread row; reflect_durable generation current

  abbrev pub is_prepared : JournalState → Bool
  is_prepared prepared = true
  is_prepared _ = false

  -- After the attempt to abandon what is only prepared.
  abbrev pub after_abandoned :
      ℕ → Error → PreparedActionRecord → Option PreparedActionRecord → Run World (Unit {0})
  after_abandoned generation thrown row (some stored) =
      if is_open_state stored.state
      then reflect_durable generation stored
      else fail generation (some stored) thrown
  after_abandoned generation thrown row none = do
    current ← reread row
    if is_prepared current.state
        then fail generation (some current) thrown
        else reflect_durable generation current

  abbrev pub settle_state :
      ℕ → Number → Error → PreparedActionRecord → JournalState → Run World (Unit {0})
  settle_state generation now thrown row submission_started = do
    stored ← try_transition row JournalState.unresolved (some JournalResultClass.unresolved) now
    after_unresolved generation row stored
  settle_state generation now thrown row prepared = do
    stored ← try_transition row abandoned_before_submission none now
    after_abandoned generation thrown row stored
  settle_state generation now thrown row abandoned_before_submission =
      fail generation (some row) thrown
  settle_state generation now thrown row _ = reflect_durable generation row

  abbrev pub settle_found : ℕ → Number → Error → Option PreparedActionRecord → Run World (Unit {0})
  settle_found generation now thrown none = fail generation none thrown
  settle_found generation now thrown (some row) = settle_state generation now thrown row row.state

  abbrev pub find_held : Option String → Run World (Option PreparedActionRecord)
  find_held none = return none
  find_held (some id) = query (λ w. get_action id w.repository.database)

  unfoldable pub reconcile_failure : ℕ → Number → Error → Run World (Unit {0})
  reconcile_failure generation now thrown =
      reading (λ w. find_held w.held >>= settle_found generation now thrown)

  abbrev pub if_reconciling :
      ℕ → Option Reconciliation → Bool → Option String → Run World (Unit {0})
  if_reconciling generation port true (some id) = reconcile_unresolved generation id port
  if_reconciling generation port true none = return tt
  if_reconciling generation port false id = return tt

  unfoldable pub recover_from : ℕ → Script → Error → Run World (Unit {0})
  recover_from generation script thrown = do
    reconcile_failure generation script.failed_at thrown
    reading (λ w.
        if_reconciling generation script.reconciliation (phase_eq w.flow.phase reconciling)
          w.flow.journal_id)
