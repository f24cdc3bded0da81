-- ===== src/Orchestrator/Quiet.antt =====
-- orchestrator.ts: the steps of a confirmation that submit nothing.
use hyper_trader.Orchestrator.Effects.{
  IsQuiet, >>=-IsQuiet, >>-IsQuiet, reading-IsQuiet, return-IsQuiet, query-IsQuiet,
  dispatch-IsQuiet, on_repository-IsQuiet, optional-IsQuiet, if-IsQuiet,
}
use hyper_trader.Common.{ℕ, refl, Bool, true, false, String, Option, none, some, Number, Error}
use hyper_trader.Common.Runs.{meanwhile}
use hyper_trader.Journal.{
  PreparedActionRecord, JournalState, JournalResultClass, prepared, submission_started,
  abandoned_before_submission, reconciled_ambiguous,
}
use hyper_trader.Persistence.Actions.{transition_action}
use hyper_trader.Persistence.Signers.{
  External, AtomicActionReservationInput, reserve_prepared_action,
}
use hyper_trader.Persistence.Calls.{prepare}
use hyper_trader.Persistence.History.{step-IsLater}
use hyper_trader.Reconciler.Later.{
  IsForward, run-IsLater, reconcile_action-IsForward, transition-IsForward,
}
use hyper_trader.Flow.{Outcome, phase_eq, submission_start, submitting, advance}
use hyper_trader.Orchestrator.{
  Others, Reconciliation, on_repository, act, show_port, reconcile_unresolved, show_outcome,
  catch_up, reflect_durable, is_open_state, state_outcome, reread, try_transition, fail,
  after_unresolved, is_prepared, after_abandoned, settle_state, settle_found, find_held,
  reconcile_failure, if_reconciling, recover_from, Script, Checked, ExchangeSubmissionResult,
  accepted_result, rejected_result, expired_result, unresolved_result, show_result, record_result,
}

module _ (x : External) (failure_code : Error → Option String) where
  pub meanwhile-IsQuiet : (others : Others) → IsQuiet (meanwhile (act x failure_code others))
  unfolding IsQuiet
  meanwhile-IsQuiet others w = (refl, run-IsLater x others.calls w.repository)

  pub reserve-IsForward :
      (input : AtomicActionReservationInput) → IsForward (reserve_prepared_action x input)
  unfolding IsForward
  reserve-IsForward input repo = step-IsLater x (prepare input) repo

  transition-IsQuiet :
      (id : String) (next : JournalState) (class : Option JournalResultClass) (now : Number)
      → IsQuiet (on_repository (transition_action id next class now))
  transition-IsQuiet id next class now =
      on_repository-IsQuiet _ (transition-IsForward x id next class now)

  show_outcome-IsQuiet :
      (generation : ℕ) (id : String) (o : Option Outcome)
      → IsQuiet (show_outcome x failure_code generation id o)
  show_outcome-IsQuiet generation id none = return-IsQuiet _
  show_outcome-IsQuiet generation id (some outcome) = dispatch-IsQuiet _

  show_port-IsQuiet :
      (generation : ℕ) (id : String) (phase : Option (Option JournalResultClass))
      → IsQuiet (show_port x failure_code generation id phase)
  show_port-IsQuiet generation id none = return-IsQuiet _
  show_port-IsQuiet generation id (some none) = return-IsQuiet _
  show_port-IsQuiet generation id (some (some JournalResultClass.accepted)) = dispatch-IsQuiet _
  show_port-IsQuiet generation id (some (some JournalResultClass.rejected)) = dispatch-IsQuiet _
  show_port-IsQuiet generation id (some (some JournalResultClass.expired)) = dispatch-IsQuiet _
  show_port-IsQuiet generation id (some (some JournalResultClass.ambiguous)) = dispatch-IsQuiet _
  show_port-IsQuiet generation id (some (some JournalResultClass.unresolved)) = return-IsQuiet _

  reconcile_unresolved-IsQuiet :
      (generation : ℕ) (id : String) (port : Option Reconciliation)
      → IsQuiet (reconcile_unresolved x failure_code generation id port)
  unfolding reconcile_unresolved
  reconcile_unresolved-IsQuiet generation id none = return-IsQuiet _
  reconcile_unresolved-IsQuiet generation id (some port) =
      >>=-IsQuiet _ _
        (optional-IsQuiet _
          (on_repository-IsQuiet _ (reconcile_action-IsForward x port.owner id port.attempts)))
        (λ phase.
          >>-IsQuiet _ _ (meanwhile-IsQuiet port.others) (show_port-IsQuiet generation id phase))

  catch_up-IsQuiet :
      (generation : ℕ) (id : String) → IsQuiet (catch_up x failure_code generation id)
  catch_up-IsQuiet generation id = reading-IsQuiet _ (λ w.
      if-IsQuiet (phase_eq w.flow.phase submission_start) _ _
        (dispatch-IsQuiet (advance generation submitting (some id))) (return-IsQuiet tt))

  reflect_durable-IsQuiet :
      (generation : ℕ) (row : PreparedActionRecord)
      → IsQuiet (reflect_durable x failure_code generation row)
  unfolding reflect_durable
  reflect_durable-IsQuiet generation row =
      >>-IsQuiet _ _ (catch_up-IsQuiet generation row.journal_id) (
        if-IsQuiet (is_open_state x failure_code row.state) _ _ (dispatch-IsQuiet _)
          (show_outcome-IsQuiet generation row.journal_id (state_outcome row.state)))

  reread-IsQuiet : (row : PreparedActionRecord) → IsQuiet (reread x failure_code row)
  reread-IsQuiet row = >>=-IsQuiet _ _ (query-IsQuiet _) (λ found. return-IsQuiet _)

  fail-IsQuiet :
      (generation : ℕ) (row : Option PreparedActionRecord) (thrown : Error)
      → IsQuiet (fail x failure_code generation row thrown)
  fail-IsQuiet generation row thrown = reading-IsQuiet _ (λ w. dispatch-IsQuiet _)

  try_transition-IsQuiet :
      (row : PreparedActionRecord) (next : JournalState) (class : Option JournalResultClass)
      (now : Number)
      → IsQuiet (try_transition x failure_code row next class now)
  try_transition-IsQuiet row next class now =
      optional-IsQuiet _ (transition-IsQuiet row.journal_id next class now)

  after_unresolved-IsQuiet :
      (generation : ℕ) (row : PreparedActionRecord) (stored : Option PreparedActionRecord)
      → IsQuiet (after_unresolved x failure_code generation row stored)
  after_unresolved-IsQuiet generation row (some stored) = reflect_durable-IsQuiet generation stored
  after_unresolved-IsQuiet generation row none =
      >>=-IsQuiet _ _ (reread-IsQuiet row) (λ current. reflect_durable-IsQuiet generation current)

  after_abandoned-IsQuiet :
      (generation : ℕ) (thrown : Error) (row : PreparedActionRecord)
      (stored : Option PreparedActionRecord)
      → IsQuiet (after_abandoned x failure_code generation thrown row stored)
  after_abandoned-IsQuiet generation thrown row (some stored) =
      if-IsQuiet (is_open_state x failure_code stored.state) _ _
        (reflect_durable-IsQuiet generation stored) (fail-IsQuiet generation (some stored) thrown)
  after_abandoned-IsQuiet generation thrown row none =
      >>=-IsQuiet _ _ (reread-IsQuiet row) (λ current.
        if-IsQuiet (is_prepared x failure_code current.state) _ _
          (fail-IsQuiet generation (some current) thrown)
          (reflect_durable-IsQuiet generation current))

  settle_state-IsQuiet :
      (generation : ℕ) (now : Number) (thrown : Error) (row : PreparedActionRecord)
      (s : JournalState)
      → IsQuiet (settle_state x failure_code generation now thrown row s)
  settle_state-IsQuiet generation now thrown row submission_started =
      >>=-IsQuiet _ _ (try_transition-IsQuiet row _ _ now)
        (λ stored. after_unresolved-IsQuiet generation row stored)
  settle_state-IsQuiet generation now thrown row prepared =
      >>=-IsQuiet _ _ (try_transition-IsQuiet row _ _ now)
        (λ stored. after_abandoned-IsQuiet generation thrown row stored)
  settle_state-IsQuiet generation now thrown row abandoned_before_submission =
      fail-IsQuiet generation (some row) thrown
  settle_state-IsQuiet generation now thrown row JournalState.unresolved =
      reflect_durable-IsQuiet generation row
  settle_state-IsQuiet generation now thrown row JournalState.accepted =
      reflect_durable-IsQuiet generation row
  settle_state-IsQuiet generation now thrown row JournalState.rejected =
      reflect_durable-IsQuiet generation row
  settle_state-IsQuiet generation now thrown row JournalState.expired =
      reflect_durable-IsQuiet generation row
  settle_state-IsQuiet generation now thrown row reconciled_ambiguous =
      reflect_durable-IsQuiet generation row

  settle_found-IsQuiet :
      (generation : ℕ) (now : Number) (thrown : Error) (row : Option PreparedActionRecord)
      → IsQuiet (settle_found x failure_code generation now thrown row)
  settle_found-IsQuiet generation now thrown none = fail-IsQuiet generation none thrown
  settle_found-IsQuiet generation now thrown (some row) =
      settle_state-IsQuiet generation now thrown row row.state

  find_held-IsQuiet : (held : Option String) → IsQuiet (find_held x failure_code held)
  find_held-IsQuiet none = return-IsQuiet _
  find_held-IsQuiet (some id) = query-IsQuiet _

  reconcile_failure-IsQuiet :
      (generation : ℕ) (now : Number) (thrown : Error)
      → IsQuiet (reconcile_failure x failure_code generation now thrown)
  unfolding reconcile_failure
  reconcile_failure-IsQuiet generation now thrown = reading-IsQuiet _ (λ w.
      >>=-IsQuiet _ _ (find_held-IsQuiet w.held)
        (λ row. settle_found-IsQuiet generation now thrown row))

  if_reconciling-IsQuiet :
      (generation : ℕ) (port : Option Reconciliation) (b : Bool) (id : Option String)
      → IsQuiet (if_reconciling x failure_code generation port b id)
  if_reconciling-IsQuiet generation port true (some id) =
      reconcile_unresolved-IsQuiet generation id port
  if_reconciling-IsQuiet generation port true none = return-IsQuiet _
  if_reconciling-IsQuiet generation port false id = return-IsQuiet _

  -- What follows an error submits nothing.
  pub recover_from-IsQuiet :
      (generation : ℕ) (script : Script) (thrown : Error)
      → IsQuiet (recover_from x failure_code generation script thrown)
  unfolding recover_from
  recover_from-IsQuiet generation script thrown =
      >>-IsQuiet _ _ (reconcile_failure-IsQuiet generation script.failed_at thrown) (
        reading-IsQuiet _
          (λ w. if_reconciling-IsQuiet generation script.reconciliation _ w.flow.journal_id))

  show_result-IsQuiet :
      (generation : ℕ) (script : Script) (checked : Checked) (id : String)
      (result : ExchangeSubmissionResult)
      → IsQuiet (show_result x failure_code generation script checked id result)
  show_result-IsQuiet generation script checked id accepted_result = dispatch-IsQuiet _
  show_result-IsQuiet generation script checked id (rejected_result minimum) = dispatch-IsQuiet _
  show_result-IsQuiet generation script checked id expired_result = dispatch-IsQuiet _
  show_result-IsQuiet generation script checked id unresolved_result =
      >>-IsQuiet _ _ (dispatch-IsQuiet _)
        (reconcile_unresolved-IsQuiet generation id script.reconciliation)

  -- Recording the answer submits nothing.
  pub record_result-IsQuiet :
      (generation : ℕ) (script : Script) (checked : Checked) (id : String)
      (result : ExchangeSubmissionResult)
      → IsQuiet (record_result x failure_code generation script checked id result)
  unfolding record_result
  record_result-IsQuiet generation script checked id result =
      >>-IsQuiet _ _ (transition-IsQuiet id _ _ script.recorded_at)
        (show_result-IsQuiet generation script checked id result)
