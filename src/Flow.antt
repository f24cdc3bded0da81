-- ===== src/Flow.antt =====
-- apps/mobile/src/features/actions/state-machine.ts: the reducer that the screens run an action
-- through. A field of an action that is left out is `none`.
pub mod Steps
pub mod Order
use hyper_trader.Common.{
  ℕ, zero, suc, ◌+◌, Bool, true, false, not, ◌&&◌, ◌||◌, String, Option, none, some, List, [], ◌∷◌,
  leb, ◌==◌, if◌then◌else◌,
}

pub data ActionFlowPhase : Type 0 where
  review unlocking refreshing reserving signing submission_start submitting : ActionFlowPhase
  reconciling accepted rejected expired ambiguous failed_before_submission : ActionFlowPhase

pub record ActionFlowState : Type 0 where
  pub phase : ActionFlowPhase
  pub generation : ℕ
  pub journal_id : Option String
  pub message : Option String

abbrev pub initial_action_flow : ActionFlowState
initial_action_flow = record { phase = review; generation = 0; journal_id = none; message = none }

-- The phases that a `TERMINAL` action may name.
pub data Outcome : Type 0 where
  accepted_outcome rejected_outcome expired_outcome ambiguous_outcome : Outcome

abbrev pub outcome_phase : Outcome → ActionFlowPhase
outcome_phase accepted_outcome = accepted
outcome_phase rejected_outcome = rejected
outcome_phase expired_outcome = expired
outcome_phase ambiguous_outcome = ambiguous

pub data ActionFlowAction : Type 0 where
  confirm : ActionFlowAction
  advance :
      (generation : ℕ) (phase : ActionFlowPhase) (journal_id : Option String) → ActionFlowAction
  unresolved : (generation : ℕ) (journal_id : String) → ActionFlowAction
  terminal :
      (generation : ℕ) (journal_id : String) (outcome : Outcome) (message : Option String)
      → ActionFlowAction
  fail_before_submission :
      (generation : ℕ) (journal_id : Option String) (message : String) → ActionFlowAction
  reset : ActionFlowAction

-- Which member of the union a phase is, in the order in which the source lists them.
abbrev pub phase_index : ActionFlowPhase → ℕ
phase_index review = 0
phase_index unlocking = 1
phase_index refreshing = 2
phase_index reserving = 3
phase_index signing = 4
phase_index submission_start = 5
phase_index submitting = 6
phase_index reconciling = 7
phase_index accepted = 8
phase_index rejected = 9
phase_index expired = 10
phase_index ambiguous = 11
phase_index failed_before_submission = 12

-- `===` between phases.
abbrev pub phase_eq : ActionFlowPhase → ActionFlowPhase → Bool
phase_eq first second = phase_index first == phase_index second

abbrev pub action_flow_consumes_back : ActionFlowPhase → Bool
action_flow_consumes_back unlocking = true
action_flow_consumes_back refreshing = true
action_flow_consumes_back reserving = true
action_flow_consumes_back signing = true
action_flow_consumes_back submission_start = true
action_flow_consumes_back submitting = true
action_flow_consumes_back _ = false

abbrev pub next_phase : ActionFlowPhase → Option ActionFlowPhase
next_phase refreshing = some unlocking
next_phase unlocking = some reserving
next_phase reserving = some signing
next_phase signing = some submission_start
next_phase submission_start = some submitting
next_phase _ = none

-- `NEXT_PHASE[phase] === next`
abbrev pub is_next : Option ActionFlowPhase → ActionFlowPhase → Bool
is_next none phase = false
is_next (some expected) phase = phase_eq expected phase

abbrev pub is_current : ActionFlowState → ℕ → Bool
is_current state generation = state.generation == generation

-- `given ?? held`
abbrev pub given_or : Option String → Option String → Option String
given_or none held = held
given_or (some given) held = some given

abbrev pub is_confirmable : ActionFlowPhase → Bool
is_confirmable phase = phase_eq phase review || phase_eq phase failed_before_submission

abbrev pub is_open : ActionFlowPhase → Bool
is_open phase = phase_eq phase submitting || phase_eq phase reconciling

abbrev pub is_before_submission : ActionFlowPhase → Bool
is_before_submission unlocking = true
is_before_submission refreshing = true
is_before_submission reserving = true
is_before_submission signing = true
is_before_submission submission_start = true
is_before_submission _ = false

-- `{ ...state, phase, journalId, message }`
abbrev pub moved :
    ActionFlowState → ActionFlowPhase → Option String → Option String → ActionFlowState
moved state phase journal_id message = record {
  phase = phase;
  generation = state.generation;
  journal_id = journal_id;
  message = message;
}

abbrev pub restarted : ActionFlowState → ActionFlowPhase → ActionFlowState
restarted state phase = record {
  phase = phase;
  generation = state.generation + 1;
  journal_id = none;
  message = none;
}

unfoldable pub reduce_action_flow : ActionFlowState → ActionFlowAction → ActionFlowState
reduce_action_flow state confirm =
    if is_confirmable state.phase then restarted state refreshing else state
reduce_action_flow state (advance generation phase journal_id) =
    if is_current state generation && is_next (next_phase state.phase) phase
    then moved state phase (given_or journal_id state.journal_id) none
    else state
reduce_action_flow state (unresolved generation journal_id) =
    if is_current state generation && phase_eq state.phase submitting
    then moved state reconciling (some journal_id)
        (some "Hyperliquid has not confirmed the result yet.")
    else state
reduce_action_flow state (terminal generation journal_id outcome message) =
    if is_current state generation && is_open state.phase
    then moved state (outcome_phase outcome) (some journal_id) message
    else state
reduce_action_flow state (fail_before_submission generation journal_id message) =
    if is_current state generation && is_before_submission state.phase
    then moved state failed_before_submission (given_or journal_id state.journal_id) (some message)
    else state
reduce_action_flow state reset = restarted state review

-- The state after a sequence of dispatched actions.
unfoldable pub run_flow : ActionFlowState → List ActionFlowAction → ActionFlowState
run_flow state [] = state
run_flow state (action ∷ rest) = run_flow (reduce_action_flow state action) rest
