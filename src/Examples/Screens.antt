-- ===== src/Examples/Screens.antt =====
-- The phases of an action flow under concrete actions.
use hyper_trader.Common.{
  any, true, true, false, ◌≡◌, ◌≤◌, ◌<◌, ◌⊎◌, refl, some, none, List, [], ◌∷◌, arith,
}
use hyper_trader.Flow.{
  ActionFlowState, initial_action_flow, ActionFlowAction, confirm, advance, unresolved, terminal,
  fail_before_submission, reset, review, unlocking, refreshing, reserving, signing,
  submission_start, submitting, reconciling, accepted, rejected_outcome, accepted_outcome, run_flow,
}
use hyper_trader.Flow.Order.{is_for, IsKept, IsVisited, run_flow-IsKept, run_flow-IsVisited}
use hyper_trader.Flow.Steps.{place}
use hyper_trader.Lifecycle.{
  LifecycleEvent, app_state_change, network_change, blur, focus, create_lifecycle,
}
use hyper_trader.Lifecycle.Observed.{observe, seen, IsTold, create_lifecycle-IsTold}

-- A submission whose answer is lost, with an action of an older generation among them.
abbrev submission : List ActionFlowAction
submission =
    confirm
    ∷ advance 1 unlocking none
    ∷ advance 1 reserving none
    ∷ terminal 0 "old" rejected_outcome none
    ∷ advance 1 signing (some "jrnl")
    ∷ advance 1 submission_start none
    ∷ advance 1 submitting none
    ∷ unresolved 1 "jrnl"
    ∷ []

abbrev sent : ActionFlowState
sent = record {
  phase = reconciling;
  generation = 1;
  journal_id = some "jrnl";
  message = some "Hyperliquid has not confirmed the result yet.";
}

is_sent : run_flow initial_action_flow submission ≡ sent
unfolding run_flow hyper_trader.Flow.reduce_action_flow
is_sent = refl

-- A failure that is reported late, and an answer.
abbrev late : List ActionFlowAction
late = fail_before_submission 1 none "late" ∷ terminal 1 "jrnl" accepted_outcome none ∷ []

run_flow-IsKept_example :
    ((sent.generation < (run_flow sent late).generation) ⊎ IsKept sent (run_flow sent late))
    × ((any (is_for sent.generation) late ≡ true) ⊎ (run_flow sent late ≡ sent))
run_flow-IsKept_example = run_flow-IsKept sent late

ends_after : place signing ≤ place (run_flow initial_action_flow submission).phase
unfolding run_flow hyper_trader.Flow.reduce_action_flow
ends_after = omega arith

not_failed : place (run_flow initial_action_flow submission).phase ≤ 8
unfolding run_flow hyper_trader.Flow.reduce_action_flow
not_failed = omega arith

run_flow-IsVisited_example : IsVisited initial_action_flow submission (place signing)
run_flow-IsVisited_example =
    run_flow-IsVisited submission signing (omega arith) (omega arith) ends_after not_failed

-- The application starts online, loses the network, is blurred and focused again, and leaves the
-- foreground once the network is back.
abbrev day : List LifecycleEvent
day =
    app_state_change hyper_trader.Lifecycle.active
    ∷ network_change false
    ∷ blur
    ∷ focus
    ∷ network_change true
    ∷ app_state_change hyper_trader.Lifecycle.background
    ∷ []

create_lifecycle-IsTold_example :
    IsTold (observe day (create_lifecycle true) (seen (create_lifecycle true)))
create_lifecycle-IsTold_example = create_lifecycle-IsTold true day
