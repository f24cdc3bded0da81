-- ===== src/Examples/Actions.antt =====
-- An action that is confirmed, submitted and reconciled.
use hyper_trader.Examples.Computed.{computed}
use hyper_trader.Common.{
  ℕ, ◌≡◌, refl, ap, true, false, String, Option, none, some, List, [], ◌∷◌, pos, Result, ok, Error,
  arith,
}
use hyper_trader.Journal.{JournalState, JournalResultClass}
use hyper_trader.Signing.{Eip712Signature}
use hyper_trader.Policy.{
  ReconciliationEvidence, ObservedOrderIdentity, unknown, terminal, decide_reconciliation,
}
use hyper_trader.Persistence.Rows.{from_row, assert_lease_owner}
use hyper_trader.Persistence.Actions.{Repository}
use hyper_trader.Persistence.Sole.{IsSole}
use hyper_trader.Reconciler.Live.{undisturbed, reconcile-IsSettled}
use hyper_trader.Persistence.Calls.{run, register, prepare, mark}
use hyper_trader.Flow.{initial_action_flow}
use hyper_trader.Reconciler.{
  ActionReconcilerResult, decided, Load, Attempt, reconcile, reconcile_action, next_attempt,
  reconciliation_record,
}
use hyper_trader.Reconciler.Delays.{IsNextAttempt, next_attempt-IsNextAttempt}
use hyper_trader.Reconciler.Stored.{IsStored, IsReported, reconcile-IsReported}
use hyper_trader.Reconciler.Shown.{IsShown, reconcile_action-IsShown}
use hyper_trader.Orchestrator.{
  World, Script, Others, accepted_result, unresolved_result, confirm_action, confirmed, acted,
  restarted, Event, run_events,
}
use hyper_trader.Orchestrator.Sent.{confirm_action-IsOneSent}
use hyper_trader.Orchestrator.Once.{IsOneSent}
use hyper_trader.Orchestrator.Accounts.{IsAccounted, run_events-IsAccounted, times_sent}
use hyper_trader.Examples.Store.{
  external, binding, clock, id, action, reservation, empty, held, leased,
}

next_attempt-IsNextAttempt_example : IsNextAttempt 3 20_000 15_000 (next_attempt 3 20_000 15_000)
next_attempt-IsNextAttempt_example = next_attempt-IsNextAttempt 3 20_000 15_000

abbrev owner : String
owner = "worker-0001"

abbrev submitted : Repository
submitted =
    run external (register binding (pos 1) ∷ prepare reservation ∷ mark id (pos 1_000_100) ∷ [])
      empty

abbrev filled : ObservedOrderIdentity
filled = record { asset_id = 3; oid = 77; cloid = some "0x00000000000000000000000000000001" }

-- A fill of the order is seen.
abbrev evidence : ReconciliationEvidence
evidence = record {
  context = record {
    network = "testnet";
    master_account = binding.master_account;
    target_account = binding.target_account;
    asset_id = some 3;
  };
  server_time_ms = pos 1_000_250;
  complete = true;
  order = unknown;
  open_orders = [];
  fills = filled ∷ [];
  position = none;
  leverage = none;
  state_version = pos 1;
  definitive_rejection = false;
}

abbrev load : Load
load = record { answer = some evidence; others = [] }

abbrev reconciled : Result ActionReconcilerResult × Repository
reconciled = reconcile external owner id (pos 1_000_200) load (pos 1_000_300) submitted

accepts : reconciled.0 ≡ ok (decided (terminal JournalState.accepted))
unfolding computed
accepts = refl

reconcile-IsReported_example :
    IsReported id (decided (terminal JournalState.accepted)) reconciled.1.database
reconcile-IsReported_example =
    reconcile-IsReported external owner id (pos 1_000_200) load (pos 1_000_300) submitted
      (ap (λ r. (r, reconciled.1)) accepts)

-- The lease of another worker is over; this one takes the action and ends it.
abbrev abandoned : Repository
abandoned = record { database = leased; prepared_in_this_process = [] }

sole : IsSole id leased held
unfolding computed
sole = record { one = refl; found = refl }

readable : from_row held ≡ ok held
unfolding computed
readable = refl

is_worker : assert_lease_owner owner ≡ ok tt
unfolding computed
is_worker = refl

decides :
    decide_reconciliation external.get_address (reconciliation_record held) evidence
    ≡ ok (terminal JournalState.accepted)
unfolding computed
decides = refl

reconcile-IsSettled_example :
    let end =
      reconcile external owner id
        (pos 1_031_000)
        (undisturbed evidence)
        (pos 1_031_400)
        abandoned in
    (end.0 ≡ ok (decided (terminal JournalState.accepted)))
    × IsStored id JournalState.accepted end.1.database
reconcile-IsSettled_example =
    reconcile-IsSettled external owner held evidence 1_031_000 1_031_400 abandoned
      JournalState.accepted sole readable refl refl is_worker (omega arith) (omega arith)
      (omega arith) decides

-- Nothing is read at first, and the fill on the second attempt.
abbrev attempt : Option ReconciliationEvidence → ℕ → ℕ → Attempt
attempt answer claimed_at now = record {
  goes_on = true;
  waited = [];
  still_goes_on = true;
  claimed_at = pos claimed_at;
  load = record { answer = answer; others = [] };
  now = pos now;
  retry_wait = [];
}

abbrev attempts : List Attempt
attempts = attempt none 1_000_200 1_000_300 ∷ attempt (some evidence) 1_001_400 1_001_500 ∷ []

abbrev shown : Result (Option JournalResultClass) × Repository
shown = reconcile_action external owner id attempts submitted

shows : shown.0 ≡ ok (some JournalResultClass.accepted)
unfolding computed
shows = refl

reconcile_action-IsShown_example : IsShown id JournalResultClass.accepted shown.1.database
reconcile_action-IsShown_example =
    reconcile_action-IsShown external owner id attempts submitted (ap (λ r. (r, shown.1)) shows)

abbrev silent : Others
silent = record { calls = []; dispatched = [] }

abbrev signature : Eip712Signature
signature = record { r = "0x"; s = "0x"; v = 27 }

abbrev script : Script
script = record {
  binding = binding;
  validation_network = "testnet";
  captured_context_epoch = pos 0;
  current_before_refresh = true;
  during_refresh = silent;
  refreshed = ok tt;
  current_after_refresh = true;
  checked = ok (record { prepared_action = action; rejected_message = none });
  during_unlock = silent;
  unlocked = ok tt;
  current_after_unlock = true;
  clock = clock;
  current_after_reservation = true;
  during_signing = silent;
  signed = ok signature;
  current_after_signing = true;
  started_at = pos 1_000_100;
  during_submission = silent;
  answer = ok accepted_result;
  recorded_at = pos 1_000_200;
  failed_at = pos 1_000_200;
  reconciliation = none;
}

abbrev start : World
start = record {
  flow = initial_action_flow;
  held = none;
  repository = run external (register binding (pos 1) ∷ []) empty;
  sent = [];
}

abbrev code : Error → Option String
code _ = none

confirms : times_sent id (confirm_action external code script start).1 ≡ 1
unfolding computed
confirms = refl

confirm_action-IsOneSent_example : IsOneSent start (confirm_action external code script start).1
confirm_action-IsOneSent_example = confirm_action-IsOneSent external code script start

-- The exchange does not answer, the process ends, and the same action is confirmed again.
abbrev lost : Script
lost = record script { answer = ok unresolved_result }

abbrev history : List Event
history = confirmed lost ∷ restarted ∷ acted silent ∷ confirmed script ∷ []

submits_nothing : IsAccounted start
submits_nothing = record { once = λ _. omega arith; known = λ _ h. absurd (omega (arith, h)) }

run_events-IsAccounted_example : IsAccounted (run_events external code history start)
run_events-IsAccounted_example = run_events-IsAccounted external code history start submits_nothing
