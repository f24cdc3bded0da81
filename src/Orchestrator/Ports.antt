-- ===== src/Orchestrator/Ports.antt =====
-- apps/mobile/src/features/actions/orchestrator.ts: what a confirmation reads and writes, and its steps.
use hyper_trader.Common.{
  ℕ, Bool, not, String, Option, List, ◌∷◌, Number, Result, ok, plain_error, throw_if,
}
use hyper_trader.Common.Runs.{Run}
use hyper_trader.Nonces.{ClockGateInput}
use hyper_trader.Signing.{
  SignerBinding, Eip712Signature, mainnet_trading_release_stage, assert_trading_action_capability,
}
use hyper_trader.Persistence.Actions.{Repository}
use hyper_trader.Persistence.Signers.{PreparedActionInput}
use hyper_trader.Persistence.Calls.{Call}
use hyper_trader.Flow.{ActionFlowState, ActionFlowAction, reduce_action_flow}
use hyper_trader.Reconciler.{Attempt}

-- What `exchange.submit` is handed that the reservation and the signer decide.
pub record Submission : Type 0 where
  pub journal_id : String
  pub nonce : ℕ
  pub signature : Eip712Signature
  pub expires_after : ℕ

pub data ExchangeSubmissionResult : Type 0 where
  accepted_result expired_result unresolved_result : ExchangeSubmissionResult
  rejected_result : (minimum_notional : Bool) → ExchangeSubmissionResult

-- The variables of the orchestrator, `journalId` of the running confirmation, the repositories, and
-- the submissions that have been made, the last one first.
pub record World : Type 0 where
  pub flow : ActionFlowState
  pub held : Option String
  pub repository : Repository
  pub sent : List Submission

-- What others do during an await.
pub record Others : Type 0 where
  pub calls : List Call
  pub dispatched : List ActionFlowAction

-- What the refreshed data comes to once it is validated and found to be what was reviewed.
pub record Checked : Type 0 where
  pub prepared_action : PreparedActionInput
  -- The message for a rejection, which depends on the type of the action.
  pub rejected_message : Option String

-- The reconciliation port: its owner, its turns, and whether it throws otherwise.
pub record Reconciliation : Type 0 where
  pub owner : String
  pub attempts : List Attempt
  pub others : Others

-- One confirmation: the review's binding and epoch, what the ports answer, and whether the context is
-- current at each of the five points that ask.
pub record Script : Type 0 where
  pub binding : SignerBinding
  pub validation_network : String
  pub captured_context_epoch : Number
  pub current_before_refresh : Bool
  pub during_refresh : Others
  pub refreshed : Result (Unit {0})
  pub current_after_refresh : Bool
  pub checked : Result Checked
  pub during_unlock : Others
  pub unlocked : Result (Unit {0})
  pub current_after_unlock : Bool
  pub clock : ClockGateInput
  pub current_after_reservation : Bool
  pub during_signing : Others
  pub signed : Result Eip712Signature
  pub current_after_signing : Bool
  pub started_at : Number
  pub during_submission : Others
  pub answer : Result ExchangeSubmissionResult
  pub recorded_at : Number
  pub failed_at : Number
  pub reconciliation : Option Reconciliation

unfoldable pub dispatch : ActionFlowAction → Run World (Unit {0})
dispatch action w = (ok tt, record w { flow = reduce_action_flow w.flow action })

-- A call of the repositories.
unfoldable pub on_repository : {A : Type 0} → Run Repository A → Run World A
on_repository call w = let done = call w.repository in (done.0, record w { repository = done.1 })

unfoldable pub hold_journal : Option String → Run World (Unit {0})
hold_journal id w = (ok tt, record w { held = id })

unfoldable pub given : {A : Type 0} → Result A → Run World A
given result w = (result, w)

abbrev pub require_current : Bool → Run World (Unit {0})
require_current current =
    given (throw_if (not current) (plain_error "The active trading context changed."))

abbrev pub require_capability : String → Run World (Unit {0})
require_capability network =
    given (assert_trading_action_capability mainnet_trading_release_stage network)

unfoldable pub send : Submission → Run World (Unit {0})
send submission w = (ok tt, record w { sent = submission ∷ w.sent })
