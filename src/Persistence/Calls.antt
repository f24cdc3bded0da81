-- ===== src/Persistence/Calls.antt =====
-- The repositories of apps/mobile/src/platform/persistence as what they are called with: a sequence
-- of calls, with restarts of the process between them, takes one repository to another.
use hyper_trader.Common.{
  ℕ, ◌+◌, String, Option, List, [], ◌∷◌, Number, Result, ok, err, if◌then◌else◌, str_eq,
}
use hyper_trader.Journal.{JournalState, JournalResultClass}
use hyper_trader.Signing.{SignerBinding}
use hyper_trader.Persistence.Actions.{
  Repository, SubmissionStartReceipt, mark_submission_started, transition_action,
}
use hyper_trader.Persistence.Leases.{
  ReconciliationLease, claim_reconciliation_lease, claim_next_reconciliation,
  renew_reconciliation_lease, release_reconciliation_lease, schedule_reconciliation,
}
use hyper_trader.Persistence.Recovery.{recover_after_restart}
use hyper_trader.Persistence.Signers.{
  External, AtomicActionReservationInput, register_active_signer_scope, reserve_prepared_action,
}
use hyper_trader.Persistence.Tombstones.{RetiredSignerTombstoneInput}
use hyper_trader.Persistence.Retirement.{mark_signer_retiring, retire_signer_scope}

-- The operations that write, and the start of a new process, which has no reservations.
pub data Call : Type 0 where
  mark : String → Number → Call
  transit : String → JournalState → Option JournalResultClass → Number → Call
  claim : String → String → Number → Option Number → Call
  claim_any : String → Number → Option Number → Call
  renew : ReconciliationLease → Number → Option Number → Call
  release : ReconciliationLease → Number → Call
  postpone : String → String → Number → Number → Call
  recover : Number → Call
  restart : Call
  register : SignerBinding → Number → Call
  prepare : AtomicActionReservationInput → Call
  lock : SignerBinding → Number → Call
  retire : SignerBinding → RetiredSignerTombstoneInput → Call

module _ (x : External) where
  -- What a call leaves of the repository, whether it throws or not.
  abbrev pub step : Call → Repository → Repository
  step (mark id now) repo = (mark_submission_started id now repo).1
  step (transit id next class now) repo = (transition_action id next class now repo).1
  step (claim id owner now duration) repo =
      (claim_reconciliation_lease id owner now duration repo).1
  step (claim_any owner now duration) repo = (claim_next_reconciliation owner now duration repo).1
  step (renew lease now duration) repo = (renew_reconciliation_lease lease now duration repo).1
  step (release lease now) repo = (release_reconciliation_lease lease now repo).1
  step (postpone id owner now next) repo = (schedule_reconciliation id owner now next repo).1
  step (recover now) repo = (recover_after_restart now repo).1
  step restart repo = record repo { prepared_in_this_process = [] }
  step (register binding at) repo = (register_active_signer_scope x binding at repo).1
  step (prepare input) repo = (reserve_prepared_action x input repo).1
  step (lock binding now) repo = (mark_signer_retiring x binding now repo).1
  step (retire binding tombstone) repo = (retire_signer_scope x binding tombstone repo).1

  abbrev pub permits : Result SubmissionStartReceipt → ℕ
  permits (ok _) = 1
  permits (err _) = 0

  -- How many permits to write the action to the transport a call returns.
  abbrev pub permits_of : String → Call → Repository → ℕ
  permits_of id (mark other now) repo =
      if str_eq other id then permits (mark_submission_started other now repo).0 else 0
  permits_of id _ repo = 0

  abbrev pub run : List Call → Repository → Repository
  run [] repo = repo
  run (call ∷ calls) repo = run calls (step call repo)

  -- How many permits for one action a sequence of calls returns.
  abbrev pub submissions : String → List Call → Repository → ℕ
  submissions id [] repo = 0
  submissions id (call ∷ calls) repo =
      permits_of id call repo + submissions id calls (step call repo)
