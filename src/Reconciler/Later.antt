-- ===== src/Reconciler/Later.antt =====
-- The reconciler takes no action back to `prepared`.
use hyper_trader.Common.{
  Bool, true, false, not, String, Option, none, some, List, [], ◌∷◌, Number, Result, ok, err,
  if◌then◌else◌,
}
use hyper_trader.Common.Runs.{Run, passed, ◌>>=◌, ◌>>◌, return, query, meanwhile}
use hyper_trader.Journal.{
  PreparedActionRecord, JournalState, JournalResultClass, is_terminal_journal_state,
}
use hyper_trader.Policy.{ReconciliationEvidence, ReconciliationDecision, terminal, unresolved}
use hyper_trader.Persistence.Actions.{Repository, transition_action}
use hyper_trader.Persistence.Leases.{
  ReconciliationLease, claim_reconciliation_lease, renew_reconciliation_lease,
  schedule_reconciliation,
}
use hyper_trader.Persistence.Signers.{External}
use hyper_trader.Persistence.Calls.{Call, run, step, transit, claim, renew, postpone}
use hyper_trader.Persistence.Progress.{IsLater}
use hyper_trader.Persistence.Later.{IsLater-refl, IsLater-trans}
use hyper_trader.Persistence.History.{step-IsLater}
use hyper_trader.Reconciler.{
  ActionReconcilerResult, decided, lease_lost, not_reconcilable, already_terminal, result_class,
  terminal_phase, is_submitted, Load, store_decision, schedule_held, schedule_after_failure,
  decide_held, after_load, reconcile_claim, reconcile_leased, reconcile_found, reconcile, Attempt,
  Turn, answered, again, turn_result, turn_open, turn_found, turn, after_turn, reconcile_action,
}

-- Whatever it comes to, it leaves a later database.
unfoldable pub IsForward : {A : Type 0} → Run Repository A → Type 0
IsForward call = (repo : Repository) → IsLater repo.database (call repo).1.database

>>=-IsForward :
    {A B : Type 0} (first : Run Repository A) (continue : A → Run Repository B)
    → IsForward first
    → ((a : A) → IsForward (continue a))
    → IsForward (first >>= continue)
unfolding ◌>>=◌ IsForward
>>=-IsForward {A} {B} first continue h k repo = go (first repo) (h repo)
  where
    go :
        (done : Result A × Repository)
        → IsLater repo.database done.1.database
        → IsLater repo.database (passed done continue).1.database
    go (err thrown, at) l = l
    go (ok a, at) l = IsLater-trans repo.database at.database (continue a at).1.database l (k a at)

query-IsForward : {A : Type 0} (read : Repository → Result A) → IsForward (query read)
unfolding IsForward
query-IsForward read repo = IsLater-refl repo.database

return-IsForward : {A : Type 0} (a : A) → IsForward (return a)
unfolding IsForward
return-IsForward a repo = IsLater-refl repo.database

if-IsForward :
    {A : Type 0} (b : Bool) (first second : Run Repository A)
    → IsForward first
    → IsForward second
    → IsForward (if b then first else second)
if-IsForward true first second h k = h
if-IsForward false first second h k = k

>>-IsForward :
    {A B : Type 0} (first : Run Repository A) (rest : Run Repository B)
    → IsForward first
    → IsForward rest
    → IsForward (first >> rest)
unfolding ◌>>◌
>>-IsForward first rest h k = >>=-IsForward first _ h (λ _. k)

module _ (x : External) where
  pub run-IsLater :
      (calls : List Call) (repo : Repository) → IsLater repo.database (run x calls repo).database
  run-IsLater [] repo = IsLater-refl repo.database
  run-IsLater (call ∷ calls) repo =
      IsLater-trans repo.database (step x call repo).database
        (run x calls (step x call repo)).database (step-IsLater x call repo)
        (run-IsLater calls (step x call repo))

  meanwhile-IsForward : (calls : List Call) → IsForward (meanwhile (run x calls))
  unfolding IsForward
  meanwhile-IsForward calls repo = run-IsLater calls repo

  pub transition-IsForward :
      (id : String) (next : JournalState) (class : Option JournalResultClass) (now : Number)
      → IsForward (transition_action id next class now)
  unfolding IsForward
  transition-IsForward id next class now repo = step-IsLater x (transit id next class now) repo

  schedule-IsForward :
      (id owner : String) (now next : Number)
      → IsForward (schedule_reconciliation id owner now next)
  unfolding IsForward
  schedule-IsForward id owner now next repo = step-IsLater x (postpone id owner now next) repo

  renew-IsForward :
      (lease : ReconciliationLease) (now : Number) (duration : Option Number)
      → IsForward (renew_reconciliation_lease lease now duration)
  unfolding IsForward
  renew-IsForward lease now duration repo = step-IsLater x (renew lease now duration) repo

  claim-IsForward :
      (id owner : String) (now : Number) (duration : Option Number)
      → IsForward (claim_reconciliation_lease id owner now duration)
  unfolding IsForward
  claim-IsForward id owner now duration repo = step-IsLater x (claim id owner now duration) repo

  module _ (owner : String) where
    schedule_held-IsForward :
        (row : PreparedActionRecord) (now : Number) (lease : Option ReconciliationLease)
        → IsForward (schedule_held x owner row now lease)
    schedule_held-IsForward row now none = return-IsForward _
    schedule_held-IsForward row now (some l) =
        >>-IsForward _ _ (schedule-IsForward row.journal_id owner now _) (return-IsForward _)

    store_decision-IsForward :
        (row : PreparedActionRecord) (now : Number) (d : ReconciliationDecision)
        → IsForward (store_decision x owner row now d)
    store_decision-IsForward row now (unresolved reason) =
        schedule-IsForward row.journal_id owner now _
    store_decision-IsForward row now (terminal s) =
        transition-IsForward row.journal_id s (result_class s) now

    decide_held-IsForward :
        (row : PreparedActionRecord) (evidence : ReconciliationEvidence) (now : Number)
        (lease : Option ReconciliationLease)
        → IsForward (decide_held x owner row evidence now lease)
    decide_held-IsForward row evidence now none = return-IsForward _
    decide_held-IsForward row evidence now (some l) =
        >>=-IsForward _ _ (query-IsForward _)
          (λ d. >>-IsForward _ _ (store_decision-IsForward row now d) (return-IsForward _))

    after_load-IsForward :
        (row : PreparedActionRecord) (lease : ReconciliationLease) (now : Number)
        (answer : Option ReconciliationEvidence)
        → IsForward (after_load x owner row lease now answer)
    unfolding schedule_after_failure
    after_load-IsForward row lease now none =
        >>=-IsForward _ _ (renew-IsForward lease now none) (λ l. schedule_held-IsForward row now l)
    after_load-IsForward row lease now (some evidence) =
        >>=-IsForward _ _ (renew-IsForward lease now none)
          (λ l. decide_held-IsForward row evidence now l)

    reconcile_leased-IsForward :
        (row : PreparedActionRecord) (load : Load) (now : Number)
        (lease : Option ReconciliationLease)
        → IsForward (reconcile_leased x owner row load now lease)
    unfolding reconcile_claim
    reconcile_leased-IsForward row load now none = return-IsForward _
    reconcile_leased-IsForward row load now (some lease) =
        >>-IsForward _ _ (meanwhile-IsForward load.others)
          (after_load-IsForward row lease now load.answer)

    reconcile_found-IsForward :
        (claimed_at : Number) (load : Load) (now : Number) (row : Option PreparedActionRecord)
        → IsForward (reconcile_found x owner claimed_at load now row)
    reconcile_found-IsForward claimed_at load now none = return-IsForward _
    reconcile_found-IsForward claimed_at load now (some row) =
        if-IsForward (is_terminal_journal_state row.state) _ _
          (return-IsForward (already_terminal row.state))
          (if-IsForward (not (is_submitted row.state)) _ _ (return-IsForward not_reconcilable) (
            >>=-IsForward _ _ (claim-IsForward row.journal_id owner claimed_at none)
              (λ l. reconcile_leased-IsForward row load now l)))

    reconcile-IsForward :
        (id : String) (claimed_at : Number) (load : Load) (now : Number)
        → IsForward (reconcile x owner id claimed_at load now)
    unfolding reconcile
    reconcile-IsForward id claimed_at load now =
        >>=-IsForward _ _ (query-IsForward _)
          (λ row. reconcile_found-IsForward claimed_at load now row)

    turn_result-IsForward :
        (attempt : Attempt) (result : ActionReconcilerResult)
        → IsForward (turn_result x owner attempt result)
    turn_result-IsForward attempt (decided (terminal s)) = return-IsForward _
    turn_result-IsForward attempt (decided (unresolved reason)) = return-IsForward _
    turn_result-IsForward attempt lease_lost =
        >>-IsForward _ _ (meanwhile-IsForward attempt.retry_wait) (return-IsForward _)
    turn_result-IsForward attempt not_reconcilable = return-IsForward _
    turn_result-IsForward attempt (already_terminal s) = return-IsForward _

    turn_open-IsForward :
        (id : String) (attempt : Attempt) (state : JournalState) (phase : Option JournalResultClass)
        → IsForward (turn_open x owner id attempt state phase)
    turn_open-IsForward id attempt state (some phase) = return-IsForward _
    turn_open-IsForward id attempt state none =
        if-IsForward (not (is_submitted state)) _ _ (return-IsForward (answered none)) (
          >>-IsForward _ _ (meanwhile-IsForward attempt.waited) (
            if-IsForward (not attempt.still_goes_on) _ _ (return-IsForward (answered none)) (
              >>=-IsForward _ _ (reconcile-IsForward id attempt.claimed_at attempt.load attempt.now)
                (λ r. turn_result-IsForward attempt r))))

    turn_found-IsForward :
        (id : String) (attempt : Attempt) (row : Option PreparedActionRecord)
        → IsForward (turn_found x owner id attempt row)
    turn_found-IsForward id attempt none = return-IsForward _
    turn_found-IsForward id attempt (some row) =
        turn_open-IsForward id attempt row.state (terminal_phase row.state)

    turn-IsForward : (id : String) (attempt : Attempt) → IsForward (turn x owner id attempt)
    unfolding turn
    turn-IsForward id attempt =
        if-IsForward (not attempt.goes_on) _ _ (return-IsForward (answered none))
          (>>=-IsForward _ _ (query-IsForward _) (λ row. turn_found-IsForward id attempt row))

    after_turn-IsForward :
        (rest : Run Repository (Option JournalResultClass)) (t : Turn)
        → IsForward rest
        → IsForward (after_turn x owner rest t)
    after_turn-IsForward rest (answered p) h = return-IsForward _
    after_turn-IsForward rest again h = h

    -- The loop leaves a later database.
    pub reconcile_action-IsForward :
        (id : String) (attempts : List Attempt) → IsForward (reconcile_action x owner id attempts)
    unfolding reconcile_action
    reconcile_action-IsForward id [] = return-IsForward _
    reconcile_action-IsForward id (attempt ∷ rest) =
        >>=-IsForward _ _ (turn-IsForward id attempt)
          (λ t. after_turn-IsForward _ t (reconcile_action-IsForward id rest))
