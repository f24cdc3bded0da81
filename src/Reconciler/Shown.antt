-- ===== src/Reconciler/Shown.antt =====
-- The phase that the loop of the reconciler shows against what the journal holds.
use hyper_trader.Common.{
  ℕ, ◌≡◌, refl, sym, ap, ◌∙◌, subst, Bool, true, false, not, String, Option, none, some, List, [],
  ◌∷◌, Result, ok, err, ok_inj, if◌then◌else◌, arith,
}
use hyper_trader.Common.Runs.{passed, passed-eq-ok, return, Run}
use hyper_trader.Journal.{PreparedActionRecord, JournalState, JournalResultClass}
use hyper_trader.Policy.{terminal, unresolved}
use hyper_trader.Persistence.Tables.{Database, find_action}
use hyper_trader.Persistence.Actions.{Repository, get_action}
use hyper_trader.Persistence.Signers.{External}
use hyper_trader.Persistence.Calls.{run}
use hyper_trader.Reconciler.{
  ActionReconcilerResult, decided, lease_lost, not_reconcilable, already_terminal, result_class,
  terminal_phase, is_submitted, reconcile, Attempt, Turn, answered, again, turn_result, turn_due,
  turn_open, turn_found, turn, after_turn, reconcile_action,
}
use hyper_trader.Reconciler.Stored.{IsStored, IsReported, get_action-eq-some, reconcile-IsReported}

-- The journal holds the action in the terminal state that the phase stands for.
abbrev pub IsShown : String → JournalResultClass → Database → Type 0
IsShown id phase db =
    (row : PreparedActionRecord) × (find_action id db.actions ≡ some row)
    × (terminal_phase row.state ≡ some phase)

-- What a turn says, if it is an answer with a phase.
abbrev IsTold : String → Turn → Database → Type 0
IsTold id (answered (some phase)) db = IsShown id phase db
IsTold id (answered none) db = Unit
IsTold id again db = Unit

told :
    (id : String) (t : Turn) (repo : Repository) {u : Turn} {repo' : Repository}
    → return t repo ≡ (ok u, repo')
    → IsTold id t repo.database
    → IsTold id u repo'.database
told id t repo {u} {repo'} h given =
    subst (λ v. IsTold id v repo'.database) (ok_inj (ap (λ p. p.0) h))
      (subst (λ (v : Repository). IsTold id t v.database) (ap (λ p. p.1) h) given)

class_is_phase : (s : JournalState) → result_class s ≡ terminal_phase s
class_is_phase s = ground arith

IsTold-phase :
    (id : String) (s : JournalState) (db : Database) (phase : Option JournalResultClass)
    → phase ≡ terminal_phase s
    → IsStored id s db
    → IsTold id (answered phase) db
IsTold-phase id s db none e stored = tt
IsTold-phase id s db (some phase) e (row, found, same) =
    (row, found, ap terminal_phase same ∙ sym e)

module _ (x : External) (owner : String) where
  turn_result-IsTold :
      (id : String) (attempt : Attempt) (result : ActionReconcilerResult) (repo : Repository)
      {t : Turn} {repo' : Repository}
      → IsReported id result repo.database
      → turn_result x owner attempt result repo ≡ (ok t, repo')
      → IsTold id t repo'.database
  unfolding hyper_trader.Common.Runs.◌>>◌ hyper_trader.Common.Runs.◌>>=◌
  turn_result-IsTold id attempt (decided (terminal s)) repo r h =
      told id (answered (result_class s)) repo h
        (IsTold-phase id s repo.database (result_class s) (class_is_phase s) r)
  turn_result-IsTold id attempt (decided (unresolved reason)) repo r h = told id again repo h tt
  turn_result-IsTold id attempt lease_lost repo r h =
      told id again (run x attempt.retry_wait repo) h tt
  turn_result-IsTold id attempt not_reconcilable repo r h = told id (answered none) repo h tt
  turn_result-IsTold id attempt (already_terminal s) repo r h =
      told id (answered (terminal_phase s)) repo h
        (IsTold-phase id s repo.database (terminal_phase s) refl r)

  turn_due-IsTold :
      (id : String) (attempt : Attempt) (repo : Repository) {t : Turn} {repo' : Repository}
      → turn_due x owner id attempt repo ≡ (ok t, repo')
      → IsTold id t repo'.database
  unfolding hyper_trader.Common.Runs.◌>>=◌
  turn_due-IsTold id attempt repo {t} {repo'} h = pick (not attempt.still_goes_on) h
    where
      due : Run Repository Turn
      due s =
          passed (reconcile x owner id attempt.claimed_at attempt.load attempt.now s)
            (turn_result x owner attempt)

      pick :
          (stopped : Bool)
          → (if stopped then return (answered none) else due) repo ≡ (ok t, repo')
          → IsTold id t repo'.database
      pick true k = told id (answered none) repo k tt
      pick false k =
          let (result, s, call, k') =
            passed-eq-ok (reconcile x owner id attempt.claimed_at attempt.load attempt.now repo)
              (turn_result x owner attempt) k in
          turn_result-IsTold id attempt result s
            (reconcile-IsReported x owner id attempt.claimed_at attempt.load attempt.now repo call)
            k'

  turn_found-IsTold :
      (id : String) (attempt : Attempt) (row : Option PreparedActionRecord) (repo : Repository)
      {t : Turn} {repo' : Repository}
      → get_action id repo.database ≡ ok row
      → turn_found x owner id attempt row repo ≡ (ok t, repo')
      → IsTold id t repo'.database
  unfolding hyper_trader.Common.Runs.◌>>◌ hyper_trader.Common.Runs.◌>>=◌
  turn_found-IsTold id attempt none repo read h = told id (answered none) repo h tt
  turn_found-IsTold id attempt (some row) repo {t} {repo'} read h =
      pick (terminal_phase row.state) refl h
    where
      stored : IsStored id row.state repo.database
      stored = (row, (get_action-eq-some x owner id repo.database read).0, refl)

      pick :
          (phase : Option JournalResultClass)
          → terminal_phase row.state ≡ phase
          → turn_open x owner id attempt row.state phase repo ≡ (ok t, repo')
          → IsTold id t repo'.database
      pick (some p) e k =
          told id (answered (some p)) repo k
            (IsTold-phase id row.state repo.database (some p) (sym e) stored)
      pick none e k = waiting (not (is_submitted row.state)) k
        where
          due : Run Repository Turn
          due s = turn_due x owner id attempt (run x attempt.waited s)

          waiting :
              (other : Bool)
              → (if other then return (answered none) else due) repo ≡ (ok t, repo')
              → IsTold id t repo'.database
          waiting true k = told id (answered none) repo k tt
          waiting false k = turn_due-IsTold id attempt (run x attempt.waited repo) k

  turn-IsTold :
      (id : String) (attempt : Attempt) (repo : Repository) {t : Turn} {repo' : Repository}
      → turn x owner id attempt repo ≡ (ok t, repo')
      → IsTold id t repo'.database
  unfolding turn hyper_trader.Common.Runs.◌>>=◌
  turn-IsTold id attempt repo {t} {repo'} h = pick (not attempt.goes_on) h
    where
      looked : Run Repository Turn
      looked s = passed (get_action id s.database, s) (turn_found x owner id attempt)

      pick :
          (stopped : Bool)
          → (if stopped then return (answered none) else looked) repo ≡ (ok t, repo')
          → IsTold id t repo'.database
      pick true k = told id (answered none) repo k tt
      pick false k =
          let (row, s, read, k') =
            passed-eq-ok (get_action id repo.database, repo) (turn_found x owner id attempt) k in
          turn_found-IsTold id attempt row s
            (subst (λ (v : Repository). get_action id v.database ≡ ok row) (ap (λ p. p.1) read)
              (ap (λ p. p.0) read))
            k'

  -- If the loop ends with a phase for an action, then the journal holds the action in the terminal
  -- state of that name when it ends: after however many turns, and whatever others have called while
  -- it waited.
  pub reconcile_action-IsShown :
      (id : String) (attempts : List Attempt) (repo : Repository) {phase : JournalResultClass}
      {repo' : Repository}
      → reconcile_action x owner id attempts repo ≡ (ok (some phase), repo')
      → IsShown id phase repo'.database
  unfolding reconcile_action hyper_trader.Common.Runs.◌>>=◌
  reconcile_action-IsShown id [] repo h = absurd (ground (arith, ap (λ p. p.0) h))
  reconcile_action-IsShown id (attempt ∷ rest) repo {phase} {repo'} h =
      let (t, s, call, k) =
        passed-eq-ok (turn x owner id attempt repo)
          (after_turn x owner (reconcile_action x owner id rest)) h in
      next t s (turn-IsTold id attempt repo call) (λ r p. reconcile_action-IsShown id rest r p) k
    where
      next :
          (t : Turn) (s : Repository)
          → IsTold id t s.database
          → ((r : Repository)
              → reconcile_action x owner id rest r ≡ (ok (some phase), repo')
              → IsShown id phase repo'.database)
          → after_turn x owner (reconcile_action x owner id rest) t s ≡ (ok (some phase), repo')
          → IsShown id phase repo'.database
      next again s tell later k = later s k
      next (answered p) s tell later k =
          subst (λ v. IsTold id (answered v) repo'.database) (ok_inj (ap (λ q. q.0) k))
            (subst (λ (v : Repository). IsTold id (answered p) v.database) (ap (λ q. q.1) k) tell)
