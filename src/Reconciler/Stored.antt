-- ===== src/Reconciler/Stored.antt =====
-- What the reconciler answers against what the journal holds.
use mathlib.Core.Option.{some_inj}
use mathlib.Core.Option
use hyper_trader.Common.{
  ◌>>=◌, ℕ, ◌≡◌, ◌⊎◌, inl, inr, refl, sym, ap, ◌∙◌, subst, Bool, true, false, not, String, Option,
  none, some, List, [], ◌∷◌, arith, Number, pos, Result, ok, err, ok_inj, >>=-eq-ok, >>-eq-ok,
  if◌then◌else◌, find, find-eq-some, str_eq_iff, Bool-cases,
}
use hyper_trader.Common.Runs.{passed, passed-eq-ok, passed-return, return, Run}
use hyper_trader.Journal.{
  PreparedActionRecord, JournalState, JournalResultClass, state_eq, assert_journal_transition,
  assert_journal_result_class, is_terminal_journal_state,
}
use hyper_trader.Policy.{
  ReconciliationEvidence, ReconciliationDecision, terminal, unresolved, decide_reconciliation,
}
use hyper_trader.Persistence.Rows.{assert_time, from_row}
use hyper_trader.Persistence.Tables.{Database, find_action, has_id, find-update_where}
use hyper_trader.Persistence.Actions.{
  Repository, require_action, apply_transition, transition_action, is_at, set_result, settle,
  get_action,
}
use hyper_trader.Persistence.Leases.{
  ReconciliationLease, renew_reconciliation_lease, claim_reconciliation_lease,
  schedule_reconciliation,
}
use hyper_trader.Persistence.Progress.{require_action-eq-ok, update_one-eq-ok, from_row-eq-ok}
use hyper_trader.Persistence.Signers.{External}
use hyper_trader.Persistence.Calls.{run}
use hyper_trader.Reconciler.{
  ActionReconcilerResult, decided, lease_lost, not_reconcilable, already_terminal, result_class,
  is_submitted, Load, reconciliation_record, store_decision, schedule_held, schedule_after_failure,
  decide_held, after_load, reconcile_claim, reconcile_leased, reconcile_found, reconcile,
}

-- The journal holds the action in a state.
abbrev pub IsStored : String → JournalState → Database → Type 0
IsStored id state db =
    (row : PreparedActionRecord) × (find_action id db.actions ≡ some row) × (row.state ≡ state)

state_eq_self : (s : JournalState) → state_eq s s ≡ true
state_eq_self s = ground arith

-- A transition that returns has stored the state.
apply_transition-IsStored :
    (id : String) (next : JournalState) (class : Option JournalResultClass) (now : Number)
    (db : Database) {r : PreparedActionRecord} {db' : Database}
    → apply_transition id next class now db ≡ ok (r, db')
    → IsStored id next db'
unfolding apply_transition find_action
apply_transition-IsStored id next class now db {r} {db'} h =
    let (t, _, h₁) = >>=-eq-ok (assert_time now "now") _ h in
    let (current, read, h₂) = >>=-eq-ok (require_action id db) _ h₁ in
    let (_, h₃) = >>-eq-ok (assert_journal_transition current.state next) _ h₂ in
    let (_, h₄) = >>-eq-ok (assert_journal_result_class next class) _ h₃ in
    let (same, _, _) =
      update_one-eq-ok id (is_at id current.state) (set_result next class t) _ db h₄ in
    let found = (require_action-eq-ok id db read).0 in
    let at : is_at id current.state current ≡ true =
      rw (find-eq-some (has_id id) db.actions found, state_eq_self current.state) refl in
    (
      set_result next class t current,
      ap (λ d. find_action id d.actions) same
          ∙ find-update_where (has_id id) (is_at id current.state) (set_result next class t)
              db.actions (λ _. refl)
          ∙ ap (Option.map (λ x. if is_at id current.state x then set_result next class t x else x))
              found
          ∙ ap (λ b. some (if b then set_result next class t current else current)) at,
      refl,
    )

settle-eq-ok :
    (id : String) (repo : Repository) (m : Result (PreparedActionRecord × Database))
    {r : PreparedActionRecord} {repo' : Repository}
    → settle id repo m ≡ (ok r, repo')
    → (db : Database) × (m ≡ ok (r, db)) × (repo'.database ≡ db)
settle-eq-ok id repo (err e) h = cc
settle-eq-ok id repo (ok (a, db)) h = (
  db,
  ap (λ p. ok p) (ap (λ v. (v, db)) (ok_inj (ap (λ p. p.0) h))),
  ap (λ p. p.1.database) (sym h),
)

transition_action-IsStored :
    (id : String) (next : JournalState) (class : Option JournalResultClass) (now : Number)
    (repo : Repository) {r : PreparedActionRecord} {repo' : Repository}
    → transition_action id next class now repo ≡ (ok r, repo')
    → IsStored id next repo'.database
unfolding transition_action
transition_action-IsStored id next class now repo h =
    let (db, e, same) = settle-eq-ok id repo _ h in
    subst (IsStored id next) (sym same)
      (apply_transition-IsStored id next class now repo.database e)

-- What an answer of the reconciler says of the journal: a state that it names is the one stored.
abbrev pub IsReported : String → ActionReconcilerResult → Database → Type 0
IsReported id (decided (terminal s)) db = IsStored id s db
IsReported id (decided (unresolved _)) db = Unit
IsReported id lease_lost db = Unit
IsReported id not_reconcilable db = Unit
IsReported id (already_terminal s) db = IsStored id s db

-- An answer given as it stands.
returned :
    (id : String) (a : ActionReconcilerResult) (repo : Repository) {r : ActionReconcilerResult}
    {repo' : Repository}
    → return a repo ≡ (ok r, repo')
    → IsReported id a repo.database
    → IsReported id r repo'.database
returned id a repo {r} {repo'} h given =
    subst (λ v. IsReported id v repo'.database) (ok_inj (ap (λ p. p.0) h))
      (subst (λ (v : Repository). IsReported id a v.database) (ap (λ p. p.1) h) given)

module _ (x : External) (owner : String) where
  schedule_held-IsReported :
      (row : PreparedActionRecord) (now : Number) (lease : Option ReconciliationLease)
      (repo : Repository) {r : ActionReconcilerResult} {repo' : Repository}
      → schedule_held x owner row now lease repo ≡ (ok r, repo')
      → IsReported row.journal_id r repo'.database
  unfolding hyper_trader.Common.Runs.◌>>◌ hyper_trader.Common.Runs.◌>>=◌
  schedule_held-IsReported row now none repo h = returned row.journal_id lease_lost repo h tt
  schedule_held-IsReported row now (some l) repo {r} {repo'} h =
      let (same, _, _) =
        passed-return (schedule_reconciliation row.journal_id owner now _ repo) _ h in
      subst (λ v. IsReported row.journal_id v repo'.database) same tt

  stored_decision :
      (row : PreparedActionRecord) (now : Number) (d : ReconciliationDecision) (at : Repository)
      {r : ActionReconcilerResult} {repo' : Repository}
      → passed (store_decision x owner row now d at) (λ _. return (decided d)) ≡ (ok r, repo')
      → IsReported row.journal_id r repo'.database
  stored_decision row now (unresolved reason) at {r} {repo'} e =
      let (same, _, _) =
        passed-return (schedule_reconciliation row.journal_id owner now _ at) _ e in
      subst (λ v. IsReported row.journal_id v repo'.database) same tt
  stored_decision row now (terminal t) at {r} {repo'} e =
      let (same, _, put) =
        passed-return (transition_action row.journal_id t (result_class t) now at) _ e in
      subst (λ v. IsReported row.journal_id v repo'.database) same
        (transition_action-IsStored row.journal_id t (result_class t) now at put)

  decide_held-IsReported :
      (row : PreparedActionRecord) (evidence : ReconciliationEvidence) (now : Number)
      (lease : Option ReconciliationLease) (repo : Repository) {r : ActionReconcilerResult}
      {repo' : Repository}
      → decide_held x owner row evidence now lease repo ≡ (ok r, repo')
      → IsReported row.journal_id r repo'.database
  unfolding hyper_trader.Common.Runs.◌>>◌ hyper_trader.Common.Runs.◌>>=◌
  decide_held-IsReported row evidence now none repo h = returned row.journal_id lease_lost repo h tt
  decide_held-IsReported row evidence now (some l) repo h =
      let (d, at, _, e) =
        passed-eq-ok
          (decide_reconciliation x.get_address (reconciliation_record row) evidence, repo)
          (λ d at. passed (store_decision x owner row now d at) (λ _. return (decided d))) h in
      stored_decision row now d at e

  after_load-IsReported :
      (row : PreparedActionRecord) (lease : ReconciliationLease) (now : Number)
      (answer : Option ReconciliationEvidence) (repo : Repository) {r : ActionReconcilerResult}
      {repo' : Repository}
      → after_load x owner row lease now answer repo ≡ (ok r, repo')
      → IsReported row.journal_id r repo'.database
  unfolding schedule_after_failure hyper_trader.Common.Runs.◌>>=◌ hyper_trader.Common.Runs.◌>>◌
  after_load-IsReported row lease now none repo h =
      let (renewed, at, _, e) =
        passed-eq-ok (renew_reconciliation_lease lease now none repo)
          (schedule_held x owner row now) h in
      schedule_held-IsReported row now renewed at e
  after_load-IsReported row lease now (some evidence) repo h =
      let (renewed, at, _, e) =
        passed-eq-ok (renew_reconciliation_lease lease now none repo)
          (decide_held x owner row evidence now) h in
      decide_held-IsReported row evidence now renewed at e

  reconcile_leased-IsReported :
      (row : PreparedActionRecord) (load : Load) (now : Number) (lease : Option ReconciliationLease)
      (repo : Repository) {r : ActionReconcilerResult} {repo' : Repository}
      → reconcile_leased x owner row load now lease repo ≡ (ok r, repo')
      → IsReported row.journal_id r repo'.database
  unfolding reconcile_claim hyper_trader.Common.Runs.◌>>=◌ hyper_trader.Common.Runs.◌>>◌
  reconcile_leased-IsReported row load now none repo h =
      returned row.journal_id lease_lost repo h tt
  reconcile_leased-IsReported row load now (some lease) repo h =
      after_load-IsReported row lease now load.answer (run x load.others repo) h

  pub get_action-eq-some :
      (id : String) (db : Database) {row : PreparedActionRecord}
      → get_action id db ≡ ok (some row)
      → (find_action id db.actions ≡ some row) × (row.journal_id ≡ id)
  unfolding get_action find_action
  get_action-eq-some id db {row} h = go (find (has_id id) db.actions) refl h
    where
      go :
          (o : Option PreparedActionRecord)
          → find (has_id id) db.actions ≡ o
          → elim o [ none ↦ ok none | some row ↦ from_row row >>= λ r. ok (some r) ] ≡ ok (some row)
          → (find (has_id id) db.actions ≡ some row) × (row.journal_id ≡ id)
      go none e k = cc
      go (some row') e k =
          let (r, read, k') = >>=-eq-ok (from_row row') _ k in
          let same : row' ≡ row = sym (from_row-eq-ok row' read) ∙ some_inj.0 (ok_inj k') in
          let found = e ∙ ap some same in
          (found, (str_eq_iff row.journal_id id).0 (find-eq-some (has_id id) db.actions found))

  reconcile_found-IsReported :
      (id : String) (claimed_at : Number) (load : Load) (now : Number)
      (row : Option PreparedActionRecord) (at : Repository) {r : ActionReconcilerResult}
      {repo' : Repository}
      → get_action id at.database ≡ ok row
      → reconcile_found x owner claimed_at load now row at ≡ (ok r, repo')
      → IsReported id r repo'.database
  unfolding hyper_trader.Common.Runs.◌>>=◌
  reconcile_found-IsReported id claimed_at load now none at read e =
      returned id not_reconcilable at e tt
  reconcile_found-IsReported id claimed_at load now (some row) at {r} {repo'} read e =
      pick (is_terminal_journal_state row.state) (not (is_submitted row.state)) e
    where
      stored : (find_action id at.database.actions ≡ some row) × (row.journal_id ≡ id)
      stored = get_action-eq-some id at.database read

      leased : Run Repository ActionReconcilerResult
      leased s =
          passed (claim_reconciliation_lease row.journal_id owner claimed_at none s)
            (reconcile_leased x owner row load now)

      pick :
          (ended other : Bool)
          → (if ended
                then return (already_terminal row.state)
                else if other
                then return not_reconcilable
                else leased)
              at
            ≡ (ok r, repo')
          → IsReported id r repo'.database
      pick true other k = returned id (already_terminal row.state) at k (row, stored.0, refl)
      pick false true k = returned id not_reconcilable at k tt
      pick false false k =
          let (lease, s, _, k') =
            passed-eq-ok (claim_reconciliation_lease row.journal_id owner claimed_at none at)
              (reconcile_leased x owner row load now) k in
          subst (λ i. IsReported i r repo'.database) stored.1
            (reconcile_leased-IsReported row load now lease s k')

  -- What the reconciler answers of an action is what the journal holds when it answers, whatever
  -- others have called in the meantime: a state that it has decided or has met is the state stored.
  pub reconcile-IsReported :
      (id : String) (claimed_at : Number) (load : Load) (now : Number) (repo : Repository)
      {r : ActionReconcilerResult} {repo' : Repository}
      → reconcile x owner id claimed_at load now repo ≡ (ok r, repo')
      → IsReported id r repo'.database
  unfolding reconcile hyper_trader.Common.Runs.◌>>=◌
  reconcile-IsReported id claimed_at load now repo {r} {repo'} h =
      let (row, at, read, e) =
        passed-eq-ok (get_action id repo.database, repo)
          (reconcile_found x owner claimed_at load now) h in
      reconcile_found-IsReported id claimed_at load now row at
        (subst (λ (v : Repository). get_action id v.database ≡ ok row) (ap (λ p. p.1) read)
          (ap (λ p. p.0) read))
        e
