-- ===== src/Reconciler/Live.antt =====
-- reconciler.ts, `reconcile`: when a decision is made and stored.
use hyper_trader.Common.{
  ◌>>=◌, ℕ, ◌+◌, ◌≡◌, ◌≤◌, ◌<◌, refl, sym, ap, ◌∙◌, subst, Bool, true, false, not, String, Option,
  none, some, List, [], ◌∷◌, arith, pos, ok, err, max_safe_integer, is_some, Result, str_eq_self,
}
use hyper_trader.Common.Runs.{passed}
use hyper_trader.Journal.{
  PreparedActionRecord, JournalActionType, JournalState, prepared, abandoned_before_submission,
  reconciled_ambiguous, JournalResultClass, is_terminal_journal_state, result_for_state,
}
use hyper_trader.Policy.{
  ReconciliationRecord, ReconciliationEvidence, ReconciliationDecision, terminal, unresolved,
  has_acceptance, has_rejection, at_or_after_expiry, decide_reconciliation, decide_action,
  decide_create, decide_close, decide_cancel, decide_leverage, create_verdict,
}
use hyper_trader.Persistence.Rows.{from_row, assert_lease_owner, is_reconcilable}
use hyper_trader.Persistence.Actions.{Repository, update_actions, transition_action, immediate}
use hyper_trader.Persistence.Leases.{
  ReconciliationLease, is_free, set_lease, set_expiry, is_claimable, is_renewable,
  renew_reconciliation_lease, claim_reconciliation_lease, claim_lease,
}
use hyper_trader.Persistence.Sole.{IsSole, IsSole-update_actions, claim_lease-ok, renew_lease-ok}
use hyper_trader.Persistence.Readable.{leased_row, apply_transition-ok, IsSole-get_action}
use hyper_trader.Persistence.Signers.{External}
use hyper_trader.Reconciler.{
  ActionReconcilerResult, decided, result_class, is_submitted, Load, reconciliation_record,
  decide_held, after_load, reconcile_claim, reconcile_leased, reconcile_found, reconcile,
}
use hyper_trader.Reconciler.Stored.{IsStored, reconcile-IsReported}

-- A decision that is terminal names a state that has a result class.
abbrev names_outcome : ReconciliationDecision → Bool
names_outcome (terminal s) = is_some (result_class s)
names_outcome (unresolved reason) = true

create_outcome : (a b c : Bool) → names_outcome (create_verdict a b c) ≡ true
unfolding create_verdict
create_outcome a b c = ground arith

action_outcome :
    (t : JournalActionType) (r : ReconciliationRecord) (evidence : ReconciliationEvidence)
    {d : ReconciliationDecision}
    → decide_action t r evidence ≡ ok d
    → names_outcome d ≡ true
unfolding decide_action decide_create decide_close decide_cancel decide_leverage
action_outcome t r evidence h = ground (
  arith,
  create_outcome (has_acceptance r evidence) (has_rejection r evidence)
      (at_or_after_expiry r evidence),
)

decision_outcome :
    (get_address : String → Option String) (r : ReconciliationRecord)
    (evidence : ReconciliationEvidence) {d : ReconciliationDecision}
    → decide_reconciliation get_address r evidence ≡ ok d
    → names_outcome d ≡ true
unfolding decide_reconciliation
decision_outcome get_address r evidence {d} h =
    ground (arith, action_outcome r.action_type r evidence {d = d})

class_of :
    (s : JournalState)
    → names_outcome (terminal s) ≡ true
    → (class : JournalResultClass) × (result_class s ≡ some class)
      × (result_for_state s ≡ some class)
      × (is_terminal_journal_state s ≡ true)
class_of JournalState.accepted h = (JournalResultClass.accepted, refl, refl, refl)
class_of JournalState.rejected h = (JournalResultClass.rejected, refl, refl, refl)
class_of JournalState.expired h = (JournalResultClass.expired, refl, refl, refl)
class_of reconciled_ambiguous h = (JournalResultClass.ambiguous, refl, refl, refl)
class_of prepared h = cc
class_of JournalState.submission_started h = cc
class_of JournalState.unresolved h = cc
class_of abandoned_before_submission h = cc

-- The evidence is loaded, and nobody else calls the repositories until it is.
abbrev pub undisturbed : ReconciliationEvidence → Load
undisturbed evidence = record { answer = some evidence; others = [] }

submitted_open : (s : JournalState) → is_submitted s ≡ true → is_terminal_journal_state s ≡ false
submitted_open s h = ground (arith, h)

module _ (x : External) (owner : String) where
  -- The lease that is taken at a time, and what is stored of it.
  abbrev lease_at : PreparedActionRecord → ℕ → ReconciliationLease
  lease_at row t = record { journal_id = row.journal_id; owner = owner; expires_at = t + 30_000 }

  abbrev claimed : PreparedActionRecord → ℕ → Repository → Repository
  claimed row t repo = record repo {
    database =
        update_actions (is_claimable row.journal_id t) (set_lease owner (t + 30_000) t)
          repo.database;
  }

  abbrev renewed : PreparedActionRecord → (t u : ℕ) → Repository → Repository
  renewed row t u repo = record repo {
    database =
        update_actions (is_renewable (lease_at row t) u) (set_expiry (u + 30_000) u) repo.database;
  }

  claimed-IsSole :
      (row : PreparedActionRecord) (t : ℕ) (repo : Repository)
      → IsSole row.journal_id repo.database row
      → is_reconcilable row.state ≡ true
      → is_free t row ≡ true
      → IsSole row.journal_id (claimed row t repo).database (set_lease owner (t + 30_000) t row)
  claimed-IsSole row t repo s r f =
      IsSole-update_actions row.journal_id (is_claimable row.journal_id t)
        (set_lease owner (t + 30_000) t) repo.database row s (λ _. refl)
        (rw (str_eq_self row.journal_id, r, f) refl)

  -- The renewal finds the lease that was just taken.
  is_renewed :
      (row : PreparedActionRecord) (t u : ℕ)
      → u < t + 30_000
      → is_renewable (lease_at row t) u (set_lease owner (t + 30_000) t row) ≡ true
  is_renewed row t u l = rw (str_eq_self row.journal_id, str_eq_self owner) (ground (arith, l))

  renewed-IsSole :
      (row : PreparedActionRecord) (t u : ℕ) (repo : Repository)
      → IsSole row.journal_id repo.database (set_lease owner (t + 30_000) t row)
      → u < t + 30_000
      → IsSole row.journal_id (renewed row t u repo).database (set_lease owner (u + 30_000) u row)
  renewed-IsSole row t u repo s l =
      IsSole-update_actions row.journal_id (is_renewable (lease_at row t) u)
        (set_expiry (u + 30_000) u) repo.database (set_lease owner (t + 30_000) t row) s (λ _. refl)
        (is_renewed row t u l)

  -- Once the lease is renewed, the decision is stored and answered.
  decide_held-ok :
      (row : PreparedActionRecord) (evidence : ReconciliationEvidence) (u : ℕ)
      (lease : ReconciliationLease) (repo : Repository) (s : JournalState)
      → IsSole row.journal_id repo.database (set_lease owner (u + 30_000) u row)
      → from_row row ≡ ok row
      → is_reconcilable row.state ≡ true
      → assert_lease_owner owner ≡ ok tt
      → u + 30_000 ≤ max_safe_integer
      → decide_reconciliation x.get_address (reconciliation_record row) evidence ≡ ok (terminal s)
      → (decide_held x owner row evidence (pos u) (some lease) repo).0 ≡ ok (decided (terminal s))
  unfolding hyper_trader.Common.Runs.◌>>◌ hyper_trader.Common.Runs.◌>>=◌ transition_action
  decide_held-ok row evidence u lease repo s sole h r o m d =
      let (class, e, f, t) =
        class_of s (decision_outcome x.get_address (reconciliation_record row) evidence d) in
      let held = leased_row row owner (u + 30_000) u h r o m (omega arith) in
      let made =
        apply_transition-ok row.journal_id s class u repo.database
          (set_lease owner (u + 30_000) u row) sole held r t f (omega arith) in
      rw (d, e, made) refl

  after_load-ok :
      (row : PreparedActionRecord) (evidence : ReconciliationEvidence) (t u : ℕ) (repo : Repository)
      (s : JournalState)
      → IsSole row.journal_id repo.database (set_lease owner (t + 30_000) t row)
      → from_row row ≡ ok row
      → is_reconcilable row.state ≡ true
      → assert_lease_owner owner ≡ ok tt
      → u < t + 30_000
      → u + 30_000 ≤ max_safe_integer
      → decide_reconciliation x.get_address (reconciliation_record row) evidence ≡ ok (terminal s)
      → (after_load x owner row (lease_at row t) (pos u) (some evidence) repo).0
        ≡ ok (decided (terminal s))
  unfolding hyper_trader.Common.Runs.◌>>=◌ renew_reconciliation_lease
  after_load-ok row evidence t u repo s sole h r o l m d =
      let made =
        renew_lease-ok row.journal_id owner (t + 30_000) u repo.database
          (set_lease owner (t + 30_000) t row) sole refl refl l o (omega arith) in
      let after = renewed-IsSole row t u repo sole l in
      ap (λ m. (passed (immediate repo m) (decide_held x owner row evidence (pos u))).0) made
      ∙ decide_held-ok row evidence u (lease_at row u) (renewed row t u repo) s after h r o m d

  -- A submitted action that no other worker holds is ended by one pass of the reconciler, once the
  -- evidence decides it: where one row has the identifier and can be read, the worker has a valid
  -- name, nobody else calls the repositories while the evidence is loaded, it is loaded before the
  -- lease of 30 seconds is over, and the times, the end of the renewed lease among them, are safe
  -- integers, the decision is answered, and the journal holds its state.
  pub reconcile-IsSettled :
      (row : PreparedActionRecord) (evidence : ReconciliationEvidence) (t u : ℕ) (repo : Repository)
      (s : JournalState)
      → IsSole row.journal_id repo.database row
      → from_row row ≡ ok row
      → is_submitted row.state ≡ true
      → is_free t row ≡ true
      → assert_lease_owner owner ≡ ok tt
      → t ≤ max_safe_integer
      → u < t + 30_000
      → u + 30_000 ≤ max_safe_integer
      → decide_reconciliation x.get_address (reconciliation_record row) evidence ≡ ok (terminal s)
      → let end = reconcile x owner row.journal_id (pos t) (undisturbed evidence) (pos u) repo in
        (end.0 ≡ ok (decided (terminal s))) × IsStored row.journal_id s end.1.database
  unfolding reconcile reconcile_claim claim_reconciliation_lease hyper_trader.Common.Runs.◌>>=◌
      hyper_trader.Common.Runs.◌>>◌
  reconcile-IsSettled row evidence t u repo s sole h r f o k l m d = (
    answer,
    reconcile-IsReported x owner row.journal_id (pos t) load (pos u) repo
        (ap (λ a. (a, end.1)) answer),
  )
    where
      load : Load
      load = undisturbed evidence

      end : Result ActionReconcilerResult × Repository
      end = reconcile x owner row.journal_id (pos t) load (pos u) repo

      made :
          claim_lease row.journal_id owner (pos t) none repo.database
          ≡ ok (some (lease_at row t), (claimed row t repo).database)
      made = claim_lease-ok row.journal_id owner t repo.database row sole o k r f

      answer : end.0 ≡ ok (decided (terminal s))
      answer =
          ap (λ found. (passed (found, repo) (reconcile_found x owner (pos t) load (pos u))).0)
            (IsSole-get_action row.journal_id repo.database row sole h)
          ∙ rw (submitted_open row.state r, r)
              (ap (λ m. (passed (immediate repo m) (reconcile_leased x owner row load (pos u))).0)
                made)
          ∙ after_load-ok row evidence t u (claimed row t repo) s
              (claimed-IsSole row t repo sole r f) h r o l m d
