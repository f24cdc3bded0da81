-- ===== src/Persistence/History.antt =====
-- Sequences of calls of the repositories, and the permits to submit an action that they return.
use mathlib.Core.Option
use hyper_trader.Common.{
  ℕ, ◌≤◌, ◌≡◌, refl, ◌∙◌, ap, subst, Bool, true, false, String, Option, none, some, List, [], ◌∷◌,
  arith, Result, ok, err, >>=-eq-ok, >>-eq-ok, throw_if, throw_if-eq-ok, str_eq, str_eq_iff, inl,
  inr, ◌⊎◌, if◌then◌else◌, not-eq-false, find-eq-some,
}
use hyper_trader.Journal.{PreparedActionRecord, may_mark_submission_started}
use hyper_trader.Persistence.Rows.{assert_time}
use hyper_trader.Persistence.Tables.{Database, find_action, has_id, find-update_where}
use hyper_trader.Persistence.Actions.{
  Repository, mark_held, mark_at, require_action, register_current_process_reservation,
  start_submission, mark_submission_started, is_startable, set_started, immediate,
  transition_action, reserved, settle, receive,
}
use hyper_trader.Persistence.Leases.{
  claim_reconciliation_lease, claim_next_reconciliation, renew_reconciliation_lease,
  release_reconciliation_lease, schedule_reconciliation,
}
use hyper_trader.Persistence.Recovery.{recover_after_restart, recover_at, recover_rows}
use hyper_trader.Persistence.Signers.{
  External, register_active_signer_scope, reserve_prepared_action, hold,
}
use hyper_trader.Persistence.Retirement.{mark_signer_retiring, retire_signer_scope}
use hyper_trader.Persistence.Added.{retire_scope-actions}
use hyper_trader.Persistence.Progress.{
  has_left, some_left, is_past_prepared, IsLater, require_action-eq-ok, update_one-eq-ok,
  start_submission-IsLater, apply_transition-IsLater,
}
use hyper_trader.Persistence.Later.{
  IsLater-refl, claim_lease-IsLater, claim_next-IsLater, renew_lease-IsLater, release_lease-IsLater,
  schedule-IsLater, recover_rows-IsLater,
}
use hyper_trader.Persistence.Inserted.{
  same_actions-IsLater, reserve_action-IsLater, register_active_signer-actions,
  mark_retiring-actions,
}
use hyper_trader.Persistence.Calls.{
  permits, Call, step, permits_of, submissions, mark, transit, claim, claim_any, renew, release,
  postpone, recover, restart, register, prepare, lock, retire,
}

startable_is_prepared :
    (r : PreparedActionRecord) (now : ℕ)
    → may_mark_submission_started r now ≡ true
    → has_left r ≡ false
unfolding may_mark_submission_started
startable_is_prepared r now h = ground arith

-- A submission that starts is of an action in `prepared`.
start_submission-fresh :
    (id : String) (now : ℕ) (db : Database) {r : PreparedActionRecord} {db' : Database}
    → start_submission id now db ≡ ok (r, db')
    → is_past_prepared id db ≡ false
unfolding start_submission
start_submission-fresh id now db h =
    let (current, read, h₁) = >>=-eq-ok (require_action id db) _ h in
    let (free, _) = >>-eq-ok (throw_if _ _) _ h₁ in
    ap some_left (require_action-eq-ok id db read).0
    ∙ startable_is_prepared current now (not-eq-false _ (throw_if-eq-ok _ _ free))

startable_row :
    (id : String) (r : PreparedActionRecord) (now : ℕ)
    → has_id id r ≡ true
    → may_mark_submission_started r now ≡ true
    → is_startable id r ≡ true
unfolding may_mark_submission_started
startable_row id r now e h = ground arith

-- A submission that starts leaves an action that is past `prepared`.
start_submission-past :
    (id : String) (now : ℕ) (db : Database) {r : PreparedActionRecord} {db' : Database}
    → start_submission id now db ≡ ok (r, db')
    → is_past_prepared id db' ≡ true
unfolding start_submission find_action
start_submission-past id now db {r} {db'} h =
    let (current, read, h₁) = >>=-eq-ok (require_action id db) _ h in
    let (free, h₂) = >>-eq-ok (throw_if _ _) _ h₁ in
    let found = (require_action-eq-ok id db read).0 in
    let (written, _, _) = update_one-eq-ok id (is_startable id) (set_started now) _ db h₂ in
    let startable =
      startable_row id current now (find-eq-some (has_id id) db.actions found)
        (not-eq-false _ (throw_if-eq-ok _ _ free)) in
    ap (λ d. is_past_prepared id d) written
    ∙ ap some_left (
        find-update_where (has_id id) (is_startable id) (set_started now) db.actions (λ r. refl)
        ∙ ap (Option.map (λ r. if is_startable id r then set_started now r else r)) found)
    ∙ ap (λ b. has_left (if b then set_started now current else current)) startable

immediate-IsLater {ℓ} :
    {A : Type ℓ} (repo : Repository) (m : Result (A × Database))
    → ((a : A) (d : Database) → m ≡ ok (a, d) → IsLater repo.database d)
    → IsLater repo.database (immediate repo m).1.database
immediate-IsLater repo (err e) h = IsLater-refl repo.database
immediate-IsLater repo (ok (a, d)) h = h a d refl

settle-IsLater {ℓ} :
    {A : Type ℓ} (id : String) (repo : Repository) (m : Result (A × Database))
    → ((a : A) (d : Database) → m ≡ ok (a, d) → IsLater repo.database d)
    → IsLater repo.database (settle id repo m).1.database
settle-IsLater id repo (err e) h = IsLater-refl repo.database
settle-IsLater id repo (ok (a, d)) h = h a d refl

hold-IsLater :
    (x : External) (repo : Repository) (m : Result (PreparedActionRecord × Database))
    → ((a : PreparedActionRecord) (d : Database) → m ≡ ok (a, d) → IsLater repo.database d)
    → IsLater repo.database (hold x repo m).1.database
unfolding register_current_process_reservation
hold-IsLater x repo (err e) h = IsLater-refl repo.database
hold-IsLater x repo (ok (a, d)) h = h a d refl

recover_at-IsLater :
    (now : Result ℕ) (repo : Repository) → IsLater repo.database (recover_at now repo).1.database
recover_at-IsLater (err e) repo = IsLater-refl repo.database
recover_at-IsLater (ok t) repo =
    immediate-IsLater (record repo { prepared_in_this_process = [] })
      (recover_rows _ t repo.database) (λ a d e. recover_rows-IsLater _ t repo.database e)

-- A call that marks an action either returns no permit for it and leaves a later journal, or
-- returns one, finds the action in `prepared` and leaves it past that state.
abbrev MarkOutcome : String → Database → ℕ → Database → Type 0
MarkOutcome id before n after =
    ((n ≡ 0) × IsLater before after)
    ⊎ ((n ≡ 1)
        × (is_past_prepared id before ≡ false)
        × (is_past_prepared id after ≡ true)
        × IsLater before after)

receive-outcome :
    (x : External) (id : String) (kept : List (String × ℕ)) (repo : Repository)
    (m : Result (PreparedActionRecord × Database))
    → ((r : PreparedActionRecord) (d : Database)
        → m ≡ ok (r, d)
        → (is_past_prepared id repo.database ≡ false)
          × (is_past_prepared id d ≡ true)
          × IsLater repo.database d)
    → MarkOutcome id repo.database
        (permits x (receive id kept repo m).0)
        (receive id kept repo m).1.database
receive-outcome x id kept repo (err e) h = inl (refl, IsLater-refl repo.database)
receive-outcome x id kept repo (ok (r, d)) h =
    let (before, after, later) = h r d refl in inr (refl, before, after, later)

mark_held-outcome :
    (x : External) (id : String) (now : ℕ) (expiry : Option ℕ) (repo : Repository)
    → MarkOutcome id repo.database
        (permits x (mark_held id now expiry repo).0)
        (mark_held id now expiry repo).1.database
mark_held-outcome x id now none repo = inl (refl, IsLater-refl repo.database)
mark_held-outcome x id now (some expiry) repo =
    receive-outcome x id _ repo (start_submission id now repo.database) (λ r d e. (
      start_submission-fresh id now repo.database e,
      start_submission-past id now repo.database e,
      start_submission-IsLater id now repo.database e,
    ))

mark_at-outcome :
    (x : External) (id : String) (now : Result ℕ) (repo : Repository)
    → MarkOutcome id repo.database
        (permits x (mark_at id now repo).0)
        (mark_at id now repo).1.database
mark_at-outcome x id (err e) repo = inl (refl, IsLater-refl repo.database)
mark_at-outcome x id (ok now) repo =
    mark_held-outcome x id now (reserved id repo.prepared_in_this_process) repo

module _ (x : External) where
  pub step-IsLater :
      (call : Call) (repo : Repository) → IsLater repo.database (step x call repo).database
  unfolding mark_submission_started transition_action claim_reconciliation_lease
      claim_next_reconciliation renew_reconciliation_lease release_reconciliation_lease
      schedule_reconciliation recover_after_restart register_active_signer_scope
      reserve_prepared_action mark_signer_retiring retire_signer_scope
  step-IsLater (mark id now) repo = elim (mark_at-outcome x id (assert_time now "now") repo) [
    | inl o ↦ o.1
    | inr o ↦ o.3
  ]
  step-IsLater (transit id next class now) repo =
      settle-IsLater id repo _ (λ a d. apply_transition-IsLater id next class now repo.database)
  step-IsLater (claim id owner now duration) repo =
      immediate-IsLater repo _ (λ a d. claim_lease-IsLater id owner now duration repo.database)
  step-IsLater (claim_any owner now duration) repo =
      immediate-IsLater repo _ (λ a d. claim_next-IsLater owner now duration repo.database)
  step-IsLater (renew lease now duration) repo =
      immediate-IsLater repo _ (λ a d. renew_lease-IsLater lease now duration repo.database)
  step-IsLater (release lease now) repo =
      immediate-IsLater repo _ (λ a d. release_lease-IsLater lease now repo.database)
  step-IsLater (postpone id owner now next) repo =
      immediate-IsLater repo _ (λ a d. schedule-IsLater id owner now next repo.database)
  step-IsLater (recover now) repo = recover_at-IsLater (assert_time now "now") repo
  step-IsLater restart repo = IsLater-refl repo.database
  step-IsLater (register binding at) repo = immediate-IsLater repo _ (λ a d e.
      same_actions-IsLater repo.database d
        (register_active_signer-actions x binding at repo.database e))
  step-IsLater (prepare input) repo =
      hold-IsLater x repo _ (λ a d. reserve_action-IsLater x input repo.database)
  step-IsLater (lock binding now) repo = immediate-IsLater repo _ (λ a d e.
      same_actions-IsLater repo.database d (mark_retiring-actions x binding now repo.database e))
  step-IsLater (retire binding tombstone) repo = immediate-IsLater repo _ (λ a d e.
      same_actions-IsLater repo.database d
        (retire_scope-actions x binding tombstone repo.database e))

  -- A call that returns permits for an action returns one, and takes it past `prepared`.
  pub permits_of-outcome :
      (id : String) (call : Call) (repo : Repository)
      → (permits_of x id call repo ≡ 0)
        ⊎ ((permits_of x id call repo ≡ 1)
            × (is_past_prepared id repo.database ≡ false)
            × (is_past_prepared id (step x call repo).database ≡ true))
  unfolding mark_submission_started
  permits_of-outcome id (mark other now) repo =
      go (str_eq other id) refl (mark_at other (assert_time now "now") repo).1.database
        (mark_at-outcome x other (assert_time now "now") repo)
    where
      go :
          (same : Bool)
          → str_eq other id ≡ same
          → {n : ℕ} (d : Database) → MarkOutcome other repo.database n d
          → ((if same then n else 0) ≡ 0)
            ⊎ (((if same then n else 0) ≡ 1)
                × (is_past_prepared id repo.database ≡ false)
                × (is_past_prepared id d ≡ true))
      go false e d o = inl refl
      go true e d (inl o) = inl o.0
      go true e d (inr o) = inr (
        o.0,
        subst (λ i. is_past_prepared i repo.database ≡ false) ((str_eq_iff other id).0 e) o.1,
        subst (λ i. is_past_prepared i d ≡ true) ((str_eq_iff other id).0 e) o.2,
      )
  permits_of-outcome id (transit _ _ _ _) repo = inl refl
  permits_of-outcome id (claim _ _ _ _) repo = inl refl
  permits_of-outcome id (claim_any _ _ _) repo = inl refl
  permits_of-outcome id (renew _ _ _) repo = inl refl
  permits_of-outcome id (release _ _) repo = inl refl
  permits_of-outcome id (postpone _ _ _ _) repo = inl refl
  permits_of-outcome id (recover _) repo = inl refl
  permits_of-outcome id restart repo = inl refl
  permits_of-outcome id (register _ _) repo = inl refl
  permits_of-outcome id (prepare _) repo = inl refl
  permits_of-outcome id (lock _ _) repo = inl refl
  permits_of-outcome id (retire _ _) repo = inl refl

  -- No permit is returned for an action that is past `prepared`, whatever is called.
  pub submissions-past :
      (id : String) (calls : List Call) (repo : Repository)
      → is_past_prepared id repo.database ≡ true
      → submissions x id calls repo ≡ 0
  submissions-past id [] repo h = refl
  submissions-past id (call ∷ calls) repo h =
      let rest = submissions-past id calls (step x call repo) (step-IsLater call repo id h) in
      elim (permits_of-outcome id call repo) [
        | inl e ↦ ground (arith, e, rest)
        | inr e ↦ cc (h, e.1)
      ]

  -- Whatever calls are made, in whatever order, with restarts of the process among them, at most
  -- one permit is returned to write any one action to the transport.
  pub submissions-at_most_once :
      (id : String) (calls : List Call) (repo : Repository) → submissions x id calls repo ≤ 1
  submissions-at_most_once id [] repo = ground arith
  submissions-at_most_once id (call ∷ calls) repo =
      let later = submissions-at_most_once id calls (step x call repo) in
      elim (permits_of-outcome id call repo) [
        | inl e ↦ ground (arith, e, later)
        | inr e ↦ ground (arith, e.0, submissions-past id calls (step x call repo) e.2)
      ]
