-- ===== src/Persistence/Later.antt =====
-- The same for the leases and the recovery of action-journal.ts.
use hyper_trader.Common.{
  ℕ, ◌≡◌, refl, subst, Bool, true, false, not, ◌&&◌, String, Option, List, [], ◌∷◌, arith, Result,
  ok, err, ok_snd, >>=-eq-ok, >>-eq-ok, throw_if, Number, if◌then◌else◌, ◌+◌, ◌>>=◌,
}
use hyper_trader.Journal.{
  PreparedActionRecord, JournalState, prepared, state_eq, RestartRecoveryDecision, unchanged,
  transition, restart_recovery_decision,
}
use hyper_trader.Persistence.Rows.{assert_time, assert_lease_owner, from_row}
use hyper_trader.Persistence.Tables.{Database, has_id}
use hyper_trader.Persistence.Actions.{require_action, update_actions, is_at}
use hyper_trader.Persistence.Leases.{
  ReconciliationLease, Claim, lease_duration, claim_lease, is_claimable, set_lease, take_candidate,
  is_takeable, next_candidate, claim_next, renew_lease, is_renewable, set_expiry, release_lease,
  is_held, set_released, schedule, is_leased_by, set_scheduled,
}
use hyper_trader.Persistence.Recovery.{recover_one, recover_rows, set_recovered}
use hyper_trader.Persistence.Progress.{IsLater, update_actions-IsLater, update_one-IsLater}

pub IsLater-refl : (db : Database) → IsLater db db
IsLater-refl db id h = h

pub IsLater-trans : (a b c : Database) → IsLater a b → IsLater b c → IsLater a c
IsLater-trans a b c h k id p = k id (h id p)

pub claim_lease-IsLater :
    (id owner : String) (now : Number) (duration : Option Number) (db : Database)
    {l : Option ReconciliationLease} {db' : Database}
    → claim_lease id owner now duration db ≡ ok (l, db')
    → IsLater db db'
unfolding claim_lease
claim_lease-IsLater id owner now duration db h =
    let (_, h₁) = >>-eq-ok (assert_lease_owner owner) _ h in
    let (t, _, h₂) = >>=-eq-ok (assert_time now "now") _ h₁ in
    let (d, _, h₃) = >>=-eq-ok (lease_duration duration) _ h₂ in
    subst (IsLater db) (ok_snd h₃) (
      update_actions-IsLater (is_claimable id t) (set_lease owner (t + d) t) db (λ r. refl)
        (λ r e. e))

-- A candidate that is there is updated, whatever is read back.
pub take_candidate-updated :
    (owner : String) (now expires : ℕ) (row : PreparedActionRecord)
    (rows : List PreparedActionRecord) (db db' : Database) {c : Option Claim}
    → take_candidate owner now expires (row ∷ rows) db ≡ ok (c, db')
    → update_actions (is_takeable row.journal_id now) (set_lease owner expires now) db ≡ db'
take_candidate-updated owner now expires row rows db db' h =
    pick _ _ (require_action row.journal_id taken) _ db' h
  where
    taken : Database
    taken = update_actions (is_takeable row.journal_id now) (set_lease owner expires now) db

    pick :
        {A B : Type 0} (b : Bool) (x : A) (m : Result B) (f : B → A) (d : Database) {a : A}
        → ◌≡◌ {A = Result (A × Database)}
            (if b then ok (x, taken) else (m >>= λ r. ok (f r, taken)))
            (ok (a, d))
        → taken ≡ d
    pick true x m f d e = ok_snd e
    pick false x (ok r) f d e = ok_snd e
    pick false x (err e') f d e = cc

take_candidate-IsLater :
    (owner : String) (now expires : ℕ) (rows : List PreparedActionRecord) (db : Database)
    {c : Option Claim} {db' : Database}
    → take_candidate owner now expires rows db ≡ ok (c, db')
    → IsLater db db'
take_candidate-IsLater owner now expires [] db h = subst (IsLater db) (ok_snd h) (IsLater-refl db)
take_candidate-IsLater owner now expires (row ∷ rows) db {c} {db'} h =
    subst (IsLater db) (take_candidate-updated owner now expires row rows db db' h) (
      update_actions-IsLater (is_takeable row.journal_id now) (set_lease owner expires now) db
        (λ r. refl) (λ r e. e))

pub claim_next-IsLater :
    (owner : String) (now : Number) (duration : Option Number) (db : Database) {c : Option Claim}
    {db' : Database}
    → claim_next owner now duration db ≡ ok (c, db')
    → IsLater db db'
unfolding claim_next
claim_next-IsLater owner now duration db h =
    let (_, h₁) = >>-eq-ok (assert_lease_owner owner) _ h in
    let (t, _, h₂) = >>=-eq-ok (assert_time now "now") _ h₁ in
    let (d, _, h₃) = >>=-eq-ok (lease_duration duration) _ h₂ in
    take_candidate-IsLater owner t (t + d) (next_candidate t db) db h₃

pub renew_lease-IsLater :
    (lease : ReconciliationLease) (now : Number) (duration : Option Number) (db : Database)
    {l : Option ReconciliationLease} {db' : Database}
    → renew_lease lease now duration db ≡ ok (l, db')
    → IsLater db db'
unfolding renew_lease
renew_lease-IsLater lease now duration db h =
    let (_, h₁) = >>-eq-ok (assert_lease_owner lease.owner) _ h in
    let (t, _, h₂) = >>=-eq-ok (assert_time now "now") _ h₁ in
    let (d, _, h₃) = >>=-eq-ok (lease_duration duration) _ h₂ in
    subst (IsLater db) (ok_snd h₃) (
      update_actions-IsLater (is_renewable lease t) (set_expiry (t + d) t) db (λ r. refl)
        (λ r e. e))

pub release_lease-IsLater :
    (lease : ReconciliationLease) (now : Number) (db : Database) {b : Bool} {db' : Database}
    → release_lease lease now db ≡ ok (b, db')
    → IsLater db db'
unfolding release_lease
release_lease-IsLater lease now db h =
    let (_, h₁) = >>-eq-ok (assert_lease_owner lease.owner) _ h in
    let (t, _, h₂) = >>=-eq-ok (assert_time now "now") _ h₁ in
    subst (IsLater db) (ok_snd h₂)
      (update_actions-IsLater (is_held lease) (set_released t) db (λ r. refl) (λ r e. e))

pub schedule-IsLater :
    (id owner : String) (now next_attempt : Number) (db : Database) {r : PreparedActionRecord}
    {db' : Database}
    → schedule id owner now next_attempt db ≡ ok (r, db')
    → IsLater db db'
unfolding schedule
schedule-IsLater id owner now next_attempt db h =
    let (_, h₁) = >>-eq-ok (assert_lease_owner owner) _ h in
    let (t, _, h₂) = >>=-eq-ok (assert_time now "now") _ h₁ in
    let (next, _, h₃) = >>=-eq-ok (assert_time next_attempt "nextAttemptAt") _ h₂ in
    let (_, h₄) = >>-eq-ok (throw_if _ _) _ h₃ in
    let (_, _, h₅) = >>=-eq-ok (require_action id db) _ h₄ in
    let (_, updated) = >>-eq-ok (throw_if _ _) _ h₅ in
    update_one-IsLater id (λ row. has_id id row && is_leased_by owner t row) (set_scheduled next t)
      _ db updated (λ r. refl) (λ r e. refl)

recovery_leaves :
    (r : PreparedActionRecord) (s : JournalState)
    → restart_recovery_decision r ≡ transition s
    → not (state_eq s prepared) ≡ true
unfolding restart_recovery_decision
recovery_leaves r s h = ground arith

recover_one-IsLater :
    (current : PreparedActionRecord) (decision : RestartRecoveryDecision) (now : ℕ) (db : Database)
    {changed : List PreparedActionRecord} {db' : Database}
    → restart_recovery_decision current ≡ decision
    → recover_one current decision now db ≡ ok (changed, db')
    → IsLater db db'
unfolding recover_one
recover_one-IsLater current unchanged now db e h = subst (IsLater db) (ok_snd h) (IsLater-refl db)
recover_one-IsLater current (transition s) now db e h =
    let (_, updated, h₁) = >>=-eq-ok _ _ h in
    subst (IsLater db) (ok_snd h₁) (
      update_one-IsLater current.journal_id (is_at current.journal_id current.state)
        (set_recovered s now) _ db updated (λ r. refl) (λ r k. recovery_leaves current s e))

pub recover_rows-IsLater :
    (rows : List PreparedActionRecord) (now : ℕ) (db : Database)
    {changed : List PreparedActionRecord} {db' : Database}
    → recover_rows rows now db ≡ ok (changed, db')
    → IsLater db db'
unfolding recover_rows
recover_rows-IsLater [] now db h = subst (IsLater db) (ok_snd h) (IsLater-refl db)
recover_rows-IsLater (row ∷ rows) now db h =
    let (current, _, h₁) = >>=-eq-ok (from_row row) _ h in
    let (one, done, h₂) =
      >>=-eq-ok (recover_one current (restart_recovery_decision current) now db) _ h₁ in
    let (rest, followed, h₃) = >>=-eq-ok (recover_rows rows now one.1) _ h₂ in
    subst (IsLater db) (ok_snd h₃) (
      IsLater-trans db one.1 rest.1 (recover_one-IsLater current _ now db refl done)
        (recover_rows-IsLater rows now one.1 followed))
