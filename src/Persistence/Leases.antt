-- ===== src/Persistence/Leases.antt =====
-- `SqliteActionJournalRepository` of action-journal.ts: the leases on actions to be reconciled, and
-- when an action is tried again.
use hyper_trader.Common.{
  ℕ, ◌+◌, Bool, false, not, ◌&&◌, ◌||◌, String, Option, none, some, List, [], ◌∷◌, ltb, leb, ◌==◌,
  is_none, opt_eq, if◌then◌else◌, str_eq, Number, is_safe_integer, natural, Result, ok, err,
  type_error, plain_error, throw_if, ◌>>=◌, ◌>>◌, count_if, codes, lex_lt,
}
use hyper_trader.Journal.{JournalState, JournalResultClass, PreparedActionRecord}
use hyper_trader.Persistence.Rows.{assert_time, assert_lease_owner, is_reconcilable}
use hyper_trader.Persistence.Tables.{Database, has_id, select_where, order_by}
use hyper_trader.Persistence.Actions.{
  Repository, require_action, update_actions, update_one, immediate,
}

pub record ReconciliationLease : Type 0 where
  pub journal_id : String
  pub owner : String
  pub expires_at : ℕ

unfoldable pub lease_duration : Option Number → Result ℕ
lease_duration none = ok 30_000
lease_duration (some value) =
    if not (is_safe_integer value) || (ltb (natural value) 1_000 || ltb 60_000 (natural value))
    then err (type_error "Lease duration must be between 1 and 60 seconds.")
    else ok (natural value)

-- `lease_owner IS NULL OR lease_expires_at <= ?`, where a comparison with NULL does not hold.
abbrev pub is_past : Option ℕ → ℕ → Bool
is_past none now = false
is_past (some expires) now = leb expires now

abbrev pub is_free : ℕ → PreparedActionRecord → Bool
is_free now row = is_none row.lease_owner || is_past row.lease_expires_at now

abbrev pub set_lease : String → ℕ → ℕ → PreparedActionRecord → PreparedActionRecord
set_lease owner expires now row = record row {
  lease_owner = some owner;
  lease_expires_at = some expires;
  updated_at = now;
}

abbrev pub is_claimable : String → ℕ → PreparedActionRecord → Bool
is_claimable id now row = has_id id row && (is_reconcilable row.state && is_free now row)

unfoldable pub claim_lease :
    String
    → String
    → Number
    → Option Number
    → Database
    → Result (Option ReconciliationLease × Database)
claim_lease id owner now duration db = do
  assert_lease_owner owner
  t ← assert_time now "now"
  d ← lease_duration duration
  let lease : ReconciliationLease = record { journal_id = id; owner = owner; expires_at = t + d }
  let granted = count_if (is_claimable id t) db.actions == 1
  ok (
    if granted then some lease else none,
    update_actions (is_claimable id t) (set_lease owner (t + d) t) db,
  )

unfoldable pub claim_reconciliation_lease :
    String
    → String
    → Number
    → Option Number
    → Repository
    → Result (Option ReconciliationLease) × Repository
claim_reconciliation_lease id owner now duration repo =
    immediate repo (claim_lease id owner now duration repo.database)

-- `ORDER BY next_reconciliation_at, prepared_at, journal_id`
abbrev pub is_due_before : PreparedActionRecord → PreparedActionRecord → Bool
is_due_before a b =
    ltb a.next_reconciliation_at b.next_reconciliation_at
    || ((a.next_reconciliation_at == b.next_reconciliation_at)
        && (ltb a.prepared_at b.prepared_at
            || ((a.prepared_at == b.prepared_at)
                && lex_lt (codes a.journal_id) (codes b.journal_id))))

abbrev pub is_due : ℕ → PreparedActionRecord → Bool
is_due now row =
    is_reconcilable row.state && (leb row.next_reconciliation_at now && is_free now row)

unfoldable pub next_candidate : ℕ → Database → List PreparedActionRecord
next_candidate now db = order_by is_due_before (select_where (is_due now) db.actions)

abbrev pub is_takeable : String → ℕ → PreparedActionRecord → Bool
is_takeable id now row = has_id id row && is_free now row

abbrev pub Claim : Type 0
Claim = PreparedActionRecord × ReconciliationLease

abbrev pub take_candidate :
    String → ℕ → ℕ → List PreparedActionRecord → Database → Result (Option Claim × Database)
take_candidate owner now expires [] db = ok (none, db)
take_candidate owner now expires (row ∷ rows) db =
    let id = row.journal_id in
    let p = is_takeable id now in
    let db' = update_actions p (set_lease owner expires now) db in
    let lease : ReconciliationLease = record {
      journal_id = id;
      owner = owner;
      expires_at = expires;
    } in
    if not (count_if p db.actions == 1)
    then ok (none, db')
    else require_action id db' >>= λ r. ok (some (r, lease), db')

unfoldable pub claim_next :
    String → Number → Option Number → Database → Result (Option Claim × Database)
claim_next owner now duration db = do
  assert_lease_owner owner
  t ← assert_time now "now"
  d ← lease_duration duration
  take_candidate owner t (t + d) (next_candidate t db) db

unfoldable pub claim_next_reconciliation :
    String → Number → Option Number → Repository → Result (Option Claim) × Repository
claim_next_reconciliation owner now duration repo =
    immediate repo (claim_next owner now duration repo.database)

-- `lease_owner = ? AND lease_expires_at = ?`
abbrev pub is_held : ReconciliationLease → PreparedActionRecord → Bool
is_held lease row =
    has_id lease.journal_id row
    && (opt_eq str_eq row.lease_owner (some lease.owner)
        && opt_eq ◌==◌ row.lease_expires_at (some lease.expires_at))

abbrev pub is_renewable : ReconciliationLease → ℕ → PreparedActionRecord → Bool
is_renewable lease now row = is_held lease row && not (is_past row.lease_expires_at now)

abbrev pub set_expiry : ℕ → ℕ → PreparedActionRecord → PreparedActionRecord
set_expiry expires now row = record row { lease_expires_at = some expires; updated_at = now }

unfoldable pub renew_lease :
    ReconciliationLease
    → Number
    → Option Number
    → Database
    → Result (Option ReconciliationLease × Database)
renew_lease lease now duration db = do
  assert_lease_owner lease.owner
  t ← assert_time now "now"
  d ← lease_duration duration
  let renewed = count_if (is_renewable lease t) db.actions == 1
  ok (
    if renewed then some (record lease { expires_at = t + d }) else none,
    update_actions (is_renewable lease t) (set_expiry (t + d) t) db,
  )

unfoldable pub renew_reconciliation_lease :
    ReconciliationLease
    → Number
    → Option Number
    → Repository
    → Result (Option ReconciliationLease) × Repository
renew_reconciliation_lease lease now duration repo =
    immediate repo (renew_lease lease now duration repo.database)

abbrev pub set_released : ℕ → PreparedActionRecord → PreparedActionRecord
set_released now row = record row { lease_owner = none; lease_expires_at = none; updated_at = now }

unfoldable pub release_lease : ReconciliationLease → Number → Database → Result (Bool × Database)
release_lease lease now db = do
  assert_lease_owner lease.owner
  t ← assert_time now "now"
  ok (count_if (is_held lease) db.actions == 1, update_actions (is_held lease) (set_released t) db)

unfoldable pub release_reconciliation_lease :
    ReconciliationLease → Number → Repository → Result Bool × Repository
release_reconciliation_lease lease now repo = immediate repo (release_lease lease now repo.database)

-- `lease_owner = ? AND lease_expires_at > ?`, on the row as it is stored or as it was read.
abbrev is_after : Option ℕ → ℕ → Bool
is_after none now = false
is_after (some expires) now = ltb now expires

abbrev pub is_leased_by : String → ℕ → PreparedActionRecord → Bool
is_leased_by owner now row =
    opt_eq str_eq row.lease_owner (some owner) && is_after row.lease_expires_at now

abbrev pub set_scheduled : ℕ → ℕ → PreparedActionRecord → PreparedActionRecord
set_scheduled next_attempt now row = record row {
  state = JournalState.unresolved;
  last_result_class = some JournalResultClass.unresolved;
  reconciliation_attempts = row.reconciliation_attempts + 1;
  next_reconciliation_at = next_attempt;
  lease_owner = none;
  lease_expires_at = none;
  updated_at = now;
}

unfoldable pub schedule :
    String → String → Number → Number → Database → Result (PreparedActionRecord × Database)
schedule id owner now next_attempt db = do
  assert_lease_owner owner
  t ← assert_time now "now"
  next ← assert_time next_attempt "nextAttemptAt"
  throw_if (ltb next t) (type_error "The next reconciliation time cannot be in the past.")
  current ← require_action id db
  throw_if (not (is_leased_by owner t current))
      (plain_error "A current reconciliation lease is required.")
  update_one id (λ row. has_id id row && is_leased_by owner t row) (set_scheduled next t)
      "The reconciliation schedule lost its lease." db

unfoldable pub schedule_reconciliation :
    String → String → Number → Number → Repository → Result PreparedActionRecord × Repository
schedule_reconciliation id owner now next_attempt repo =
    immediate repo (schedule id owner now next_attempt repo.database)
