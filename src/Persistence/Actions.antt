-- ===== src/Persistence/Actions.antt =====
-- `SqliteActionJournalRepository` of action-journal.ts. A transaction that throws is rolled back, so
-- its body returns the new database only with its result; the map of reservations lives in memory
-- and is not rolled back. Of SQLite's own failures only broken constraints are modelled.
use hyper_trader.Common.{
  ℕ, Bool, true, false, not, ◌&&◌, String, Option, none, some, List, [], ◌∷◌, leb, ◌==◌, is_none,
  if◌then◌else◌, str_eq, Number, Result, ok, err, plain_error, throw_if, or_throw, ◌>>=◌, ◌>>◌,
  count_if,
}
use hyper_trader.Journal.{
  JournalState, JournalResultClass, PreparedActionRecord, prepared, submission_started, state_eq,
  may_mark_submission_started, assert_journal_transition, assert_journal_result_class,
}
use hyper_trader.Persistence.Rows.{assert_time, from_row}
use hyper_trader.Persistence.Tables.{Database, has_id, find_action, select_where, update_where}

pub record Repository : Type 0 where
  pub database : Database
  pub prepared_in_this_process : List (String × ℕ)

-- `available` is the variable that the permit's closure holds.
pub record TransportWritePermit : Type 0 where
  pub journal_id : String
  pub available : Bool

pub record SubmissionStartReceipt : Type 0 where
  pub started : PreparedActionRecord
  pub transport_permit : TransportWritePermit

unfoldable pub create_transport_write_permit : String → TransportWritePermit
create_transport_write_permit id = record { journal_id = id; available = true }

-- The result says whether the write was made.
unfoldable pub consume : TransportWritePermit → Result (Unit {0}) × TransportWritePermit
consume permit =
    if permit.available
    then (ok tt, record permit { available = false })
    else (err (plain_error "This transport write permit has already been consumed."), permit)

-- `Map.get`, `Map.delete`
unfoldable pub reserved : String → List (String × ℕ) → Option ℕ
reserved id [] = none
reserved id ((key, expiry) ∷ rest) = if str_eq key id then some expiry else reserved id rest

unfoldable pub forget : String → List (String × ℕ) → List (String × ℕ)
forget id = select_where (λ entry. not (str_eq entry.0 id))

unfoldable pub register_current_process_reservation : String → ℕ → ℕ → Repository → Repository
unfolding forget
register_current_process_reservation id expires now repo =
    let kept = select_where (λ entry. not (leb entry.1 now)) repo.prepared_in_this_process in
    record repo { prepared_in_this_process = (id, expires) ∷ forget id kept }

unfoldable pub get_action : String → Database → Result (Option PreparedActionRecord)
get_action id db = elim (find_action id db.actions) [
  | none ↦ ok none
  | some row ↦ from_row row >>= λ r. ok (some r)
]

unfoldable pub require_action : String → Database → Result PreparedActionRecord
require_action id db = do
  row ←
      or_throw (find_action id db.actions) (plain_error "The action journal record does not exist.")
  from_row row

-- An UPDATE of the journal, which must change one row, and the row read back.
abbrev pub update_actions :
    (PreparedActionRecord → Bool)
    → (PreparedActionRecord → PreparedActionRecord)
    → Database
    → Database
update_actions p f db = record db { actions = update_where p f db.actions }

unfoldable pub update_one :
    String
    → (PreparedActionRecord → Bool)
    → (PreparedActionRecord → PreparedActionRecord)
    → String
    → Database
    → Result (PreparedActionRecord × Database)
update_one id p f message db = do
  throw_if (not (count_if p db.actions == 1)) (plain_error message)
  read ← require_action id (update_actions p f db)
  ok (read, update_actions p f db)

abbrev pub is_startable : String → PreparedActionRecord → Bool
is_startable id row =
    has_id id row && (state_eq row.state prepared && is_none row.submission_started_at)

abbrev pub set_started : ℕ → PreparedActionRecord → PreparedActionRecord
set_started now row = record row {
  state = submission_started;
  submission_started_at = some now;
  updated_at = now;
}

-- The transaction of `markSubmissionStarted`.
unfoldable pub start_submission : String → ℕ → Database → Result (PreparedActionRecord × Database)
start_submission id now db = do
  current ← require_action id db
  throw_if (not (may_mark_submission_started current now))
      (plain_error "The action cannot start submission.")
  update_one id (is_startable id) (set_started now)
      "The action submission marker lost its compare-and-swap." db

abbrev pub receive :
    String
    → List (String × ℕ)
    → Repository
    → Result (PreparedActionRecord × Database)
    → Result SubmissionStartReceipt × Repository
receive id kept repo (err e) = (err e, record repo { prepared_in_this_process = kept })
receive id kept repo (ok (started, db)) = (
  ok (record { started = started; transport_permit = create_transport_write_permit id }),
  record { database = db; prepared_in_this_process = forget id kept },
)

abbrev pub mark_reserved : String → ℕ → ℕ → Repository → Result SubmissionStartReceipt × Repository
mark_reserved id now expiry repo =
    let kept =
      if leb expiry now
      then forget id repo.prepared_in_this_process
      else repo.prepared_in_this_process in
    receive id kept repo (start_submission id now repo.database)

abbrev pub mark_held :
    String → ℕ → Option ℕ → Repository → Result SubmissionStartReceipt × Repository
mark_held id now (some expiry) repo = mark_reserved id now expiry repo
mark_held id now none repo = (
  err (
      plain_error
        "Transport authority is unavailable for a reservation from another process lifetime."),
  repo,
)

abbrev pub mark_at : String → Result ℕ → Repository → Result SubmissionStartReceipt × Repository
mark_at id (err e) repo = (err e, repo)
mark_at id (ok now) repo = mark_held id now (reserved id repo.prepared_in_this_process) repo

unfoldable pub mark_submission_started :
    String → Number → Repository → Result SubmissionStartReceipt × Repository
mark_submission_started id now repo = mark_at id (assert_time now "now") repo

abbrev pub is_at : String → JournalState → PreparedActionRecord → Bool
is_at id state row = has_id id row && state_eq row.state state

abbrev pub set_result :
    JournalState → Option JournalResultClass → ℕ → PreparedActionRecord → PreparedActionRecord
set_result next class now row = record row {
  state = next;
  last_result_class = class;
  lease_owner = none;
  lease_expires_at = none;
  updated_at = now;
}

unfoldable pub apply_transition :
    String
    → JournalState
    → Option JournalResultClass
    → Number
    → Database
    → Result (PreparedActionRecord × Database)
apply_transition id next class now db = do
  t ← assert_time now "now"
  current ← require_action id db
  assert_journal_transition current.state next
  assert_journal_result_class next class
  update_one id (is_at id current.state) (set_result next class t)
      "The journal transition lost its compare-and-swap." db

-- A transaction whose result also ends the reservation of the action.
abbrev pub settle {ℓ} :
    {A : Type ℓ} → String → Repository → Result (A × Database) → Result A × Repository
settle id repo (err e) = (err e, repo)
settle id repo (ok (a, db)) = (
  ok a,
  record { database = db; prepared_in_this_process = forget id repo.prepared_in_this_process },
)

unfoldable pub transition_action :
    String
    → JournalState
    → Option JournalResultClass
    → Number
    → Repository
    → Result PreparedActionRecord × Repository
transition_action id next class now repo =
    settle id repo (apply_transition id next class now repo.database)

-- `immediate`: a transaction that leaves the reservations alone.
abbrev pub immediate {ℓ} : {A : Type ℓ} → Repository → Result (A × Database) → Result A × Repository
immediate repo (err e) = (err e, repo)
immediate repo (ok (a, db)) = (ok a, record repo { database = db })
