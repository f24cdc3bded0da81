-- ===== src/Persistence/Readable.antt =====
-- action-journal.ts: what a lease on an action, and its end, leave in its row can be read back.
use hyper_trader.Common.{
  ℕ, ◌≡◌, ◌≤◌, refl, ap, ◌∙◌, Bool, true, String, none, some, arith, pos, max_safe_integer, ok,
  >>=-eq-ok, >>-eq-ok, ◌>>=◌,
}
use hyper_trader.Json.{Fields, obj, serialize_secret_free_intent}
use hyper_trader.Journal.{
  PreparedActionRecord, JournalState, JournalResultClass, state_eq, assert_journal_transition,
  assert_journal_result_class, is_terminal_journal_state, result_for_state,
}
use hyper_trader.Persistence.Rows.{
  assert_lease_owner, from_row, assert_stored_record, assert_stored_identity, assert_stored_numbers,
  assert_stored_progress, assert_prepared_action_fields, prepared_fields, is_reconcilable,
}
use hyper_trader.Persistence.Tables.{Database, has_id}
use hyper_trader.Persistence.Actions.{
  require_action, get_action, update_actions, update_one, is_at, set_result, apply_transition,
}
use hyper_trader.Persistence.Leases.{set_lease}
use hyper_trader.Persistence.Sole.{
  IsSole, IsSole-update_actions, IsSole-count_if, IsSole-has_id, assert_time-ok,
}

may_end :
    (current next : JournalState) (class : JournalResultClass)
    → is_reconcilable current ≡ true
    → is_terminal_journal_state next ≡ true
    → result_for_state next ≡ some class
    → assert_journal_transition current next ≡ ok tt
unfolding assert_journal_transition
may_end current next class r e c = ground (arith, r, e, c)

has_class :
    (next : JournalState) (class : JournalResultClass)
    → result_for_state next ≡ some class
    → assert_journal_result_class next (some class) ≡ ok tt
unfolding assert_journal_result_class
has_class next class c = ground (arith, c)

-- What a row that can be read, of an action that is being reconciled, can be updated to.
record IsReadable (row : PreparedActionRecord) : Type 0 where
  intent :
      (v : Fields) × (serialize_secret_free_intent (obj row.normalized_secret_free_intent) ≡ ok v)
  identity : assert_stored_identity row ≡ ok tt
  numbers : assert_stored_numbers row ≡ ok tt
  fields : assert_prepared_action_fields (prepared_fields row) ≡ ok tt
  progress : assert_stored_progress row ≡ ok tt

from_row-IsReadable : (row : PreparedActionRecord) → from_row row ≡ ok row → IsReadable row
unfolding from_row assert_stored_record
from_row-IsReadable row h =
    let (v, e, checked) =
      >>=-eq-ok (serialize_secret_free_intent (obj row.normalized_secret_free_intent)) _ h in
    let (stored, _) = >>-eq-ok (assert_stored_record row) _ checked in
    let (identity, h₁) = >>-eq-ok (assert_stored_identity row) _ stored in
    let (numbers, h₂) = >>-eq-ok (assert_stored_numbers row) _ h₁ in
    let (fields, progress) = >>-eq-ok (assert_prepared_action_fields (prepared_fields row)) _ h₂ in
    record {
      intent = (v, e);
      identity = identity;
      numbers = numbers;
      fields = fields;
      progress = progress;
    }

IsReadable-from_row : (row : PreparedActionRecord) → IsReadable row → from_row row ≡ ok row
unfolding from_row assert_stored_record
IsReadable-from_row row r = rw (r.intent.1, r.identity, r.numbers, r.fields, r.progress) refl

numbers_updated :
    (row : PreparedActionRecord) (t : ℕ)
    → assert_stored_numbers row ≡ ok tt
    → t ≤ max_safe_integer
    → assert_stored_numbers (record row { updated_at = t }) ≡ ok tt
unfolding assert_stored_numbers
numbers_updated row t h l = ground (arith, h)

leased_progress :
    (row : PreparedActionRecord) (owner : String) (expires t : ℕ)
    → assert_stored_progress row ≡ ok tt
    → is_reconcilable row.state ≡ true
    → assert_lease_owner owner ≡ ok tt
    → expires ≤ max_safe_integer
    → assert_stored_progress (set_lease owner expires t row) ≡ ok tt
unfolding assert_stored_progress
leased_progress row owner expires t h r o l =
    let (class, h₁) = >>-eq-ok (assert_journal_result_class row.state row.last_result_class) _ h in
    ground (arith, h₁, class, r, o)

-- A lease on the action can be read back.
pub leased_row :
    (row : PreparedActionRecord) (owner : String) (expires t : ℕ)
    → from_row row ≡ ok row
    → is_reconcilable row.state ≡ true
    → assert_lease_owner owner ≡ ok tt
    → expires ≤ max_safe_integer
    → t ≤ max_safe_integer
    → from_row (set_lease owner expires t row) ≡ ok (set_lease owner expires t row)
unfolding assert_stored_identity assert_stored_numbers
leased_row row owner expires t h r o l m =
    let read = from_row-IsReadable row h in
    IsReadable-from_row (set_lease owner expires t row) record {
      intent = read.intent;
      identity = read.identity;
      numbers = numbers_updated row t read.numbers m;
      fields = read.fields;
      progress = leased_progress row owner expires t read.progress r o l;
    }

settled_progress :
    (row : PreparedActionRecord) (s : JournalState) (class : JournalResultClass) (t : ℕ)
    → assert_stored_progress row ≡ ok tt
    → is_reconcilable row.state ≡ true
    → is_terminal_journal_state s ≡ true
    → result_for_state s ≡ some class
    → assert_stored_progress (set_result s (some class) t row) ≡ ok tt
unfolding assert_stored_progress assert_journal_result_class
settled_progress row s class t h r e c = ground (arith, h, r, e, c)

-- What has been decided of the action can be read back.
pub settled_row :
    (row : PreparedActionRecord) (s : JournalState) (class : JournalResultClass) (t : ℕ)
    → from_row row ≡ ok row
    → is_reconcilable row.state ≡ true
    → is_terminal_journal_state s ≡ true
    → result_for_state s ≡ some class
    → t ≤ max_safe_integer
    → from_row (set_result s (some class) t row) ≡ ok (set_result s (some class) t row)
unfolding assert_stored_identity assert_stored_numbers
settled_row row s class t h r e c m =
    let read = from_row-IsReadable row h in
    IsReadable-from_row (set_result s (some class) t row) record {
      intent = read.intent;
      identity = read.identity;
      numbers = numbers_updated row t read.numbers m;
      fields = read.fields;
      progress = settled_progress row s class t read.progress r e c;
    }

pub IsSole-get_action :
    (id : String) (db : Database) (row : PreparedActionRecord)
    → IsSole id db row
    → from_row row ≡ ok row
    → get_action id db ≡ ok (some row)
unfolding get_action
IsSole-get_action id db row s h =
    ap (λ o. elim o [ none ↦ ok none | some found ↦ from_row found >>= λ r. ok (some r) ]) s.found
    ∙ ap (λ m. m >>= λ r. ok (some r)) h

pub IsSole-require_action :
    (id : String) (db : Database) (row : PreparedActionRecord)
    → IsSole id db row
    → from_row row ≡ ok row
    → require_action id db ≡ ok row
unfolding require_action
IsSole-require_action id db row s h = rw (s.found, h) refl

-- An update that selects the action and leaves it readable is made.
pub update_one-ok :
    (id : String) (p : PreparedActionRecord → Bool)
    (f : PreparedActionRecord → PreparedActionRecord) (message : String) (db : Database)
    (row : PreparedActionRecord)
    → IsSole id db row
    → ((r : PreparedActionRecord) → (f r).journal_id ≡ r.journal_id)
    → ((r : PreparedActionRecord) → p r ≡ true → has_id id r ≡ true)
    → p row ≡ true
    → from_row (f row) ≡ ok (f row)
    → update_one id p f message db ≡ ok (f row, update_actions p f db)
unfolding update_one
update_one-ok id p f message db row s same only selected read =
    let one = IsSole-count_if id p db row s only selected in
    let after = IsSole-update_actions id p f db row s same selected in
    rw (one, IsSole-require_action id (update_actions p f db) (f row) after read) refl

state_eq_self : (s : JournalState) → state_eq s s ≡ true
state_eq_self s = ground arith

pub apply_transition-ok :
    (id : String) (next : JournalState) (class : JournalResultClass) (t : ℕ) (db : Database)
    (row : PreparedActionRecord)
    → IsSole id db row
    → from_row row ≡ ok row
    → is_reconcilable row.state ≡ true
    → is_terminal_journal_state next ≡ true
    → result_for_state next ≡ some class
    → t ≤ max_safe_integer
    → apply_transition id next (some class) (pos t) db
      ≡ ok (
        set_result next (some class) t row,
        update_actions (is_at id row.state) (set_result next (some class) t) db,
      )
unfolding apply_transition
apply_transition-ok id next class t db row s h r e c m =
    let at : is_at id row.state row ≡ true =
      rw (IsSole-has_id id db row s, state_eq_self row.state) refl in
    let made =
      update_one-ok id (is_at id row.state) (set_result next (some class) t)
        "The journal transition lost its compare-and-swap." db row s (λ _. refl)
        (λ q k. ground (arith, k)) at (settled_row row next class t h r e c m) in
    rw
      (
        assert_time-ok t "now" m,
        IsSole-require_action id db row s h,
        may_end row.state next class r e c,
        has_class next class c,
        made,
      )
      refl
