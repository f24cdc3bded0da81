-- ===== src/Persistence/Progress.antt =====
-- When a stored action has left `prepared`, and the statements of action-journal.ts on single rows.
use mathlib.Core.Option
use mathlib.Core.Path.{subst₂}
use hyper_trader.Common.{
  ℕ, ◌≡◌, refl, sym, ◌∙◌, ap, subst, Bool, true, false, not, String, Option, none, some, arith, ok,
  or_throw, or_throw-eq-ok, throw_if, throw_if-eq-ok, not-eq-false, ok_inj, >>=-eq-ok, >>-eq-ok,
  Number, find, if◌then◌else◌, count_if, ◌==◌, str_eq,
}
use hyper_trader.Json.{serialize_secret_free_intent}
use hyper_trader.Journal.{
  PreparedActionRecord, JournalState, JournalResultClass, prepared, state_eq,
  assert_journal_transition, assert_journal_result_class,
}
use hyper_trader.Persistence.Rows.{from_row, assert_time, assert_stored_record}
use hyper_trader.Persistence.Tables.{Database, has_id, find_action, find-update_where}
use hyper_trader.Persistence.Actions.{
  require_action, update_actions, update_one, set_started, set_result, start_submission,
  apply_transition, is_startable, is_at,
}

-- The row has left `prepared`.
abbrev pub has_left : PreparedActionRecord → Bool
has_left row = not (state_eq row.state prepared)

abbrev pub some_left : Option PreparedActionRecord → Bool
some_left none = false
some_left (some row) = has_left row

-- The action is stored and has left `prepared`.
abbrev pub is_past_prepared : String → Database → Bool
is_past_prepared id db = some_left (find_action id db.actions)

-- What has left `prepared` in one database has in the other.
abbrev pub IsLater : Database → Database → Type 0
IsLater db db' = (id : String) → is_past_prepared id db ≡ true → is_past_prepared id db' ≡ true

pub from_row-eq-ok :
    (row : PreparedActionRecord) {r : PreparedActionRecord} → from_row row ≡ ok r → r ≡ row
unfolding from_row
from_row-eq-ok row h =
    let (_, _, checked) = >>=-eq-ok (serialize_secret_free_intent _) _ h in
    sym (ok_inj (>>-eq-ok (assert_stored_record row) _ checked).1)

-- What is read is what is stored.
pub require_action-eq-ok :
    (id : String) (db : Database) {r : PreparedActionRecord}
    → require_action id db ≡ ok r
    → (find_action id db.actions ≡ some r) × (from_row r ≡ ok r)
unfolding require_action
require_action-eq-ok id db h =
    let (row, found, read) = >>=-eq-ok (or_throw (find_action id db.actions) _) _ h in
    let same = from_row-eq-ok row read in
    (
      or_throw-eq-ok _ _ found ∙ ap some (sym same),
      subst (λ a. from_row a ≡ ok a) (sym same) (read ∙ ap ok same),
    )

-- What an update of one row has done: it changed one row, and read the action back.
pub update_one-eq-ok :
    (id : String) (p : PreparedActionRecord → Bool)
    (f : PreparedActionRecord → PreparedActionRecord) (message : String) (db : Database)
    {r : PreparedActionRecord} {db' : Database}
    → update_one id p f message db ≡ ok (r, db')
    → (db' ≡ update_actions p f db)
      × (require_action id db' ≡ ok r)
      × ((count_if p db.actions == 1) ≡ true)
unfolding update_one
update_one-eq-ok id p f message db {r} {db'} h =
    let (one, rest) = >>-eq-ok (throw_if _ _) _ h in
    let (a, read, e) = >>=-eq-ok (require_action id (update_actions p f db)) _ rest in
    let pair = ok_inj e in
    let same : update_actions p f db ≡ db' = ap (λ x. x.1) pair in
    (
      sym same,
      subst₂ (λ x y. require_action id x ≡ ok y) same (ap (λ x. x.0) pair) read,
      not-eq-false _ (throw_if-eq-ok _ _ one),
    )

-- An update that keeps the identifiers and takes no action back to `prepared` is later.
pub update_actions-IsLater :
    (p : PreparedActionRecord → Bool) (f : PreparedActionRecord → PreparedActionRecord)
    (db : Database)
    → ((r : PreparedActionRecord) → (f r).journal_id ≡ r.journal_id)
    → ((r : PreparedActionRecord) → has_left r ≡ true → has_left (f r) ≡ true)
    → IsLater db (update_actions p f db)
unfolding find_action
update_actions-IsLater p f db same keeps id h =
    rw (find-update_where (has_id id) p f db.actions (λ r. ap (λ k. str_eq k id) (same r)))
      (go (find (has_id id) db.actions) h)
  where
    kept :
        (b : Bool) (r : PreparedActionRecord)
        → has_left r ≡ true
        → has_left (if b then f r else r) ≡ true
    kept true r h = keeps r h
    kept false r h = h

    go :
        (found : Option PreparedActionRecord)
        → some_left found ≡ true
        → some_left (Option.map (λ r. if p r then f r else r) found) ≡ true
    go none h = cc
    go (some r) h = kept (p r) r h

pub update_one-IsLater :
    (id : String) (p : PreparedActionRecord → Bool)
    (f : PreparedActionRecord → PreparedActionRecord) (message : String) (db : Database)
    {r : PreparedActionRecord} {db' : Database}
    → update_one id p f message db ≡ ok (r, db')
    → ((r : PreparedActionRecord) → (f r).journal_id ≡ r.journal_id)
    → ((r : PreparedActionRecord) → has_left r ≡ true → has_left (f r) ≡ true)
    → IsLater db db'
update_one-IsLater id p f message db h same keeps =
    subst (IsLater db) (sym (update_one-eq-ok id p f message db h).0)
      (update_actions-IsLater p f db same keeps)

pub start_submission-IsLater :
    (id : String) (now : ℕ) (db : Database) {r : PreparedActionRecord} {db' : Database}
    → start_submission id now db ≡ ok (r, db')
    → IsLater db db'
unfolding start_submission
start_submission-IsLater id now db h =
    let (current, _, checked) = >>=-eq-ok (require_action id db) _ h in
    let (_, updated) = >>-eq-ok (throw_if _ _) _ checked in
    update_one-IsLater id (is_startable id) (set_started now) _ db updated (λ r. refl) (λ r h. refl)

transition_leaves :
    (s t : JournalState) → assert_journal_transition s t ≡ ok tt → not (state_eq t prepared) ≡ true
unfolding assert_journal_transition
transition_leaves s t h = ground arith

pub apply_transition-IsLater :
    (id : String) (next : JournalState) (class : Option JournalResultClass) (now : Number)
    (db : Database) {r : PreparedActionRecord} {db' : Database}
    → apply_transition id next class now db ≡ ok (r, db')
    → IsLater db db'
unfolding apply_transition
apply_transition-IsLater id next class now db h =
    let (t, _, h₁) = >>=-eq-ok (assert_time now "now") _ h in
    let (current, _, h₂) = >>=-eq-ok (require_action id db) _ h₁ in
    let (allowed, h₃) = >>-eq-ok (assert_journal_transition current.state next) _ h₂ in
    let (_, updated) = >>-eq-ok (assert_journal_result_class next class) _ h₃ in
    update_one-IsLater id (is_at id current.state) (set_result next class t) _ db updated
      (λ r. refl) (λ r h. transition_leaves current.state next allowed)
