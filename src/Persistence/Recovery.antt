-- ===== src/Persistence/Recovery.antt =====
-- `SqliteActionJournalRepository` of action-journal.ts: `recoverAfterRestart`.
use hyper_trader.Common.{
  ℕ, Bool, ◌&&◌, ◌||◌, Option, none, some, List, [], ◌∷◌, ◌++◌, ltb, ◌==◌, Number, Result, ok, err,
  ◌>>=◌, codes, lex_lt,
}
use hyper_trader.Journal.{
  JournalState, JournalResultClass, PreparedActionRecord, prepared, state_eq,
  RestartRecoveryDecision, unchanged, transition, restart_recovery_decision,
}
use hyper_trader.Persistence.Rows.{assert_time, is_reconcilable, from_row}
use hyper_trader.Persistence.Tables.{Database, select_where, order_by}
use hyper_trader.Persistence.Actions.{Repository, update_one, immediate, is_at}

-- `state IN ('prepared', 'submission_started', 'unresolved')`
abbrev pub is_pending : JournalState → Bool
is_pending state = state_eq state prepared || is_reconcilable state

-- `ORDER BY prepared_at, journal_id`
abbrev is_prepared_before : PreparedActionRecord → PreparedActionRecord → Bool
is_prepared_before a b =
    ltb a.prepared_at b.prepared_at
    || ((a.prepared_at == b.prepared_at) && lex_lt (codes a.journal_id) (codes b.journal_id))

abbrev recovery_class : JournalState → Option JournalResultClass
recovery_class JournalState.unresolved = some JournalResultClass.unresolved
recovery_class _ = none

abbrev pub set_recovered : JournalState → ℕ → PreparedActionRecord → PreparedActionRecord
set_recovered state now row = record row {
  state = state;
  last_result_class = recovery_class state;
  updated_at = now;
}

-- One round of the loop of `recoverAfterRestart`, with the record that it changes.
unfoldable pub recover_one :
    PreparedActionRecord
    → RestartRecoveryDecision
    → ℕ
    → Database
    → Result (List PreparedActionRecord × Database)
recover_one current unchanged now db = ok ([], db)
recover_one current (transition state) now db = do
  (changed, db') ←
      update_one current.journal_id (is_at current.journal_id current.state)
        (set_recovered state now) "Restart recovery lost its compare-and-swap." db
  ok (changed ∷ [], db')

unfoldable pub recover_rows :
    List PreparedActionRecord → ℕ → Database → Result (List PreparedActionRecord × Database)
recover_rows [] now db = ok ([], db)
recover_rows (row ∷ rows) now db = do
  current ← from_row row
  (changed, db') ← recover_one current (restart_recovery_decision current) now db
  (rest, db'') ← recover_rows rows now db'
  ok (changed ++ rest, db'')

abbrev pub recover_at : Result ℕ → Repository → Result (List PreparedActionRecord) × Repository
recover_at (err e) repo = (err e, repo)
recover_at (ok now) repo =
    immediate (record repo { prepared_in_this_process = [] })
      (recover_rows
        (order_by is_prepared_before (select_where (λ r. is_pending r.state) repo.database.actions))
        now repo.database)

unfoldable pub recover_after_restart :
    Number → Repository → Result (List PreparedActionRecord) × Repository
recover_after_restart now repo = recover_at (assert_time now "now") repo
