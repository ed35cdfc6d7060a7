-- ===== src/Migrate/Run/Runner.antt =====
-- The entry points `Apply` and `Revert` of migrate/apply.go and migrate/revert.go, with the locks of
-- migrate/postgresql_lock.go.
use rasql.Prelude.{none, some, List, [], ◌∷◌, ◌++◌, Bytes, Result, ok, err, ◌>>=◌, Bool}
use rasql.Migrate.Migration.{Migration}
use rasql.Migrate.Reason.{Reason}
use rasql.Migrate.Prepare.{PreparedMigration, prepare_migrations, export_migrations}
use rasql.Migrate.Connection.{
  Outcome, done, refused, fails, Connection, Dialect, postgresql, mysql, sqlite, unsupported,
  Engine, call, attempt, rollback, ensure_history, read_history,
}
use rasql.Migrate.Select.{ApplyTarget, select_applies}
use rasql.Migrate.Unselect.{RevertTarget, select_reverts}
use rasql.Migrate.Run.Direction.{Direction, up, down, strict}
use rasql.Migrate.Run.Engines.{
  Action, ◌>>◌, named, Run, failed, begin, commit, change, atomic_postgresql, atomic_mysql,
  one_migration, each_migration, Selection, with_selection,
}

abbrev pub set_locked : Bool → Connection → Connection
set_locked b c = record c { locked = b }

-- The `connection.Raw` that marks the connection bad, so that the pool closes it; it fails where
-- `Raw` does not get to the driver's connection.
unfoldable pub marked_after : Outcome → Connection → List Reason × Connection
marked_after (fails e) c = (Reason.not_marked_bad e ∷ [], c)
marked_after _ c = ([], record c { bad = Bool.true })

unfoldable pub mark_bad : Connection → List Reason × Connection
unfolding marked_after call
mark_bad c = let (o, c') = call c in marked_after o c'

-- `releasePostgreSQLLock` and `releaseMySQLLock`: where the lock was not given back the connection
-- is marked bad, if that can be done.
unfoldable pub release_after : Outcome → Connection → List Reason × Connection
unfolding mark_bad
release_after done c = ([], set_locked Bool.false c)
release_after _ c = let (reasons, c') = mark_bad c in (Reason.release_lock ∷ reasons, c')

unfoldable pub release : Connection → List Reason × Connection
unfolding release_after call
release c = let (o, c') = call c in release_after o c'

-- `errors.Join(operationErr, cleanupErr)`, with what the run completed.
unfoldable pub give_back : Run → Run
give_back r =
    let (cleanup, c') = release r.connection in
    record { completed = r.completed; failure = r.failure ++ cleanup; connection = c' }

-- The run itself, with the lock held.
unfoldable pub locked_run : (Connection → Run) → Connection → Run
locked_run run c = give_back (run (set_locked Bool.true c))

-- `withPostgreSQLLock`: `pg_advisory_lock` waits, so only an error counts.
unfoldable pub after_postgresql_lock : (Connection → Run) → Outcome → Connection → Run
after_postgresql_lock run (fails e) c = failed (Reason.acquire_lock e) c
after_postgresql_lock run _ c = locked_run run c

unfoldable pub with_postgresql_lock : (Connection → Run) → Connection → Run
with_postgresql_lock run c = let (o, c') = call c in after_postgresql_lock run o c'

-- `withMySQLLock`: `GET_LOCK` answers 1, or the wait timed out.
unfoldable pub after_mysql_lock : (Connection → Run) → Outcome → Connection → Run
after_mysql_lock run done c = locked_run run c
after_mysql_lock run refused c = failed Reason.lock_timed_out c
after_mysql_lock run (fails e) c = failed (Reason.acquire_lock e) c

unfoldable pub with_mysql_lock : (Connection → Run) → Connection → Run
with_mysql_lock run c = let (o, c') = call c in after_mysql_lock run o c'

module _ (direction : Direction) (engine : Engine) where
  -- The loop of `applyPrepared` and `revertPrepared`.
  unfoldable pub change_all : List PreparedMigration → Action
  unfolding ◌>>◌
  change_all [] c = (none, c)
  change_all (m ∷ ms) c = (change direction engine strict m >> change_all ms) c

  abbrev pub selected_sqlite :
      Result Reason (List PreparedMigration)
      → Connection
      → Result Reason (List Migration) × Connection
  selected_sqlite (err e) c = (err e, c)
  selected_sqlite (ok ms) c =
      let (r, c') = change_all ms c in
      elim r [ none ↦ (ok (export_migrations ms), c') | some e ↦ (err e, c') ]

  -- `applyPrepared` and `revertPrepared`: all or nothing.
  unfoldable pub run_prepared : Selection → Connection → Result Reason (List Migration) × Connection
  unfolding change_all
  run_prepared select c =
      let (rows, c') = read_history c in selected_sqlite (do rs ← rows; select rs) c'

  -- The transaction's body in `applySQLite` and `revertSQLite`, with its COMMIT.
  abbrev pub commit_sqlite :
      Result Reason (List Migration) × Connection → Result Reason (List Migration) × Connection
  commit_sqlite (err e, c) = (err e, c)
  commit_sqlite (ok ms, c) =
      let (r, c') = commit c in elim r [ none ↦ (ok ms, c') | some e ↦ (err e, c') ]

  -- The deferred `ROLLBACK` of whatever was not committed, whose error is dropped.
  abbrev pub roll_back : Connection → Connection
  roll_back c = (attempt rollback c).1

  abbrev pub deferred_rollback : Result Reason (List Migration) × Connection → Run
  deferred_rollback (ok ms, c) = record { completed = ms; failure = []; connection = c }
  deferred_rollback (err e, c) = failed e (roll_back c)

  -- `applySQLite`, `revertSQLite`
  unfoldable pub run_sqlite : Selection → Connection → Run
  run_sqlite select c =
      let (r, c1) = begin c in
      let (h, c2) = named Reason.create_history ensure_history c1 in
      elim r [
        | some e ↦ failed e c1
        | none ↦ elim h [
          | some e ↦ failed e (roll_back c2)
          | none ↦ deferred_rollback (commit_sqlite (run_prepared select c2))
        ]
      ]

  -- `applyPostgreSQL`, `revertPostgreSQL`
  unfoldable pub run_postgresql : Selection → Connection → Run
  run_postgresql select c =
      with_postgresql_lock
        (with_selection select
          (each_migration (one_migration direction engine (atomic_postgresql direction engine))))
        c

  -- `applyMySQL`, `revertMySQL`
  unfoldable pub run_mysql : Selection → Connection → Run
  run_mysql select c =
      with_mysql_lock
        (with_selection select
          (each_migration (one_migration direction engine (atomic_mysql direction engine))))
        c

  abbrev pub run_engine : Dialect → Selection → Connection → Run
  run_engine postgresql select c = run_postgresql select c
  run_engine mysql select c = run_mysql select c
  run_engine sqlite select c = run_sqlite select c
  run_engine unsupported select c = failed Reason.unsupported_dialect c

  -- `database.Conn`, then the engine's run.
  unfoldable pub run_connected : Selection → Connection → Run
  run_connected select c =
      let (r, c') = named Reason.open_connection (attempt (λ x. x)) c in
      elim r [ some e ↦ failed e c' | none ↦ run_engine engine.dialect select c' ]

abbrev pub prepared_run :
    Result Reason (List PreparedMigration)
    → (List PreparedMigration → Connection → Run)
    → Connection
    → Run
prepared_run (ok ms) k c = k ms c
prepared_run (err e) k c = failed e c

module _ (digest : Bytes → Bytes) (engine : Engine) where
  -- `Apply`
  unfoldable pub apply : ApplyTarget → List Migration → Connection → Run
  apply target ms c =
      prepared_run (prepare_migrations digest ms)
        (λ ps. run_connected up engine (λ rows. select_applies rows ps target)) c

  -- `Revert`
  unfoldable pub revert : RevertTarget → List Migration → Connection → Run
  revert target ms c =
      prepared_run (prepare_migrations digest ms)
        (λ ps. run_connected down engine (λ rows. select_reverts rows ps target)) c
