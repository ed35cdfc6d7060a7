-- ===== src/Migrate/Run/Plan.antt =====
-- The reads of migrate/apply.go, migrate/revert.go and migrate/status.go: `ApplyPlan`, `RevertPlan` and
-- `Status`, under the locks of a run.
mod Tests
pub mod Reads
pub mod Foretells
use rasql.Prelude.{none, some, List, [], ◌∷◌, Bytes, Bool, true, Result, ok, err, ◌>>=◌}
use rasql.Migrate.Migration.{Migration}
use rasql.Migrate.Reason.{Reason}
use rasql.Migrate.Prepare.{PreparedMigration, prepare_migrations, export_migrations}
use rasql.Migrate.History.{Row}
use rasql.Migrate.Status.{StatusEntry, status_entries}
use rasql.Migrate.Connection.{
  Outcome, done, refused, fails, Connection, Dialect, postgresql, mysql, sqlite, unsupported,
  Engine, call, attempt, ensure_history, read_history,
}
use rasql.Migrate.Select.{ApplyTarget, select_applies}
use rasql.Migrate.Unselect.{RevertTarget, select_reverts}
use rasql.Migrate.Run.Engines.{named, Selection}
use rasql.Migrate.Run.Runner.{set_locked, release}

module _ {A : Type 0} where
  -- The closure that is run under the lock: what it makes of the recorded history.
  unfoldable pub observe : (List Row → Result Reason A) → Connection → Result Reason A × Connection
  observe make c =
      let (r, c') = named Reason.create_history ensure_history c in
      let (rows, c'') = read_history c' in
      elim r [ some e ↦ (err e, c') | none ↦ (rows >>= make, c'') ]

  -- `errors.Join(operationErr, cleanupErr)`; with an error nothing else is given back.
  abbrev pub joined_result : Result Reason A → List Reason → Result (List Reason) A
  joined_result (err e) cleanup = err (e ∷ cleanup)
  joined_result (ok value) [] = ok value
  joined_result (ok value) (e ∷ es) = err (e ∷ es)

  unfoldable pub locked_read :
      (Connection → Result Reason A × Connection) → Connection → Result (List Reason) A × Connection
  locked_read body c =
      let (r, c1) = body (set_locked true c) in
      let (cleanup, c2) = release c1 in (joined_result r cleanup, c2)

  -- `withPostgreSQLReadLock`, behind the call for the lock.
  unfoldable pub after_postgresql_read :
      (Connection → Result Reason A × Connection)
      → Outcome
      → Connection
      → Result (List Reason) A × Connection
  after_postgresql_read body (fails e) c = (err (Reason.acquire_lock e ∷ []), c)
  after_postgresql_read body done c = locked_read body c
  after_postgresql_read body refused c = locked_read body c

  -- `withMySQLReadLock`, behind the call for the lock.
  unfoldable pub after_mysql_read :
      (Connection → Result Reason A × Connection)
      → Outcome
      → Connection
      → Result (List Reason) A × Connection
  after_mysql_read body done c = locked_read body c
  after_mysql_read body refused c = (err (Reason.lock_timed_out ∷ []), c)
  after_mysql_read body (fails e) c = (err (Reason.acquire_lock e ∷ []), c)

  abbrev pub unlocked_read : Result Reason A × Connection → Result (List Reason) A × Connection
  unlocked_read (r, c) = (joined_result r [], c)

  unfoldable pub read_engine :
      Dialect
      → (Connection → Result Reason A × Connection)
      → Connection
      → Result (List Reason) A × Connection
  read_engine postgresql body c = after_postgresql_read body (call c).0 (call c).1
  read_engine mysql body c = after_mysql_read body (call c).0 (call c).1
  read_engine sqlite body c = unlocked_read (body c)
  read_engine unsupported body c = (err (Reason.unsupported_dialect ∷ []), c)

  -- `database.Conn`, then the read.
  unfoldable pub read_connected :
      Engine → (List Row → Result Reason A) → Connection → Result (List Reason) A × Connection
  read_connected engine make c =
      let (r, c') = named Reason.open_connection (attempt (λ x. x)) c in
      elim r [ some e ↦ (err (e ∷ []), c') | none ↦ read_engine engine.dialect (observe make) c' ]

  abbrev pub prepared_read :
      Result Reason (List PreparedMigration)
      → (List PreparedMigration → Connection → Result (List Reason) A × Connection)
      → Connection
      → Result (List Reason) A × Connection
  prepared_read (ok ms) k c = k ms c
  prepared_read (err e) k c = (err (e ∷ []), c)

-- The selected migrations as the caller gets them.
abbrev pub exported : Selection → List Row → Result Reason (List Migration)
exported select rows = select rows >>= λ ms. ok (export_migrations ms)

module _ (digest : Bytes → Bytes) (engine : Engine) where
  -- `ApplyPlan`
  unfoldable pub apply_plan :
      ApplyTarget → List Migration → Connection → Result (List Reason) (List Migration) × Connection
  apply_plan target ms c =
      prepared_read (prepare_migrations digest ms)
        (λ ps. read_connected engine (exported (λ rows. select_applies rows ps target))) c

  -- `RevertPlan`
  unfoldable pub revert_plan :
      RevertTarget
      → List Migration
      → Connection
      → Result (List Reason) (List Migration) × Connection
  revert_plan target ms c =
      prepared_read (prepare_migrations digest ms)
        (λ ps. read_connected engine (exported (λ rows. select_reverts rows ps target))) c

  -- `Status`
  unfoldable pub status :
      List Migration → Connection → Result (List Reason) (List StatusEntry) × Connection
  status ms c =
      prepared_read (prepare_migrations digest ms)
        (λ ps. read_connected engine (λ rows. ok (status_entries rows ps))) c
