-- ===== src/Migrate/Run/Engines.antt =====
-- The runs of migrate/apply.go and migrate/revert.go on PostgreSQL, MySQL and SQLite, with the locks
-- of migrate/postgresql_lock.go.
use rasql.Prelude.{
  Bool, Option, none, some, List, [], ◌∷◌, ◌++◌, if◌then◌else◌, equal, Result, ok, err,
}
use rasql.MysqlErrno.{GoError}
use rasql.Migrate.Migration.{Migration, execution_mode_nontransactional}
use rasql.Migrate.Reason.{Reason}
use rasql.Migrate.Prepare.{PreparedMigration, export}
use rasql.Migrate.History.{Row, lookup}
use rasql.Migrate.Connection.{
  Connection, Engine, attempt, open_transaction, close_transaction, rollback, read_history,
  ensure_history,
}
use rasql.Migrate.Run.Direction.{
  Verdict, proceed, skip, refuse, Direction, tolerates, strict, run_sources, write_row,
}

-- A call sequence that ends at the first error.
abbrev pub Action : Type 0
Action = Connection → Option Reason × Connection

infixl 5 ◌>>◌
unfoldable pub ◌>>◌ : Action → Action → Action
◌>>◌ m k c = let (r, c') = m c in elim r [ none ↦ k c' | some e ↦ (some e, c') ]

unfoldable pub named : (GoError → Reason) → (Connection → Option GoError × Connection) → Action
named reason m c =
    let (r, c') = m c in elim r [ none ↦ (none, c') | some e ↦ (some (reason e), c') ]

-- What a run gives back: the `completed` migrations and the joined errors, none if there is none.
pub record Run : Type 0 where
  pub completed : List Migration
  pub failure : List Reason
  pub connection : Connection

abbrev pub failed : Reason → Connection → Run
failed e c = record { completed = []; failure = e ∷ []; connection = c }

-- The end of one migration: it is completed if no error came.
abbrev pub end_migration : PreparedMigration → Option Reason × Connection → Run
end_migration m (none, c) = record { completed = export m ∷ []; failure = []; connection = c }
end_migration m (some e, c) = failed e c

-- The transaction's body; any error rolls it back.
unfoldable pub or_rollback : Action → Action
or_rollback body c =
    let (r, c') = body c in elim r [ none ↦ (none, c') | some e ↦ (some e, rollback c') ]

abbrev pub begin : Action
begin = named Reason.begin (attempt open_transaction)

abbrev pub commit : Action
commit = named Reason.commit (attempt close_transaction)

module _ (direction : Direction) (engine : Engine) where
  -- The sources and the history write of one migration.
  abbrev pub change : (GoError → Bool) → PreparedMigration → Action
  change tolerant m =
      run_sources engine tolerant (direction.source_failed m.id) m.id (direction.sources m)
      >> write_row direction m

  -- `applyNonTransactional`, `revertNonTransactional`
  unfoldable pub non_transactional : PreparedMigration → Connection → Run
  non_transactional m c = end_migration m (change (tolerates engine) m c)

  -- The body of the loop of `applyPostgreSQL` and `revertPostgreSQL` for an atomic migration.
  unfoldable pub atomic_postgresql : PreparedMigration → Connection → Run
  atomic_postgresql m c = end_migration m ((begin >> or_rollback (change strict m >> commit)) c)

  abbrev pub proceed_mysql : PreparedMigration → Verdict → Connection → Run
  proceed_mysql m proceed c =
      end_migration m (or_rollback (change (tolerates engine) m >> commit) c)
  proceed_mysql m skip c = record { completed = []; failure = []; connection = rollback c }
  proceed_mysql m (refuse e) c = failed e (rollback c)

  abbrev pub recheck_mysql : PreparedMigration → Result Reason (List Row) → Connection → Run
  recheck_mysql m (err e) c = failed e (rollback c)
  recheck_mysql m (ok rows) c = proceed_mysql m (direction.recheck m (lookup m.id rows)) c

  -- `applyAtomicMySQL`, `revertAtomicMySQL`
  unfoldable pub atomic_mysql : PreparedMigration → Connection → Run
  atomic_mysql m c =
      let (r, c') = begin c in
      let (rows, c'') = read_history c' in
      elim r [ some e ↦ failed e c' | none ↦ recheck_mysql m rows c'' ]

  -- One round of the loops over the selected migrations.
  unfoldable pub one_migration :
      (PreparedMigration → Connection → Run) → PreparedMigration → Connection → Run
  one_migration atomic m c =
      if equal m.mode execution_mode_nontransactional then non_transactional m c else atomic m c

-- The loops over the selected migrations, up to the first that fails.
unfoldable pub each_migration :
    (PreparedMigration → Connection → Run) → List PreparedMigration → Connection → Run
each_migration one [] c = record { completed = []; failure = []; connection = c }
each_migration one (m ∷ ms) c =
    let now = one m c in
    let later = each_migration one ms now.connection in
    elim now.failure [
      | [] ↦ record {
        completed = now.completed ++ later.completed;
        failure = later.failure;
        connection = later.connection;
      }
      | e ∷ es ↦ now
    ]

-- `selectApplies` or `selectReverts` with the migrations and the target put in.
abbrev pub Selection : Type 0
Selection = List Row → Result Reason (List PreparedMigration)

abbrev pub selected_or_failed :
    Result Reason (List PreparedMigration)
    → (List PreparedMigration → Connection → Run)
    → Connection
    → Run
selected_or_failed (ok ms) k c = k ms c
selected_or_failed (err e) k c = failed e c

abbrev pub rows_or_failed :
    Selection
    → Result Reason (List Row)
    → (List PreparedMigration → Connection → Run)
    → Connection
    → Run
rows_or_failed select (ok rows) k c = selected_or_failed (select rows) k c
rows_or_failed select (err e) k c = failed e c

-- `ensureHistory`, `applied` and the selection, then `k` on the selected migrations.
unfoldable pub with_selection :
    Selection → (List PreparedMigration → Connection → Run) → Connection → Run
with_selection select k c =
    let (r, c') = named Reason.create_history ensure_history c in
    let (rows, c'') = read_history c' in
    elim r [ some e ↦ failed e c' | none ↦ rows_or_failed select rows k c'' ]
