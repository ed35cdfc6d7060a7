-- ===== src/Migrate/Run/Direction.antt =====
-- What differs between an apply and a revert, the loop over one migration's sources, and the
-- tolerance of migrate/mysql_already_applied.go.
use rasql.Prelude.{
  Bool, true, false, not, Option, none, some, List, [], ◌∷◌, ◌++◌, if◌then◌else◌, Bytes, equal,
}
use rasql.MysqlErrno.{GoError, number, already_applied}
use rasql.Migrate.Migration.{Statement}
use rasql.Migrate.Reason.{
  Reason, execute_source, execute_reverse_source, record_migration, remove_record,
  checksum_mismatch, not_recorded,
}
use rasql.Migrate.Prepare.{PreparedMigration}
use rasql.Migrate.History.{Row, row_of}
use rasql.Migrate.Connection.{
  Notice, Connection, Dialect, mysql, Engine, attempt, execute, write_history,
}

-- What the check inside a MySQL transaction says of one migration.
pub data Verdict : Type 0 where
  proceed skip : Verdict
  refuse : Reason → Verdict

pub record Direction : Type 0 where
  pub sources : PreparedMigration → List Statement
  pub source_failed : Bytes → Bytes → GoError → Reason
  pub write : PreparedMigration → List Row → List Row
  pub write_failed : Bytes → GoError → Reason
  pub recheck : PreparedMigration → Option Bytes → Verdict

-- `DELETE FROM history WHERE id = ?`
unfoldable pub without_id : Bytes → List Row → List Row
without_id id [] = []
without_id id ((k, v) ∷ rows) =
    let rest = without_id id rows in if equal k id then rest else (k, v) ∷ rest

abbrev pub recheck_up : PreparedMigration → Option Bytes → Verdict
recheck_up m none = proceed
recheck_up m (some v) = if not (equal v m.checksum) then refuse (checksum_mismatch m.id) else skip

abbrev pub recheck_down : PreparedMigration → Option Bytes → Verdict
recheck_down m none = refuse (not_recorded m.id)
recheck_down m (some v) =
    if not (equal v m.checksum) then refuse (checksum_mismatch m.id) else proceed

-- Forward: `record` inserts the row.
abbrev pub up : Direction
up = record {
  sources = λ m. m.statements;
  source_failed = execute_source;
  write = λ m rows. rows ++ row_of m ∷ [];
  write_failed = record_migration;
  recheck = recheck_up;
}

-- Reverse: `forget` deletes the row.
abbrev pub down : Direction
down = record {
  sources = λ m. m.down;
  source_failed = execute_reverse_source;
  write = λ m rows. without_id m.id rows;
  write_failed = remove_record;
  recheck = recheck_down;
}

abbrev pub is_mysql : Dialect → Bool
is_mysql mysql = true
is_mysql _ = false

unfoldable pub already_done : GoError → Bool
already_done e = elim (number e) [ none ↦ false | some n ↦ already_applied n ]

-- `tolerateAlreadyDone`, less its notice.
unfoldable pub tolerates : Engine → GoError → Bool
unfolding already_done
tolerates engine e = if is_mysql engine.dialect then already_done e else false

-- The loops that tolerate nothing.
abbrev pub strict : GoError → Bool
strict e = false

abbrev pub notice_of : Bytes → Bytes → GoError → Notice
notice_of id source e = record { migration = id; source = source; error = e }

abbrev pub note : Bytes → Bytes → GoError → Connection → Connection
note id source e c = record c { notices = c.notices ++ notice_of id source e ∷ [] }

-- `for _, statement := range …`: the sources of migration `id` one by one, up to the first error
-- that is not tolerated; a tolerated one leaves a notice.
unfoldable pub run_sources :
    Engine
    → (GoError → Bool)
    → (Bytes → GoError → Reason)
    → Bytes
    → List Statement
    → Connection
    → Option Reason × Connection
run_sources engine tolerant failed id [] c = (none, c)
run_sources engine tolerant failed id (s ∷ ss) c =
    let (r, c') = execute engine s.sql c in
    elim r [
      | none ↦ run_sources engine tolerant failed id ss c'
      | some e ↦
          let rest = run_sources engine tolerant failed id ss (note id s.source e c') in
          if tolerant e then rest else (some (failed s.source e), c')
    ]

-- `record` and `forget`.
unfoldable pub write_row : Direction → PreparedMigration → Connection → Option Reason × Connection
write_row direction m c =
    let (r, c') = attempt (write_history (direction.write m)) c in
    elim r [ none ↦ (none, c') | some e ↦ (some (direction.write_failed m.id e), c') ]

-- The history after the rows of these migrations were written.
abbrev pub write_all : Direction → List PreparedMigration → List Row → List Row
write_all direction [] rows = rows
write_all direction (m ∷ ms) rows = write_all direction ms (direction.write m rows)
