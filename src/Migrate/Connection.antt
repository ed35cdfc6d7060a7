-- ===== src/Migrate/Connection.antt =====
-- What the runner of migrate/*.go sees of a database connection. The driver and the database are not
-- part of the repository: how each call to them ends is an argument, a list of outcomes that the
-- calls take one by one, so that a statement over all such lists covers every failure.
use rasql.Prelude.{Bool, Option, none, some, List, [], ◌∷◌, ◌++◌, if◌then◌else◌, Bytes, Result, err}
use rasql.MysqlErrno.{GoError}
use rasql.Migrate.History.{Row, collect_applied}
use rasql.Migrate.Reason.{Reason, read_applied}

-- How one call ends. `refused` is an answer that the caller does not accept: `GET_LOCK` or
-- `RELEASE_LOCK` other than 1, `pg_advisory_unlock` false. Other calls have no such answer and
-- take it as `done`.
pub data Outcome : Type 0 where
  done refused : Outcome
  fails : GoError → Outcome

-- `history` is the history table, `executed` the migration SQL that is in effect, in order.
pub record Store : Type 0 where
  pub history : List Row
  pub executed : List Bytes

-- A line of the runner's notices: the migration, its source and the error that was tolerated.
pub record Notice : Type 0 where
  pub migration : Bytes
  pub source : Bytes
  pub error : GoError

-- `saved` is what a rollback restores, while a transaction is open.
pub record Connection : Type 0 where
  pub store : Store
  pub saved : Option Store
  pub outcomes : List Outcome
  pub locked : Bool
  pub bad : Bool
  pub notices : List Notice

pub data Dialect : Type 0 where
  postgresql mysql sqlite unsupported : Dialect

-- `implicit_commit` is true of the SQL at which the engine commits the open transaction by itself.
pub record Engine : Type 0 where
  pub dialect : Dialect
  pub implicit_commit : Bytes → Bool

unfoldable pub next_outcome : List Outcome → Outcome
next_outcome [] = done
next_outcome (o ∷ os) = o

unfoldable pub later_outcomes : List Outcome → List Outcome
later_outcomes [] = []
later_outcomes (o ∷ os) = os

-- The outcome of the next call, and the connection after it.
unfoldable pub call : Connection → Outcome × Connection
unfolding next_outcome later_outcomes
call c = (next_outcome c.outcomes, record c { outcomes = later_outcomes c.outcomes })

-- The error of a call, where only an error counts.
abbrev pub error_of : Outcome → Option GoError
error_of done = none
error_of refused = none
error_of (fails e) = some e

-- A call that changes the connection only if it succeeds.
unfoldable pub attempt : (Connection → Connection) → Connection → Option GoError × Connection
unfolding call
attempt effect c =
    let (o, c') = call c in elim (error_of o) [ none ↦ (none, effect c') | some e ↦ (some e, c') ]

abbrev pub close_transaction : Connection → Connection
close_transaction c = record c { saved = none }

abbrev pub add_executed : Bytes → Connection → Connection
add_executed sql c = record c {
  store = record { history = c.store.history; executed = c.store.executed ++ sql ∷ [] };
}

-- An engine commits before it runs such a statement, whether that then succeeds or not.
abbrev pub commit_implicitly : Engine → Bytes → Connection → Connection
commit_implicitly engine sql c = if engine.implicit_commit sql then close_transaction c else c

-- `ExecContext` of one migration source.
unfoldable pub execute : Engine → Bytes → Connection → Option GoError × Connection
unfolding attempt
execute engine sql c = attempt (add_executed sql) (commit_implicitly engine sql c)

abbrev pub open_transaction : Connection → Connection
open_transaction c = record c { saved = some c.store }

abbrev pub restore : Option Store → Store → Store
restore none s = s
restore (some old) s = old

-- `Rollback`, whose result the runner ignores; where no transaction is open it does nothing.
unfoldable pub rollback : Connection → Connection
rollback c = record c { store = restore c.saved c.store; saved = none }

abbrev pub write_history : (List Row → List Row) → Connection → Connection
write_history f c = record c {
  store = record { history = f c.store.history; executed = c.store.executed };
}

abbrev pub read_rows : Outcome → List Row → Result Reason (List Row)
read_rows (fails e) rows = err (read_applied e)
read_rows _ rows = collect_applied [] rows

-- `applied`
unfoldable pub read_history : Connection → Result Reason (List Row) × Connection
unfolding call
read_history c = let (o, c') = call c in (read_rows o c.store.history, c')

-- `ensureHistory`: a table that is there already stays as it is, and one that is made is empty.
unfoldable pub ensure_history : Connection → Option GoError × Connection
unfolding attempt
ensure_history c = attempt (λ c'. c') c
