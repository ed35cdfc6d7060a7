-- ===== src/Migrate/Run/Calls.antt =====
-- What the calls around a transaction leave as it was.
use rasql.Prelude.{◌≡◌, refl, none, some, arith, List, [], ok}
use rasql.Migrate.History.{Row, collect_applied}
use rasql.Migrate.Connection.{Store, Connection, attempt, rollback, read_history, ensure_history}
use rasql.Migrate.Reason.{Reason}
use rasql.Migrate.Run.Engines.{named, begin, commit}

module _ (c : Connection) where
  pub begin-store : (begin c).1.store ≡ c.store
  unfolding named attempt
  begin-store = ground arith

  pub begin-saved : (begin c).0 ≡ none → (begin c).1.saved ≡ some c.store
  unfolding named attempt
  begin-saved = ground arith

  pub commit-store : (commit c).1.store ≡ c.store
  unfolding named attempt
  commit-store = ground arith

  pub commit_failed : {e : Reason} → (commit c).0 ≡ some e → (commit c).1.saved ≡ c.saved
  unfolding named attempt
  commit_failed = ground arith

  pub named-store : (named Reason.create_history ensure_history c).1.store ≡ c.store
  unfolding named ensure_history
  named-store = ground arith

  pub named-saved : (named Reason.create_history ensure_history c).1.saved ≡ c.saved
  unfolding named ensure_history
  named-saved = ground arith

  pub read_history-store : (read_history c).1.store ≡ c.store
  unfolding read_history
  read_history-store = refl

  pub read_history-saved : (read_history c).1.saved ≡ c.saved
  unfolding read_history
  read_history-saved = refl

  pub read_history_done :
      (rows : List Row)
      → (read_history c).0 ≡ ok rows
      → collect_applied [] c.store.history ≡ ok rows
  unfolding read_history
  read_history_done rows h = ground arith

  pub rollback-store : (s : Store) → c.saved ≡ some s → (rollback c).store ≡ s
  unfolding rollback
  rollback-store s h = ground arith
  -- A `ROLLBACK` that may fail restores the store, or leaves the transaction open.
