-- ===== src/Migrate/Run/Actions.antt =====
-- Sequences of calls, step by step, with the calls shut.
use rasql.Prelude.{◌≡◌, none, some}
use rasql.Migrate.Reason.{Reason}
use rasql.Migrate.Connection.{Connection, rollback}
use rasql.Migrate.Run.Engines.{Action, ◌>>◌, or_rollback}

module _ (m k : Action) (c : Connection) where
  pub then_none : (m c).0 ≡ none → (m >> k) c ≡ k (m c).1
  unfolding ◌>>◌
  then_none e = rw (e, ◌>>◌)

  pub then_some : (x : Reason) → (m c).0 ≡ some x → (m >> k) c ≡ (some x, (m c).1)
  unfolding ◌>>◌
  then_some x e = rw (e, ◌>>◌)

module _ (m : Action) (c : Connection) where
  pub or_rollback-none : (m c).0 ≡ none → or_rollback m c ≡ (none, (m c).1)
  unfolding or_rollback
  or_rollback-none e = rw (e, or_rollback)

  pub or_rollback-some :
      (x : Reason) → (m c).0 ≡ some x → or_rollback m c ≡ (some x, rollback (m c).1)
  unfolding or_rollback
  or_rollback-some x e = rw (e, or_rollback)
