-- ===== src/Migrate/Run/Prefix.antt =====
-- A run on PostgreSQL (migrate/apply.go, migrate/revert.go) stops at the first migration that fails,
-- and the history then names exactly what the run completed.
use mathlib.Core.Path.{ap₂}
use rasql.Prelude.{
  ℕ, take, append-nil, ◌≡◌, ◌≢◌, refl, sym, ap, ◌∙◌, true, List, [], ◌∷◌, ◌++◌, ◌⊎◌, inl, inr,
  Bool-cases, equal, Bytes,
}
use rasql.Migrate.Migration.{Migration, execution_mode_nontransactional}
use rasql.MysqlErrno.{GoError}
use rasql.Migrate.Reason.{Reason}
use rasql.Migrate.Prepare.{PreparedMigration, export, export_migrations}
use rasql.Migrate.Connection.{Store, Connection, Engine}
use rasql.Migrate.Run.Direction.{Direction, tolerates}
use rasql.Migrate.Run.Engines.{Run, atomic_postgresql, one_migration, each_migration}
use rasql.Migrate.Run.Sources.{IsQuiet, IsStrict, sqls, change_store, change_stores}
use rasql.Migrate.Run.Step.{
  IsAtomic, StoreStep, PartialStep, atomic_postgresql-StoreStep, non_transactional-PartialStep,
}

-- Among the errors is that the connection could not be marked bad.
abbrev pub ReportsUnmarked : List Reason → Type 0
ReportsUnmarked es =
    (front : List Reason) × ((e : GoError) × ((back : List Reason) × (es
          ≡ front ++ Reason.not_marked_bad e ∷ back)))

-- How a run over sorted migrations ended: `rest` was not completed, and the SQL `partial` of the
-- migration that failed is in effect beside that of the completed ones.
pub data Ending (direction : Direction) (rest : List PreparedMigration) (partial : List Bytes)
    (r : Run) : Type 0 where
  finished : r.failure ≡ [] → rest ≡ [] → partial ≡ [] → Ending direction rest partial r
  -- An atomic migration that fails leaves nothing in effect.
  atomic_failed :
      (m : PreparedMigration) (later : List PreparedMigration)
      → r.failure ≢ []
      → rest ≡ m ∷ later
      → IsAtomic m
      → partial ≡ []
      → Ending direction rest partial r
  -- A nontransactional one may leave its first sources in effect.
  nontransactional_failed :
      (m : PreparedMigration) (later : List PreparedMigration) (k : ℕ)
      → r.failure ≢ []
      → rest ≡ m ∷ later
      → equal m.mode execution_mode_nontransactional ≡ true
      → partial ≡ take k (sqls (direction.sources m))
      → Ending direction rest partial r
  -- All was completed, and the lock was not given back: the connection is bad, or could not be
  -- marked bad.
  unreleased :
      r.failure ≢ []
      → rest ≡ []
      → partial ≡ []
      → (r.connection.bad ≡ true) ⊎ ReportsUnmarked r.failure
      → Ending direction rest partial r

-- A run over `ms` from the store `s` that completed the first of them, `changed`.
pub record Prefix (direction : Direction) (ms : List PreparedMigration) (s : Store) (r : Run)
    : Type 0 where
  pub changed : List PreparedMigration
  pub rest : List PreparedMigration
  pub partial : List Bytes
  pub splits : ms ≡ changed ++ rest
  pub completed : r.completed ≡ export_migrations changed
  pub history : r.connection.store.history ≡ (change_stores direction changed s).history
  pub executed :
      r.connection.store.executed ≡ (change_stores direction changed s).executed ++ partial
  pub ending : Ending direction rest partial r

module _ (one : PreparedMigration → Connection → Run) (m : PreparedMigration)
    (ms : List PreparedMigration) (c : Connection) where
  abbrev pub later : Run
  later = each_migration one ms (one m c).connection

  pub each_migration_ok :
      (one m c).failure ≡ []
      → each_migration one (m ∷ ms) c ≡ record {
        completed = (one m c).completed ++ later.completed;
        failure = later.failure;
        connection = later.connection;
      }
  unfolding each_migration
  each_migration_ok e = rw (e, each_migration)

  pub each_migration_failed : (one m c).failure ≢ [] → each_migration one (m ∷ ms) c ≡ one m c
  unfolding each_migration
  each_migration_failed h = go (one m c).failure refl
    where
      go : (es : List Reason) → (one m c).failure ≡ es → each_migration one (m ∷ ms) c ≡ one m c
      go [] e = absurd (h e)
      go (x ∷ es) e =
          rw (e, each_migration)
            (λ i. record {
              completed = (one m c).completed;
              failure = e i;
              connection = (one m c).connection;
            })

same-Ending :
    {direction : Direction} (rest : List PreparedMigration) (partial : List Bytes) (r : Run)
    (completed : List Migration)
    → Ending direction rest partial r
    → Ending direction rest partial
        (record { completed = completed; failure = r.failure; connection = r.connection })
same-Ending rest partial r completed (finished f e p) = finished f e p
same-Ending rest partial r completed (atomic_failed m later f e a p) = atomic_failed m later f e a p
same-Ending rest partial r completed (nontransactional_failed m later k f e a p) =
    nontransactional_failed m later k f e a p
same-Ending rest partial r completed (unreleased f e p b) = unreleased f e p b

module _ (direction : Direction) (ms : List PreparedMigration) (m : PreparedMigration) (s : Store)
    (now : Run) where
  -- The first migration was completed: the rest of the run follows.
  Prefix-cons :
      (later : Run)
      → now.completed ≡ export m ∷ []
      → now.connection.store ≡ change_store direction m s
      → Prefix direction ms now.connection.store later
      → Prefix direction (m ∷ ms) s (record {
        completed = now.completed ++ later.completed;
        failure = later.failure;
        connection = later.connection;
      })
  unfolding export_migrations
  Prefix-cons later d t p = record {
    changed = m ∷ p.changed;
    rest = p.rest;
    partial = p.partial;
    splits = ap (◌∷◌ m) p.splits;
    completed = ap₂ ◌++◌ d p.completed;
    history = p.history ∙ ap (λ x. (change_stores direction p.changed x).history) t;
    executed = p.executed ∙ ap (λ x. (change_stores direction p.changed x).executed ++ p.partial) t;
    ending = same-Ending p.rest p.partial later (now.completed ++ later.completed) p.ending;
  }

  -- The first migration failed.
  Prefix-stop :
      (partial : List Bytes)
      → now.completed ≡ []
      → now.connection.store.history ≡ s.history
      → now.connection.store.executed ≡ s.executed ++ partial
      → Ending direction (m ∷ ms) partial now
      → Prefix direction (m ∷ ms) s now
  unfolding export_migrations
  Prefix-stop partial d h x e = record {
    changed = [];
    rest = m ∷ ms;
    partial = partial;
    splits = refl;
    completed = d;
    history = h;
    executed = x;
    ending = e;
  }

module _ (direction : Direction) (engine : Engine) (quiet : IsQuiet engine)
    (never : IsStrict (tolerates engine)) where
  abbrev one : PreparedMigration → Connection → Run
  one = one_migration direction engine (atomic_postgresql direction engine)

  one_atomic :
      (m : PreparedMigration) (c : Connection)
      → IsAtomic m
      → StoreStep direction engine m c (one m c)
  unfolding one_migration
  one_atomic m c e = rw e (atomic_postgresql-StoreStep direction engine quiet m c)

  one_nontransactional :
      (m : PreparedMigration) (c : Connection)
      → equal m.mode execution_mode_nontransactional ≡ true
      → PartialStep direction engine m c (one m c)
  unfolding one_migration
  one_nontransactional m c e = rw e (non_transactional-PartialStep direction engine quiet never m c)

  completed-Prefix :
      (m : PreparedMigration) (ms : List PreparedMigration) (c : Connection)
      → (one m c).failure ≡ []
      → (one m c).completed ≡ export m ∷ []
      → (one m c).connection.store ≡ change_store direction m c.store
      → Prefix direction ms (one m c).connection.store (each_migration one ms (one m c).connection)
      → Prefix direction (m ∷ ms) c.store (each_migration one (m ∷ ms) c)
  completed-Prefix m ms c f d t p = rw (each_migration_ok one m ms c f) (
      Prefix-cons direction ms m c.store (one m c) (each_migration one ms (one m c).connection) d t
        p)

  pub each_migration-Prefix :
      (ms : List PreparedMigration) (c : Connection)
      → Prefix direction ms c.store (each_migration one ms c)
  unfolding export_migrations each_migration
  each_migration-Prefix [] c = record {
    changed = [];
    rest = [];
    partial = [];
    splits = refl;
    completed = refl;
    history = refl;
    executed = sym (append-nil c.store.executed);
    ending = finished refl refl refl;
  }
  each_migration-Prefix (m ∷ ms) c =
      let ih = each_migration-Prefix ms (one m c).connection in
      elim (Bool-cases (equal m.mode execution_mode_nontransactional)) [
        | inr a ↦ elim (one_atomic m c a) [
          | inl (f, d, t) ↦ completed-Prefix m ms c f d t ih
          | inr (f, d, t) ↦ rw (each_migration_failed one m ms c f) (
              Prefix-stop direction ms m c.store (one m c) [] d (ap (λ (x : Store). x.history) t)
                (ap (λ (x : Store). x.executed) t ∙ sym (append-nil c.store.executed))
                (atomic_failed m ms f refl a refl))
        ]
        | inl a ↦ elim (one_nontransactional m c a) [
          | inl (f, d, t) ↦ completed-Prefix m ms c f d t ih
          | inr (f, d, h, x) ↦ rw (each_migration_failed one m ms c f) (
              Prefix-stop direction ms m c.store (one m c) (take x.0 (sqls (direction.sources m))) d
                h x.1 (nontransactional_failed m ms x.0 f refl a refl))
        ]
      ]
