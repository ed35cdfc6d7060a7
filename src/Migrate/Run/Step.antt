-- ===== src/Migrate/Run/Step.antt =====
-- One migration of a run on PostgreSQL (migrate/apply.go, migrate/revert.go): completed, or not.
use mathlib.Core.List.{cons-ne-nil}
use rasql.Prelude.{
  ℕ, take, ◌≡◌, ◌≢◌, refl, ap, ◌∙◌, false, none, some, Option, [], ◌∷◌, ◌++◌, ◌⊎◌, inl, inr, arith,
  Option-cases, equal,
}
use rasql.Migrate.Migration.{execution_mode_nontransactional}
use rasql.Migrate.Reason.{Reason}
use rasql.Migrate.Prepare.{PreparedMigration, export}
use rasql.Migrate.Connection.{Store, Connection, Engine}
use rasql.Migrate.Run.Direction.{Direction, strict, tolerates}
use rasql.Migrate.Run.Engines.{
  Action, Run, ◌>>◌, begin, commit, change, or_rollback, end_migration, non_transactional,
  atomic_postgresql,
}
use rasql.Migrate.Run.Actions.{then_none, then_some, or_rollback-none, or_rollback-some}
use rasql.Migrate.Run.Sources.{
  IsQuiet, IsStrict, sqls, change-partial, change_store, change-saved, change_lem, change-history,
  change_failed,
}
use rasql.Migrate.Run.Calls.{begin-store, begin-saved, commit-store, commit_failed, rollback-store}

-- Runs in a transaction of its own.
abbrev pub IsAtomic : PreparedMigration → Type 0
IsAtomic m = equal m.mode execution_mode_nontransactional ≡ false

module _ (direction : Direction) (engine : Engine) where
  -- One migration: completed with its row written, or failed with the history as it was.
  abbrev pub HistoryStep : PreparedMigration → Connection → Run → Type 0
  HistoryStep m c r =
      ((r.failure ≡ [])
        × (r.completed ≡ export m ∷ [])
        × (r.connection.store.history ≡ direction.write m c.store.history))
      ⊎ ((r.failure ≢ []) × (r.completed ≡ []) × (r.connection.store.history ≡ c.store.history))

  -- The same with the SQL in effect, where no error is tolerated: a failed migration may leave
  -- sources in effect.
  abbrev pub PartialStep : PreparedMigration → Connection → Run → Type 0
  PartialStep m c r =
      ((r.failure ≡ [])
        × (r.completed ≡ export m ∷ [])
        × (r.connection.store ≡ change_store direction m c.store))
      ⊎ ((r.failure ≢ [])
          × (r.completed ≡ [])
          × (r.connection.store.history ≡ c.store.history)
          × ((k : ℕ) × (r.connection.store.executed
                ≡ c.store.executed ++ take k (sqls (direction.sources m)))))

  -- The same of the whole store.
  abbrev pub StoreStep : PreparedMigration → Connection → Run → Type 0
  StoreStep m c r =
      ((r.failure ≡ [])
        × (r.completed ≡ export m ∷ [])
        × (r.connection.store ≡ change_store direction m c.store))
      ⊎ ((r.failure ≢ []) × (r.completed ≡ []) × (r.connection.store ≡ c.store))

  -- A nontransactional migration, on any engine and whatever calls fail: with no error it is
  -- completed, and its row is written or deleted; with an error it is not completed, and the history
  -- is as it was.
  pub non_transactional-HistoryStep :
      (m : PreparedMigration) (c : Connection)
      → HistoryStep m c (non_transactional direction engine m c)
  unfolding non_transactional export
  non_transactional-HistoryStep m c =
      elim (Option-cases (change direction engine (tolerates engine) m c).0) [
        | inl e ↦
            rw (e, non_transactional, end_migration)
              (inl (refl, refl, change-history direction engine (tolerates engine) m c e))
        | inr (x, e) ↦
            rw (e, non_transactional, end_migration)
              (inr
                (cons-ne-nil x [], refl, change_failed direction engine (tolerates engine) m c x e))
      ]

-- How a transaction's body ended that began at the store `s`: committed at `t`, or rolled back.
abbrev BodyStep : Store → Store → Option Reason × Connection → Type 0
BodyStep s t r =
    ((r.0 ≡ none) × (r.1.store ≡ t)) ⊎ ((e : Reason) × (r.0 ≡ some e) × (r.1.store ≡ s))

-- Any action that, when it succeeds, leaves the store at `t`, in a transaction that it keeps open.
transaction-BodyStep :
    (m : Action) (s t : Store) (c : Connection)
    → (m c).1.saved ≡ some s
    → ((m c).0 ≡ none → (m c).1.store ≡ t)
    → BodyStep s t (or_rollback (m >> commit) c)
transaction-BodyStep m s t c kept changed = elim (Option-cases (m c).0) [
  | inr (x, e) ↦
      let both = then_some m commit c x e in
      rw
        (
          or_rollback-some (m >> commit) c x (ap (λ (r : Option Reason × Connection). r.0) both),
          both,
        )
        (inr (x, refl, rollback-store (m c).1 s kept))
  | inl e ↦
      let both = then_none m commit c e in
      elim (Option-cases (commit (m c).1).0) [
        | inl f ↦
            rw
              (
                or_rollback-none (m >> commit) c
                    (ap (λ (r : Option Reason × Connection). r.0) both ∙ f),
                both,
              )
              (inl (refl, commit-store (m c).1 ∙ changed e))
        | inr (x, f) ↦
            rw
              (
                or_rollback-some (m >> commit) c x
                    (ap (λ (r : Option Reason × Connection). r.0) both ∙ f),
                both,
              )
              (inr (x, refl, rollback-store (commit (m c).1).1 s (commit_failed (m c).1 f ∙ kept)))
      ]
]

module _ (direction : Direction) (engine : Engine) (quiet : IsQuiet engine) where
  abbrev body : PreparedMigration → Action
  body m = or_rollback (change direction engine strict m >> commit)

  end_StoreStep :
      (m : PreparedMigration) (c c' : Connection) (r : Option Reason)
      → BodyStep c.store (change_store direction m c.store) (r, c')
      → StoreStep direction engine m c (end_migration m (r, c'))
  unfolding export
  end_StoreStep m c c' none (inl (p, q)) = inl (refl, refl, q)
  end_StoreStep m c c' none (inr (e, p, q)) = absurd (ground arith)
  end_StoreStep m c c' (some e) (inl (p, q)) = absurd (ground arith)
  end_StoreStep m c c' (some e) (inr (x, p, q)) = inr (cons-ne-nil e [], refl, q)

  pub atomic_postgresql-StoreStep :
      (m : PreparedMigration) (c : Connection)
      → StoreStep direction engine m c (atomic_postgresql direction engine m c)
  unfolding atomic_postgresql
  atomic_postgresql-StoreStep m c =
      let opened = (begin c).1 in
      let all = change direction engine strict m in
      elim (Option-cases (begin c).0) [
        | inr (x, e) ↦
            rw (then_some begin (body m) c x e) (inr (cons-ne-nil x [], refl, begin-store c))
        | inl e ↦ rw (then_none begin (body m) c e) (
            end_StoreStep m c (body m opened).1 (body m opened).0 (
              transaction-BodyStep all c.store (change_store direction m c.store) opened
                (change-saved direction engine strict m quiet opened ∙ begin-saved c e)
                (λ h.
                  change_lem direction engine quiet strict (λ e. refl) m opened h
                  ∙ ap (change_store direction m) (begin-store c))))
      ]

  pub non_transactional-PartialStep :
      IsStrict (tolerates engine)
      → (m : PreparedMigration) (c : Connection)
      → PartialStep direction engine m c (non_transactional direction engine m c)
  unfolding non_transactional export
  non_transactional-PartialStep never m c =
      let tolerant = tolerates engine in
      elim (Option-cases (change direction engine tolerant m c).0) [
        | inl e ↦
            rw (e, non_transactional, end_migration)
              (inl (refl, refl, change_lem direction engine quiet tolerant never m c e))
        | inr (x, e) ↦
            rw (e, non_transactional, end_migration)
              (inr (
                cons-ne-nil x [],
                refl,
                change_failed direction engine tolerant m c x e,
                change-partial direction engine quiet tolerant never m c,
              ))
      ]
