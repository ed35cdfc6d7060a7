-- ===== src/Migrate/Run/Sources.antt =====
-- What running the sources of a migration, and writing its row, does to the database.
use rasql.Prelude.{
  ℕ, suc, take, Option-cases, inl, inr, ◌∙◌, ◌≡◌, refl, sym, ap, Bool, false, none, some, List, [],
  ◌∷◌, ◌++◌, append_assoc, append-nil, map, arith, Bytes, Bool-cases,
}
use rasql.MysqlErrno.{GoError}
use rasql.Migrate.Migration.{Statement}
use rasql.Migrate.Reason.{Reason}
use rasql.Migrate.Prepare.{PreparedMigration}
use rasql.Migrate.Connection.{Store, Connection, Engine, execute, attempt}
use rasql.Migrate.Run.Direction.{Direction, strict, note, run_sources, write_row}
use rasql.Migrate.Run.Engines.{◌>>◌, change}
use rasql.Migrate.Run.Runner.{change_all}

-- No statement makes the engine commit by itself: PostgreSQL and SQLite.
abbrev pub IsQuiet : Engine → Type 0
IsQuiet engine = (sql : Bytes) → engine.implicit_commit sql ≡ false

abbrev pub sqls : List Statement → List Bytes
sqls = map (λ s. s.sql)

-- The store after a whole migration: all its sources in effect, its row written.
abbrev pub change_store : Direction → PreparedMigration → Store → Store
change_store direction m s = record {
  history = direction.write m s.history;
  executed = s.executed ++ sqls (direction.sources m);
}

abbrev pub change_stores : Direction → List PreparedMigration → Store → Store
change_stores direction [] s = s
change_stores direction (m ∷ ms) s = change_stores direction ms (change_store direction m s)

module _ (engine : Engine) (quiet : IsQuiet engine) (sql : Bytes) (c : Connection) where
  execute-saved : (execute engine sql c).1.saved ≡ c.saved
  unfolding execute
  execute-saved = ground (arith, quiet sql)

  execute-done :
      (execute engine sql c).0 ≡ none
      → (execute engine sql c).1.store.executed ≡ c.store.executed ++ sql ∷ []
  unfolding execute
  execute-done = ground (arith, quiet sql)

module _ (engine : Engine) (quiet : IsQuiet engine) (sql : Bytes) (c : Connection) where
  execute_failed :
      (e : GoError)
      → (execute engine sql c).0 ≡ some e
      → (execute engine sql c).1.store.executed ≡ c.store.executed
  unfolding execute
  execute_failed e h = ground (arith, quiet sql)

pub execute-history :
    (engine : Engine) (sql : Bytes) (c : Connection)
    → (execute engine sql c).1.store.history ≡ c.store.history
unfolding execute
execute-history engine sql c = ground arith

module _ (engine : Engine) (tolerant : GoError → Bool) (wrap : Bytes → GoError → Reason)
    (id : Bytes) where
  pub run_sources-history :
      (ss : List Statement) (c : Connection)
      → (run_sources engine tolerant wrap id ss c).1.store.history ≡ c.store.history
  unfolding run_sources
  run_sources-history [] c = refl
  run_sources-history (s ∷ ss) c =
      let there = (execute engine s.sql c).1 in
      let same = execute-history engine s.sql c in
      elim (Option-cases (execute engine s.sql c).0) [
        | inl e ↦ rw (e, run_sources) (run_sources-history ss there ∙ same)
        | inr (x, e) ↦ elim (Bool-cases (tolerant x)) [
          | inl t ↦
              rw (e, run_sources, t) (run_sources-history ss (note id s.source x there) ∙ same)
          | inr t ↦ rw (e, run_sources, t) same
        ]
      ]

  pub run_sources-saved :
      IsQuiet engine
      → (ss : List Statement) (c : Connection)
      → (run_sources engine tolerant wrap id ss c).1.saved ≡ c.saved
  unfolding run_sources
  run_sources-saved quiet [] c = refl
  run_sources-saved quiet (s ∷ ss) c =
      let there = (execute engine s.sql c).1 in
      let same = execute-saved engine quiet s.sql c in
      elim (Option-cases (execute engine s.sql c).0) [
        | inl e ↦ rw (e, run_sources) (run_sources-saved quiet ss there ∙ same)
        | inr (x, e) ↦ elim (Bool-cases (tolerant x)) [
          | inl t ↦
              rw (e, run_sources, t) (run_sources-saved quiet ss (note id s.source x there) ∙ same)
          | inr t ↦ rw (e, run_sources, t) same
        ]
      ]

-- No error is taken for work that was already done.
abbrev pub IsStrict : (GoError → Bool) → Type 0
IsStrict tolerant = (e : GoError) → tolerant e ≡ false

module _ (engine : Engine) (quiet : IsQuiet engine) (tolerant : GoError → Bool)
    (never : IsStrict tolerant) (wrap : Bytes → GoError → Reason) (id : Bytes) where
  pub run_sources-done :
      (ss : List Statement) (c : Connection)
      → (run_sources engine tolerant wrap id ss c).0 ≡ none
      → (run_sources engine tolerant wrap id ss c).1.store.executed ≡ c.store.executed ++ sqls ss
  unfolding run_sources
  run_sources-done [] c h = sym (append-nil c.store.executed)
  run_sources-done (s ∷ ss) c h = elim (Option-cases (execute engine s.sql c).0) [
    | inr (x, e) ↦ absurd (ground (arith, never x))
    | inl e ↦ ground (
      arith,
      execute-done engine quiet s.sql c,
      run_sources-done ss (execute engine s.sql c).1,
      append_assoc c.store.executed (s.sql ∷ []) (sqls ss),
    )
  ]

  -- Where it stops, the sources before that one are in effect.
  pub run_sources-partial :
      (ss : List Statement) (c : Connection)
      → (k : ℕ) × ((run_sources engine tolerant wrap id ss c).1.store.executed
          ≡ c.store.executed ++ take k (sqls ss))
  unfolding run_sources
  run_sources-partial [] c = (0, sym (append-nil c.store.executed))
  run_sources-partial (s ∷ ss) c = elim (Option-cases (execute engine s.sql c).0) [
    | inl e ↦
        let (k, ran) = run_sources-partial ss (execute engine s.sql c).1 in
        (
          suc k,
          rw (e, run_sources)
              (ran
                ∙ ap (λ x. x ++ take k (sqls ss)) (execute-done engine quiet s.sql c e)
                ∙ append_assoc c.store.executed (s.sql ∷ []) (take k (sqls ss))),
        )
    | inr (x, e) ↦ (
      0,
      rw (e, run_sources, never x)
          (execute_failed engine quiet s.sql c x e ∙ sym (append-nil c.store.executed)),
    )
  ]

module _ (direction : Direction) (m : PreparedMigration) (c : Connection) where
  pub write_row-saved : (write_row direction m c).1.saved ≡ c.saved
  unfolding write_row attempt
  write_row-saved = ground arith

  pub write_row-executed : (write_row direction m c).1.store.executed ≡ c.store.executed
  unfolding write_row attempt
  write_row-executed = ground arith

  pub write_row-done :
      (write_row direction m c).0 ≡ none
      → (write_row direction m c).1.store.history ≡ direction.write m c.store.history
  unfolding write_row attempt
  write_row-done = ground arith

  pub write_row_failed :
      (e : Reason)
      → (write_row direction m c).0 ≡ some e
      → (write_row direction m c).1.store.history ≡ c.store.history
  unfolding write_row attempt
  write_row_failed e = ground arith

module _ (direction : Direction) (engine : Engine) (tolerant : GoError → Bool)
    (m : PreparedMigration) where
  pub change-saved :
      IsQuiet engine → (c : Connection) → (change direction engine tolerant m c).1.saved ≡ c.saved
  unfolding ◌>>◌
  change-saved quiet c =
      let ran =
        run_sources engine tolerant (direction.source_failed m.id) m.id (direction.sources m) c in
      ground (
        arith,
        run_sources-saved engine tolerant (direction.source_failed m.id) m.id quiet
            (direction.sources m) c,
        write_row-saved direction m ran.1,
      )

  -- A migration that fails leaves the history as it was, whatever of its sources was run.
  pub change_failed :
      (c : Connection) (e : Reason)
      → (change direction engine tolerant m c).0 ≡ some e
      → (change direction engine tolerant m c).1.store.history ≡ c.store.history
  unfolding ◌>>◌
  change_failed c e h =
      let ran =
        run_sources engine tolerant (direction.source_failed m.id) m.id (direction.sources m) c in
      ground (
        arith,
        run_sources-history engine tolerant (direction.source_failed m.id) m.id
            (direction.sources m) c,
        write_row_failed direction m ran.1 e,
      )

  -- A migration that succeeds writes its row.
  pub change-history :
      (c : Connection)
      → (change direction engine tolerant m c).0 ≡ none
      → (change direction engine tolerant m c).1.store.history ≡ direction.write m c.store.history
  unfolding ◌>>◌
  change-history c h =
      let ran =
        run_sources engine tolerant (direction.source_failed m.id) m.id (direction.sources m) c in
      ground (
        arith,
        run_sources-history engine tolerant (direction.source_failed m.id) m.id
            (direction.sources m) c,
        write_row-done direction m ran.1,
      )

module _ (direction : Direction) (engine : Engine) (quiet : IsQuiet engine)
    (tolerant : GoError → Bool) (never : IsStrict tolerant) where
  pub change-executed :
      (m : PreparedMigration) (c : Connection)
      → (change direction engine tolerant m c).0 ≡ none
      → (change direction engine tolerant m c).1.store.executed
        ≡ c.store.executed ++ sqls (direction.sources m)
  unfolding ◌>>◌
  change-executed m c h =
      let ran =
        run_sources engine tolerant (direction.source_failed m.id) m.id (direction.sources m) c in
      ground (
        arith,
        run_sources-done engine quiet tolerant never (direction.source_failed m.id) m.id
            (direction.sources m) c,
        write_row-executed direction m ran.1,
      )

  pub change_lem :
      (m : PreparedMigration) (c : Connection)
      → (change direction engine tolerant m c).0 ≡ none
      → (change direction engine tolerant m c).1.store ≡ change_store direction m c.store
  change_lem m c h = λ i. record {
    history = change-history direction engine tolerant m c h i;
    executed = change-executed m c h i;
  }

  pub change-partial :
      (m : PreparedMigration) (c : Connection)
      → (k : ℕ) × ((change direction engine tolerant m c).1.store.executed
          ≡ c.store.executed ++ take k (sqls (direction.sources m)))
  unfolding ◌>>◌
  change-partial m c =
      let wrap = direction.source_failed m.id in
      let ran = run_sources engine tolerant wrap m.id (direction.sources m) c in
      let (k, e) =
        run_sources-partial engine quiet tolerant never wrap m.id (direction.sources m) c in
      (k, ground (arith, write_row-executed direction m ran.1))

module _ (direction : Direction) (engine : Engine) (quiet : IsQuiet engine) where
  pub change_all-saved :
      (ms : List PreparedMigration) (c : Connection)
      → (change_all direction engine ms c).1.saved ≡ c.saved
  unfolding change_all
  change_all-saved [] c = refl
  change_all-saved (m ∷ ms) c = ground (
    arith,
    change-saved direction engine strict m quiet c,
    change_all-saved ms (change direction engine strict m c).1,
  )

  pub change_all_lem :
      (ms : List PreparedMigration) (c : Connection)
      → (change_all direction engine ms c).0 ≡ none
      → (change_all direction engine ms c).1.store ≡ change_stores direction ms c.store
  unfolding change_all
  change_all_lem [] c h = refl
  change_all_lem (m ∷ ms) c h =
      let next = (change direction engine strict m c).1 in
      ground (
        arith,
        change_lem direction engine quiet strict (λ e. refl) m c,
        change_all_lem ms next,
        λ (e : next.store ≡ change_store direction m c.store). ap (change_stores direction ms) e,
      )
