-- ===== src/Migrate/Run/Mysql.antt =====
-- The whole run on MySQL (migrate/apply.go, migrate/revert.go): what the history, the SQL in effect and the notices
-- are after it.
use mathlib.Core.Path.{subst}
use mathlib.Core.List.{cons-ne-nil}
use rasql.Prelude.{
  ◌≡◌, ◌≢◌, refl, sym, ap, ◌∙◌, true, List, [], ◌∷◌, ◌++◌, ◌⊎◌, inl, inr, ok, Bytes, arith,
}
use rasql.Migrate.Migration.{Migration}
use rasql.Migrate.Reason.{Reason}
use rasql.Migrate.Prepare.{PreparedMigration, export}
use rasql.Migrate.History.{Row, collect_applied}
use rasql.Migrate.Connection.{
  Notice, Store, Connection, Engine, Outcome, done, refused, fails, call,
}
use rasql.Migrate.Run.Direction.{Direction, up, down}
use rasql.Migrate.Run.Engines.{
  Run, Selection, atomic_mysql, one_migration, each_migration, with_selection,
}
use rasql.Migrate.Run.Runner.{
  set_locked, marked_after, mark_bad, release_after, release, give_back, locked_run,
  after_mysql_lock, with_mysql_lock, run_mysql,
}
use rasql.Migrate.Run.Prefix.{later, each_migration_ok, each_migration_failed}
use rasql.Migrate.Run.Locked.{release-store, append-nil_left, call-store}
use rasql.Migrate.Run.Selecting.{with_selection_holds}
use rasql.Migrate.Run.Ran.{Ran}
use rasql.Migrate.Run.Recorded.{
  IsSkipped, SkipsRecorded, up-SkipsRecorded, down-SkipsRecorded, one-RecordStep,
}

-- What is seen of a connection: the store and the notices.
abbrev pub Seen : Type 0
Seen = Store × List Notice

abbrev pub seen : Connection → Seen
seen c = (c.store, c.notices)

-- From what was seen before the migrations to what is seen after them: each was completed, its
-- sources run in order and its row written, or skipped, or the run stopped at it with an error and
-- left its row as it was or written.
abbrev pub Names :
    Direction → List PreparedMigration → Seen → List Reason → List Migration → Seen → Type 0
Names direction [] before failure completed after = (completed ≡ []) × (after ≡ before)
Names direction (m ∷ ms) (s, notices) failure completed after =
    ((rest : List Migration) × ((ran : List Bytes) × ((notes : List Notice) × ((completed
              ≡ export m ∷ rest)
            × Ran m.id (direction.sources m) ran notes
            × Names direction ms
                (
                  record { history = direction.write m s.history; executed = s.executed ++ ran },
                  notices ++ notes,
                )
                failure rest after))))
    ⊎ ((IsSkipped m s.history × Names direction ms (s, notices) failure completed after)
        ⊎ ((failure ≢ [])
            × (completed ≡ [])
            × ((after.0.history ≡ s.history) ⊎ (after.0.history ≡ direction.write m s.history))))

Names-more :
    (direction : Direction) (ms : List PreparedMigration) (before : Seen)
    (failure more : List Reason) (completed : List Migration) (after : Seen)
    → Names direction ms before failure completed after
    → Names direction ms before (failure ++ more) completed after
Names-more direction [] before failure more completed after h = h
Names-more direction (m ∷ ms) (s, notices) failure more completed after
      (inl (rest, (ran, (notes, (e, sources, h))))) =
    inl (rest, (ran, (notes, (e, sources, Names-more direction ms _ failure more rest after h))))
Names-more direction (m ∷ ms) (s, notices) failure more completed after (inr (inl (skipped, h))) =
    inr (inl (skipped, Names-more direction ms (s, notices) failure more completed after h))
Names-more direction (m ∷ ms) (s, notices) failure more completed after (inr (inr (f, e, h))) =
    inr (inr ((λ x. f (append-nil_left failure more x)), e, h))

-- What a run that selects did: nothing, with an error, or what the selection from the recorded
-- history names.
pub record Named (direction : Direction) (select : Selection) (notices : List Notice) (s : Store)
    (r : Run) : Type 0 where
  pub rows : List Row
  pub selected : List PreparedMigration
  pub read : collect_applied [] s.history ≡ ok rows
  pub chosen : select rows ≡ ok selected
  pub names : Names direction selected (s, notices) r.failure r.completed (seen r.connection)

abbrev pub NamedRun : Direction → Selection → List Notice → Store → Run → Type 0
NamedRun direction select notices s r =
    ((r.failure ≢ []) × (r.completed ≡ []) × (r.connection.store ≡ s))
    ⊎ Named direction select notices s r

release-notices : (c : Connection) → (release c).1.notices ≡ c.notices
unfolding release release_after mark_bad marked_after call
release-notices c = ground arith

call-notices : (c : Connection) → (call c).1.notices ≡ c.notices
unfolding call
call-notices c = refl

module _ (direction : Direction) (engine : Engine) (skips : SkipsRecorded direction) where
  abbrev one : PreparedMigration → Connection → Run
  one = one_migration direction engine (atomic_mysql direction engine)

  AfterRun : List PreparedMigration → Seen → Run → Type 0
  AfterRun ms before r = Names direction ms before r.failure r.completed (seen r.connection)

  each_migration-Names :
      (ms : List PreparedMigration) (c : Connection)
      → AfterRun ms (seen c) (each_migration one ms c)
  unfolding each_migration AfterRun
  each_migration-Names [] c = (refl, refl)
  each_migration-Names (m ∷ ms) c = elim (one-RecordStep direction engine skips m c) [
    | inl (f, d, a) ↦ rw (each_migration_ok one m ms c f) (
        inl (
          (later one m ms c).completed,
          (
            a.ran,
            (
              a.notes,
              (
                ap (λ z. z ++ (later one m ms c).completed) d,
                a.sources,
                subst (λ z. AfterRun ms z (later one m ms c)) (λ i. (a.stored i, a.noticed i))
                    (each_migration-Names ms (one m c).connection),
              ),
            ),
          ),
        ))
    | inr (inl (f, d, h, told, skipped)) ↦ rw (each_migration_ok one m ms c f) (
        inr (
          inl (
            skipped,
            rw d (
                subst (λ z. AfterRun ms z (later one m ms c)) (λ i. (h i, told i))
                  (each_migration-Names ms (one m c).connection)),
          )))
    | inr (inr (f, d, h)) ↦ rw (each_migration_failed one m ms c f) (inr (inr (f, d, h)))
  ]

  module _ (select : Selection) where
    with_selection-NamedRun :
        (c : Connection)
        → NamedRun direction select c.notices c.store (with_selection select (each_migration one) c)
    unfolding AfterRun
    with_selection-NamedRun c =
        with_selection_holds select (each_migration one) c.notices
          (NamedRun direction select c.notices) (λ s e c same. inl (cons-ne-nil e [], refl, same))
          (λ s rows ms c same told read chosen. inr (record {
            rows = rows;
            selected = ms;
            read = read;
            chosen = chosen;
            names =
                subst (λ z. AfterRun ms z (each_migration one ms c)) (λ i. (same i, told i))
                  (each_migration-Names ms c);
          }))
          c refl

    give_back-NamedRun :
        (notices : List Notice) (s : Store) (r : Run)
        → NamedRun direction select notices s r
        → NamedRun direction select notices s (give_back r)
    unfolding give_back
    give_back-NamedRun notices s r (inl (f, d, t)) = inl (
      (λ h. f (append-nil_left r.failure (release r.connection).0 h)),
      d,
      release-store r.connection ∙ t,
    )
    give_back-NamedRun notices s r (inr p) = inr (record {
      rows = p.rows;
      selected = p.selected;
      read = p.read;
      chosen = p.chosen;
      names =
          subst
            (λ z.
              Names direction p.selected (s, notices) (r.failure ++ (release r.connection).0)
                r.completed z)
            (sym (λ i. (release-store r.connection i, release-notices r.connection i)))
            (Names-more direction p.selected (s, notices) r.failure (release r.connection).0
              r.completed (seen r.connection) p.names);
    })

    locked-NamedRun :
        (o : Outcome) (c : Connection)
        → NamedRun direction select c.notices c.store
            (after_mysql_lock (with_selection select (each_migration one)) o c)
    unfolding after_mysql_lock locked_run
    locked-NamedRun done c =
        give_back-NamedRun c.notices c.store
          (with_selection select (each_migration one) (set_locked true c))
          (with_selection-NamedRun (set_locked true c))
    locked-NamedRun refused c = inl (cons-ne-nil _ [], refl, refl)
    locked-NamedRun (fails e) c = inl (cons-ne-nil _ [], refl, refl)

whole-NamedRun :
    (direction : Direction) (engine : Engine) (skips : SkipsRecorded direction) (select : Selection)
    (c : Connection)
    → NamedRun direction select c.notices c.store (run_mysql direction engine select c)
unfolding run_mysql with_mysql_lock
whole-NamedRun direction engine skips select c =
    subst (λ s. NamedRun direction select c.notices s (run_mysql direction engine select c))
      (call-store c)
      (subst
        (λ n. NamedRun direction select n (call c).1.store (run_mysql direction engine select c))
        (call-notices c) (locked-NamedRun direction engine skips select (call c).0 (call c).1))

-- On MySQL, where statements may commit the open transaction by themselves and calls may fail
-- anywhere, an apply and a revert either change nothing and give an error, or go through what was
-- selected from the recorded history in order. A migration is completed: each of its sources took
-- effect, in order, or ended in one of the errors 1050, 1060, 1061, 1091, 3821 and 3940, which is
-- noted with the migration and the source, and its row is written. Or it is skipped, and the history
-- has its row with its own checksum. Or the run stops at it with an error, and its row is as it was
-- or written. Where the run goes on to the end, the history, the SQL in effect and the notices are
-- then those of the completed migrations and of no other.
pub run_mysql-NamedRun :
    (engine : Engine) (select : Selection) (c : Connection)
    → NamedRun up select c.notices c.store (run_mysql up engine select c)
      × NamedRun down select c.notices c.store (run_mysql down engine select c)
run_mysql-NamedRun engine select c = (
  whole-NamedRun up engine up-SkipsRecorded select c,
  whole-NamedRun down engine down-SkipsRecorded select c,
)
