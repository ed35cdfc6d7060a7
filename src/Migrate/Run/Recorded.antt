-- ===== src/Migrate/Run/Recorded.antt =====
-- A run on MySQL (migrate/apply.go, migrate/revert.go), where a statement may commit the open
-- transaction by itself, and what the history then names.
use mathlib.Core.Path.{subst}
use mathlib.Core.List.{cons-ne-nil}
use rasql.Prelude.{
  ◌≡◌, ◌≢◌, refl, ap, ◌∙◌, Bool, none, some, Option, List, [], ◌∷◌, ◌⊎◌, inl, inr, arith,
  Option-cases, Bool-cases, equal, equal_iff, Bytes, Result, ok, err,
}
use rasql.MysqlErrno.{GoError}
use rasql.Migrate.Migration.{Statement, execution_mode_nontransactional}
use rasql.Migrate.Reason.{Reason}
use rasql.Migrate.Prepare.{PreparedMigration, export}
use rasql.Migrate.History.{Row, lookup, collect_applied}
use rasql.Migrate.Connection.{
  Notice, Store, Connection, Engine, execute, attempt, rollback, read_history,
}
use rasql.Migrate.Run.Direction.{
  Direction, up, down, Verdict, proceed, skip, refuse, tolerates, note, run_sources, write_row,
}
use rasql.Migrate.Run.Engines.{
  Run, ◌>>◌, named, non_transactional, begin, commit, change, or_rollback, end_migration, failed,
  proceed_mysql, recheck_mysql, atomic_mysql, one_migration,
}
use rasql.Migrate.Run.Actions.{then_none, then_some, or_rollback-none, or_rollback-some}
use rasql.Migrate.Run.Sources.{change-history, change_failed, write_row-saved}
use rasql.Migrate.Run.Ran.{Applied, change-Applied}
use rasql.Migrate.Run.Calls.{
  begin-store, begin-saved, commit-store, commit_failed, rollback-store, read_history-store,
  read_history-saved, read_history_done,
}

-- The transaction that began at the store is open, or a statement has committed it.
abbrev IsOpen : Store → Connection → Type 0
IsOpen s c = (c.saved ≡ some s) ⊎ (c.saved ≡ none)

IsOpen-rollback :
    (s : Store) (c : Connection)
    → IsOpen s c
    → ((rollback c).store.history ≡ s.history) ⊎ ((rollback c).store.history ≡ c.store.history)
unfolding rollback
IsOpen-rollback s c (inl e) = inl (rw e refl)
IsOpen-rollback s c (inr e) = inr (rw e refl)

execute-IsOpen :
    (engine : Engine) (sql : Bytes) (s : Store) (c : Connection)
    → IsOpen s c
    → IsOpen s (execute engine sql c).1
unfolding execute attempt
execute-IsOpen engine sql s c h = ground arith

run_sources-IsOpen :
    (engine : Engine) (tolerant : GoError → Bool) (wrap : Bytes → GoError → Reason) (id : Bytes)
    (s : Store) (ss : List Statement) (c : Connection)
    → IsOpen s c
    → IsOpen s (run_sources engine tolerant wrap id ss c).1
unfolding run_sources
run_sources-IsOpen engine tolerant wrap id s [] c h = h
run_sources-IsOpen engine tolerant wrap id s (x ∷ xs) c h =
    let ran = execute-IsOpen engine x.sql s c h in
    elim (Option-cases (execute engine x.sql c).0) [
      | inl e ↦ rw (e, run_sources) (run_sources-IsOpen engine tolerant wrap id s xs _ ran)
      | inr (f, e) ↦ elim (Bool-cases (tolerant f)) [
        | inl t ↦
            rw (e, run_sources, t)
              (run_sources-IsOpen engine tolerant wrap id s xs
                (note id x.source f (execute engine x.sql c).1) ran)
        | inr t ↦ rw (e, run_sources, t) ran
      ]
    ]

change-IsOpen :
    (direction : Direction) (engine : Engine) (tolerant : GoError → Bool) (m : PreparedMigration)
    (s : Store) (c : Connection)
    → IsOpen s c
    → IsOpen s (change direction engine tolerant m c).1
change-IsOpen direction engine tolerant m s c h =
    let sources =
      run_sources engine tolerant (direction.source_failed m.id) m.id (direction.sources m) in
    let ran =
      run_sources-IsOpen engine tolerant (direction.source_failed m.id) m.id s (direction.sources m)
        c h in
    elim (Option-cases (sources c).0) [
      | inl e ↦
          let kept = write_row-saved direction m (sources c).1 in
          rw (then_none sources (write_row direction m) c e) (rw kept ran)
      | inr (f, e) ↦ rw (then_some sources (write_row direction m) c f e) ran
    ]

-- The history has the migration's row already, with its own checksum.
abbrev pub IsSkipped : PreparedMigration → List Row → Type 0
IsSkipped m history =
    (rows : List Row) × ((collect_applied [] history ≡ ok rows)
      × (lookup m.id rows ≡ some m.checksum))

rollback-notices : (c : Connection) → (rollback c).notices ≡ c.notices
unfolding rollback
rollback-notices c = refl

begin-notices : (c : Connection) → (begin c).1.notices ≡ c.notices
unfolding named attempt
begin-notices c = ground arith

commit-notices : (c : Connection) → (commit c).1.notices ≡ c.notices
unfolding named attempt
commit-notices c = ground arith

read-notices : (c : Connection) → (read_history c).1.notices ≡ c.notices
unfolding read_history
read-notices c = refl

moved :
    (direction : Direction) (m : PreparedMigration) (s : Store) (notices : List Notice)
    (d later : Connection)
    → later.store ≡ d.store
    → later.notices ≡ d.notices
    → Applied direction m s notices d
    → Applied direction m s notices later
moved direction m s notices d later same told a = record {
  ran = a.ran;
  notes = a.notes;
  sources = a.sources;
  stored = same ∙ a.stored;
  noticed = told ∙ a.noticed;
}

-- The check skips no migration but one that is recorded with its own checksum.
abbrev pub SkipsRecorded : Direction → Type 0
SkipsRecorded direction =
    (m : PreparedMigration) (v : Option Bytes) → direction.recheck m v ≡ skip → v ≡ some m.checksum

pub up-SkipsRecorded : SkipsRecorded up
up-SkipsRecorded m none h = absurd cc
up-SkipsRecorded m (some v) h = elim (Bool-cases (equal v m.checksum)) [
  | inl own ↦ ap some ((equal_iff v m.checksum).0 own)
  | inr other ↦ let bad : refuse (Reason.checksum_mismatch m.id) ≡ skip = rw other at h in absurd cc
]

pub down-SkipsRecorded : SkipsRecorded down
down-SkipsRecorded m none h = absurd cc
down-SkipsRecorded m (some v) h = elim (Bool-cases (equal v m.checksum)) [
  | inl own ↦ let bad : proceed ≡ skip = rw own at h in absurd cc
  | inr other ↦ let bad : refuse (Reason.checksum_mismatch m.id) ≡ skip = rw other at h in absurd cc
]

module _ (direction : Direction) (engine : Engine) (skips : SkipsRecorded direction) where
  -- One migration: completed with its sources run and its row written, skipped with all as it was, or
  -- failed; a failed one may have its row written all the same.
  abbrev pub RecordStep : PreparedMigration → Store → List Notice → Run → Type 0
  RecordStep m s notices r =
      ((r.failure ≡ [])
        × (r.completed ≡ export m ∷ [])
        × Applied direction m s notices r.connection)
      ⊎ (((r.failure ≡ [])
            × (r.completed ≡ [])
            × (r.connection.store ≡ s)
            × (r.connection.notices ≡ notices)
            × IsSkipped m s.history)
          ⊎ ((r.failure ≢ [])
              × (r.completed ≡ [])
              × ((r.connection.store.history ≡ s.history)
                  ⊎ (r.connection.store.history ≡ direction.write m s.history))))

  failed-RecordStep :
      (m : PreparedMigration) (s : Store) (notices : List Notice) (e : Reason) (c : Connection)
      → (c.store.history ≡ s.history) ⊎ (c.store.history ≡ direction.write m s.history)
      → RecordStep m s notices (failed e c)
  failed-RecordStep m s notices e c h = inr (inr (cons-ne-nil e [], refl, h))

  body-RecordStep :
      (m : PreparedMigration) (s : Store) (c : Connection)
      → c.saved ≡ some s
      → c.store ≡ s
      → RecordStep m s c.notices
          (end_migration m (or_rollback (change direction engine (tolerates engine) m >> commit) c))
  unfolding export
  body-RecordStep m s c saved store =
      let all = change direction engine (tolerates engine) m in
      let history : c.store.history ≡ s.history = ap (λ (t : Store). t.history) store in
      let opened = change-IsOpen direction engine (tolerates engine) m s c (inl saved) in
      elim (Option-cases (all c).0) [
        | inr (x, e) ↦
            let both = then_some all commit c x e in
            let kept = change_failed direction engine (tolerates engine) m c x e in
            rw
              (
                or_rollback-some (all >> commit) c x
                    (ap (λ (r : Option Reason × Connection). r.0) both),
                both,
              )
              (failed-RecordStep m s c.notices x (rollback (all c).1) (
                inl (elim (IsOpen-rollback s (all c).1 opened) [
                  | inl back ↦ back
                  | inr stays ↦ stays ∙ kept ∙ history
                ])))
        | inl e ↦
            let both = then_none all commit c e in
            let wrote : (all c).1.store.history ≡ direction.write m s.history =
              change-history direction engine (tolerates engine) m c e
              ∙ ap (direction.write m) history in
            elim (Option-cases (commit (all c).1).0) [
              | inl f ↦
                  rw
                    (
                      or_rollback-none (all >> commit) c
                          (ap (λ (r : Option Reason × Connection). r.0) both ∙ f),
                      both,
                    )
                    (inl (
                      refl,
                      refl,
                      moved direction m s c.notices (all c).1 (commit (all c).1).1
                          (commit-store (all c).1) (commit-notices (all c).1)
                          (subst (λ t. Applied direction m t c.notices (all c).1) store
                            (change-Applied direction engine m c e)),
                    ))
              | inr (x, f) ↦
                  rw
                    (
                      or_rollback-some (all >> commit) c x
                          (ap (λ (r : Option Reason × Connection). r.0) both ∙ f),
                      both,
                    )
                    (failed-RecordStep m s c.notices x (rollback (commit (all c).1).1)
                      (elim (IsOpen-rollback s (commit (all c).1).1
                        (rw (commit_failed (all c).1 f) opened)) [
                          | inl back ↦ inl back
                          | inr stays ↦ inr (
                              stays
                              ∙ ap (λ (t : Store). t.history) (commit-store (all c).1)
                              ∙ wrote)
                        ]))
            ]
      ]

  proceed-RecordStep :
      (m : PreparedMigration) (s : Store) (rows : List Row) (c : Connection)
      → c.saved ≡ some s
      → c.store ≡ s
      → collect_applied [] s.history ≡ ok rows
      → (v : Verdict) → direction.recheck m (lookup m.id rows) ≡ v
      → RecordStep m s c.notices (proceed_mysql direction engine m v c)
  proceed-RecordStep m s rows c saved store read proceed e = body-RecordStep m s c saved store
  proceed-RecordStep m s rows c saved store read skip e = inr (
      inl (
        refl,
        refl,
        rollback-store c s saved,
        rollback-notices c,
        (rows, (read, skips m (lookup m.id rows) e)),
      ))
  proceed-RecordStep m s rows c saved store read (refuse x) e =
      failed-RecordStep m s c.notices x (rollback c)
        (inl (ap (λ (t : Store). t.history) (rollback-store c s saved)))

  recheck-RecordStep :
      (m : PreparedMigration) (s : Store) (c : Connection)
      → c.saved ≡ some s
      → c.store ≡ s
      → (r : Result Reason (List Row))
      → ((rows : List Row) → r ≡ ok rows → collect_applied [] s.history ≡ ok rows)
      → RecordStep m s c.notices (recheck_mysql direction engine m r c)
  recheck-RecordStep m s c saved store (err e) read =
      failed-RecordStep m s c.notices e (rollback c)
        (inl (ap (λ (t : Store). t.history) (rollback-store c s saved)))
  recheck-RecordStep m s c saved store (ok rows) read =
      proceed-RecordStep m s rows c saved store (read rows refl) _ refl

  atomic-RecordStep :
      (m : PreparedMigration) (c : Connection)
      → RecordStep m c.store c.notices (atomic_mysql direction engine m c)
  unfolding atomic_mysql
  atomic-RecordStep m c =
      let opened = (begin c).1 in
      elim (Option-cases (begin c).0) [
        | inr (e, p) ↦
            rw (p, atomic_mysql)
              (failed-RecordStep m c.store c.notices e opened
                (inl (ap (λ (t : Store). t.history) (begin-store c))))
        | inl p ↦
            rw (p, atomic_mysql)
              (subst
                (λ n. RecordStep m c.store n (
                  recheck_mysql direction engine m (read_history opened).0 (read_history opened).1))
                (read-notices opened ∙ begin-notices c)
                (recheck-RecordStep m c.store (read_history opened).1
                  (read_history-saved opened ∙ begin-saved c p)
                  (read_history-store opened ∙ begin-store c) (read_history opened).0
                  (λ rows h.
                    subst (λ (t : Store). collect_applied [] t.history ≡ ok rows) (begin-store c)
                      (read_history_done opened rows h))))
      ]

  non_transactional-RecordStep :
      (m : PreparedMigration) (c : Connection)
      → RecordStep m c.store c.notices (non_transactional direction engine m c)
  unfolding non_transactional export
  non_transactional-RecordStep m c =
      elim (Option-cases (change direction engine (tolerates engine) m c).0) [
        | inl e ↦
            rw (e, non_transactional, end_migration)
              (inl (refl, refl, change-Applied direction engine m c e))
        | inr (x, e) ↦
            rw (e, non_transactional, end_migration)
              (failed-RecordStep m c.store c.notices x _
                (inl (change_failed direction engine (tolerates engine) m c x e)))
      ]

  pub one-RecordStep :
      (m : PreparedMigration) (c : Connection)
      → RecordStep m c.store c.notices
          (one_migration direction engine (atomic_mysql direction engine) m c)
  unfolding one_migration
  one-RecordStep m c = elim (Bool-cases (equal m.mode execution_mode_nontransactional)) [
    | inl outside ↦ rw outside (non_transactional-RecordStep m c)
    | inr inside ↦ rw inside (atomic-RecordStep m c)
  ]
