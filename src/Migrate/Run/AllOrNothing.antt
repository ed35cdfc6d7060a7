-- ===== src/Migrate/Run/AllOrNothing.antt =====
-- A run on SQLite (migrate/apply.go, migrate/revert.go) changes the database as a whole or not at all.
use mathlib.Core.Path.{subst}
use mathlib.Core.List.{cons-ne-nil}
use rasql.Prelude.{
  ◌≡◌, ◌≢◌, ℕ, ◌+◌, ◌≤◌, refl, sym, ap, ◌∙◌, none, some, List, [], ◌⊎◌, inl, inr, arith,
  Option-cases, Result-cases, Result, ok, err, ◌>>=◌, >>=-eq-ok,
}
use rasql.Migrate.Migration.{Migration}
use rasql.MysqlErrno.{GoError}
use rasql.Migrate.Reason.{Reason}
use rasql.Migrate.Prepare.{PreparedMigration, export_migrations}
use rasql.Migrate.History.{Row, collect_applied}
use rasql.Migrate.Connection.{
  Store, Connection, Engine, call, attempt, rollback, read_history, ensure_history,
}
use rasql.Migrate.Run.Direction.{Direction}
use rasql.Migrate.Run.Engines.{Run, Selection, named, begin, commit}
use rasql.Migrate.Run.Runner.{
  change_all, selected_sqlite, run_prepared, commit_sqlite, deferred_rollback, run_sqlite,
}
use rasql.Migrate.Run.Sources.{IsQuiet, change_stores, change_all-saved, change_all_lem}
use rasql.Migrate.Run.Spent.{
  left, spent, Spends, attempt-Spends, change_all-Spends, begin-Spends, commit-Spends,
  history-Spends, read_history-left,
}
use rasql.Migrate.Run.Calls.{
  begin-store, begin-saved, commit-store, commit_failed, named-store, named-saved,
  read_history-store, read_history-saved, read_history_done,
}

-- From the store `s`: the migrations that the selection names were all changed.
pub record Changed (direction : Direction) (select : Selection) (s : Store) (done : List Migration)
    (t : Store) : Type 0 where
  pub rows : List Row
  pub selected : List PreparedMigration
  pub read : collect_applied [] s.history ≡ ok rows
  pub chosen : select rows ≡ ok selected
  pub completed : done ≡ export_migrations selected
  pub stored : t ≡ change_stores direction selected s

-- What is left of a run that failed, from the store `s` with so many failing calls to come: the
-- store as it was; or, where two calls failed, a transaction that is still open and of which `s` is
-- the rollback.
abbrev pub IsUndone : Store → ℕ → Connection → Type 0
IsUndone s coming d = (d.store ≡ s) ⊎ ((d.saved ≡ some s) × (left d + 2 ≤ coming))

-- What a run did from the connection `b`: all of the selection, with no error; or nothing, with one.
abbrev pub AllOrNothing : Direction → Selection → Connection → Run → Type 0
AllOrNothing direction select b r =
    ((r.failure ≡ []) × Changed direction select b.store r.completed r.connection.store)
    ⊎ ((r.failure ≢ []) × (r.completed ≡ []) × IsUndone b.store (left b) r.connection)

rollback-Spends : Spends (attempt rollback)
unfolding rollback
rollback-Spends = attempt-Spends rollback (λ d. refl)

rolled_back :
    (s : Store) (c : Connection)
    → c.saved ≡ some s
    → (attempt rollback c).0 ≡ none
    → (attempt rollback c).1.store ≡ s
unfolding attempt rollback call
rolled_back s c h e = ground arith

rollback_failed :
    (c : Connection) (e : GoError)
    → (attempt rollback c).0 ≡ some e
    → ((attempt rollback c).1.store ≡ c.store) × ((attempt rollback c).1.saved ≡ c.saved)
unfolding attempt call
rollback_failed c e h = ground arith

-- The deferred ROLLBACK, where nothing was changed or a call failed before.
undone :
    (s : Store) (coming : ℕ) (c : Connection)
    → c.saved ≡ some s
    → (c.store ≡ s) ⊎ (left c + 1 ≤ coming)
    → IsUndone s coming (attempt rollback c).1
undone s coming c saved before = elim (Option-cases (attempt rollback c).0) [
  | inl e ↦ inl (rolled_back s c saved e)
  | inr (x, e) ↦
      let (store, kept) = rollback_failed c x e in
      elim before [
        | inl same ↦ inl (store ∙ same)
        | inr few ↦
            let taken : left (attempt rollback c).1 + 1 ≤ left c =
              rw (e, spent) at (rollback-Spends c) in
            inr (kept ∙ saved, omega arith)
      ]
]

module _ (direction : Direction) (engine : Engine) (quiet : IsQuiet engine)
    (select : Selection) where
  run_prepared-saved : (c : Connection) → (run_prepared direction engine select c).1.saved ≡ c.saved
  unfolding run_prepared
  run_prepared-saved c = elim (Result-cases ((read_history c).0 >>= λ rs. select rs)) [
    | inr (e, p) ↦ rw (p) (read_history-saved c)
    | inl (ms, p) ↦ rw (p) (
        ground (
          arith,
          change_all-saved direction engine quiet ms (read_history c).1,
          read_history-saved c,
        ))
  ]

  selected_done :
      (ms : List PreparedMigration) (c : Connection) (done : List Migration)
      → (selected_sqlite direction engine (ok ms) c).0 ≡ ok done
      → ((change_all direction engine ms c).0 ≡ none)
        × (done ≡ export_migrations ms)
        × ((selected_sqlite direction engine (ok ms) c).1 ≡ (change_all direction engine ms c).1)
  selected_done ms c done h = ground arith

  selected-Changed :
      (c : Connection) (done : List Migration) (r : Result Reason (List PreparedMigration))
      → ((read_history c).0 >>= select) ≡ r
      → (selected_sqlite direction engine r (read_history c).1).0 ≡ ok done
      → Changed direction select c.store done
          (selected_sqlite direction engine r (read_history c).1).1.store
  selected-Changed c done (err e) p h = absurd (ground arith)
  selected-Changed c done (ok ms) p h =
      let (rows, read, chosen) = >>=-eq-ok (read_history c).0 select p in
      let (changed, completed, same) = selected_done ms (read_history c).1 done h in
      record {
        rows = rows;
        selected = ms;
        read = read_history_done c rows read;
        chosen = chosen;
        completed = completed;
        stored =
            ap (λ (x : Connection). x.store) same
            ∙ change_all_lem direction engine quiet ms (read_history c).1 changed
            ∙ ap (change_stores direction ms) (read_history-store c);
      }

  run_prepared-Changed :
      (c : Connection) (done : List Migration)
      → (run_prepared direction engine select c).0 ≡ ok done
      → Changed direction select c.store done (run_prepared direction engine select c).1.store
  unfolding run_prepared
  run_prepared-Changed c done h = selected-Changed c done _ refl h

  selected-left :
      (c : Connection) (r : Result Reason (List PreparedMigration))
      → left (selected_sqlite direction engine r (read_history c).1).1 ≤ left c
  selected-left c (err e) = read_history-left c
  selected-left c (ok ms) =
      let before = read_history-left c in
      let ran = change_all-Spends direction engine ms (read_history c).1 in
      elim (Option-cases (change_all direction engine ms (read_history c).1).0) [
        | inl e ↦ rw (e, selected_sqlite) (omega arith)
        | inr (x, e) ↦ rw (e, selected_sqlite) (omega arith)
      ]

  -- Where the body fails before its COMMIT, nothing was changed or a call failed.
  selected_failed :
      (c : Connection) (e : Reason) (r : Result Reason (List PreparedMigration))
      → (selected_sqlite direction engine r (read_history c).1).0 ≡ err e
      → ((selected_sqlite direction engine r (read_history c).1).1.store ≡ c.store)
        ⊎ (left (selected_sqlite direction engine r (read_history c).1).1 + 1 ≤ left c)
  selected_failed c e (err x) h = inl (read_history-store c)
  selected_failed c e (ok ms) h =
      let before = read_history-left c in
      let ran = change_all-Spends direction engine ms (read_history c).1 in
      elim (Option-cases (change_all direction engine ms (read_history c).1).0) [
        | inl f ↦
            let never : ok (export_migrations ms) ≡ err e = rw (f, selected_sqlite) at h in
            absurd cc
        | inr (x, f) ↦
            let taken : left (change_all direction engine ms (read_history c).1).1 + 1
                ≤ left (read_history c).1 =
              rw (f, spent) at ran in
            rw (f, selected_sqlite) (inr (omega arith))
      ]

  run_prepared-left : (c : Connection) → left (run_prepared direction engine select c).1 ≤ left c
  unfolding run_prepared
  run_prepared-left c = selected-left c _

  run_prepared_failed :
      (c : Connection) (e : Reason)
      → (run_prepared direction engine select c).0 ≡ err e
      → ((run_prepared direction engine select c).1.store ≡ c.store)
        ⊎ (left (run_prepared direction engine select c).1 + 1 ≤ left c)
  unfolding run_prepared
  run_prepared_failed c e h = selected_failed c e _ h

  end_body :
      (b : Connection) (r : Result Reason (List Migration)) (c : Connection)
      → c.saved ≡ some b.store
      → left c ≤ left b
      → ((e : Reason) → r ≡ err e → (c.store ≡ b.store) ⊎ (left c + 1 ≤ left b))
      → ((done : List Migration) → r ≡ ok done → Changed direction select b.store done c.store)
      → AllOrNothing direction select b
          (deferred_rollback direction engine (commit_sqlite direction engine (r, c)))
  end_body b (err e) c saved room before changed =
      inr (cons-ne-nil e [], refl, undone b.store (left b) c saved (before e refl))
  end_body b (ok done) c saved room before changed = elim (Option-cases (commit c).0) [
    | inl e ↦
        rw (e, deferred_rollback, commit_sqlite)
          (inl (
            refl,
            subst (λ t. Changed direction select b.store done t) (sym (commit-store c))
                (changed done refl),
          ))
    | inr (x, e) ↦
        let taken : left (commit c).1 + 1 ≤ left c = rw (e, spent) at (commit-Spends c) in
        rw (e, deferred_rollback, commit_sqlite)
          (inr (
            cons-ne-nil x [],
            refl,
            undone b.store (left b) (commit c).1 (commit_failed c e ∙ saved) (inr (omega arith)),
          ))
  ]

  -- With the history table there, inside the transaction that began at the connection `b`.
  body-AllOrNothing :
      (b c : Connection)
      → c.saved ≡ some b.store
      → c.store ≡ b.store
      → left c ≤ left b
      → AllOrNothing direction select b (
          deferred_rollback direction engine
            (commit_sqlite direction engine (run_prepared direction engine select c)))
  body-AllOrNothing b c saved store room =
      let p = run_prepared direction engine select c in
      let kept = run_prepared-left c in
      end_body b p.0 p.1 (run_prepared-saved c ∙ saved) (omega arith)
        (λ e h. elim (run_prepared_failed c e h) [
          | inl same ↦ inl (same ∙ store)
          | inr few ↦ inr (omega arith)
        ])
        (λ done h.
          subst (λ t. Changed direction select t done p.1.store) store
            (run_prepared-Changed c done h))

  -- On SQLite, with no source at which the engine commits by itself, an apply or a revert changes all
  -- that its target selects or nothing, whatever calls fail: with no error the selection is made from
  -- the recorded history, all its sources are in effect in order and all its rows are written; an
  -- error comes with no completed migration, and the history and the migrations in effect are as
  -- they were, or, only where two calls failed, the ROLLBACK beside the one that ended the run, the
  -- transaction is still open and its rollback restores them.
  pub run_sqlite-AllOrNothing :
      (c : Connection) → AllOrNothing direction select c (run_sqlite direction engine select c)
  unfolding run_sqlite
  run_sqlite-AllOrNothing c = elim (Option-cases (begin c).0) [
    | inr (e, p) ↦ rw (p, run_sqlite) (inr (cons-ne-nil e [], refl, inl (begin-store c)))
    | inl p ↦
        let opened = (begin c).1 in
        let there = (named Reason.create_history ensure_history opened).1 in
        let saved : there.saved ≡ some c.store =
          ground (arith, named-saved opened, begin-saved c) in
        let store : there.store ≡ c.store = ground (arith, named-store opened, begin-store c) in
        let first = begin-Spends c in
        let second = history-Spends opened in
        elim (Option-cases (named Reason.create_history ensure_history opened).0) [
          | inr (e, q) ↦
              rw (p, q, run_sqlite)
                (inr (cons-ne-nil e [], refl, undone c.store (left c) there saved (inl store)))
          | inl q ↦ rw (p, q, run_sqlite) (body-AllOrNothing c there saved store (omega arith))
        ]
  ]
