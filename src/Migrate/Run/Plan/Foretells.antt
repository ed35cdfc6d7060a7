-- ===== src/Migrate/Run/Plan/Foretells.antt =====
-- What a plan of migrate/apply.go or migrate/revert.go says of the run that follows it.
use mathlib.Core.Path.{subst}
use mathlib.Core.List.{cons-ne-nil}
use rasql.Prelude.{
  ◌≡◌, refl, sym, ap, ◌∙◌, append-nil, List, [], ◌++◌, ◌⊎◌, inl, inr, Bytes, Option-cases,
  Result-cases, ok,
}
use rasql.Migrate.Migration.{Migration}
use rasql.Migrate.Reason.{Reason}
use rasql.Migrate.Prepare.{PreparedMigration, prepare_migrations, export_migrations}
use rasql.Migrate.History.{Row}
use rasql.Migrate.Connection.{
  Connection, Dialect, postgresql, mysql, sqlite, unsupported, Engine, attempt,
}
use rasql.Migrate.Select.{ApplyTarget, select_applies}
use rasql.Migrate.Unselect.{RevertTarget, select_reverts}
use rasql.Migrate.Run.Direction.{Direction, up, down}
use rasql.Migrate.Run.Engines.{named, Run, Selection}
use rasql.Migrate.Run.Runner.{run_engine, run_connected, run_postgresql, run_sqlite, apply, revert}
use rasql.Migrate.Run.Sources.{IsQuiet}
use rasql.Migrate.Run.AllOrNothing.{run_sqlite-AllOrNothing}
use rasql.Migrate.Run.Locked.{run_postgresql-PrefixRun}
use rasql.Migrate.Run.Prefix.{Ending, finished, atomic_failed, nontransactional_failed, unreleased}
use rasql.Migrate.Run.Plan.{read_connected, exported, apply_plan, revert_plan}
use rasql.Migrate.Run.Plan.Reads.{
  Seen, Seen-unique, opened-store, read_connected-store, read_connected-Seen,
}

Ending-rest :
    {direction : Direction} {rest : List PreparedMigration} {partial : List Bytes} {r : Run}
    → Ending direction rest partial r
    → r.failure ≡ []
    → rest ≡ []
Ending-rest (finished f e p) h = e
Ending-rest (atomic_failed m later f e a p) h = absurd (f h)
Ending-rest (nontransactional_failed m later k f e a p) h = absurd (f h)
Ending-rest (unreleased f e p b) h = absurd (f h)

exported_ok :
    (select : Selection) (rows : List Row) (selected : List PreparedMigration)
    → select rows ≡ ok selected
    → exported select rows ≡ ok (export_migrations selected)
exported_ok select rows selected h = rw h refl

module _ (direction : Direction) (engine : Engine) (quiet : IsQuiet engine)
    (select : Selection) where
  run_postgresql-Seen :
      (c : Connection)
      → engine.dialect ≡ postgresql
      → (run_postgresql direction engine select c).failure ≡ []
      → Seen (exported select) c.store (run_postgresql direction engine select c).completed
  run_postgresql-Seen c here h =
      elim (run_postgresql-PrefixRun direction engine here quiet select c) [
        | inl (failed, _, _) ↦ absurd (failed h)
        | inr ran ↦
            let whole : ran.selected ≡ ran.prefix.changed =
              ran.prefix.splits
              ∙ ap (λ z. ran.prefix.changed ++ z) (Ending-rest ran.prefix.ending h)
              ∙ append-nil ran.prefix.changed in
            record {
              rows = ran.rows;
              read = ran.read;
              makes =
                  exported_ok select ran.rows ran.selected ran.chosen
                  ∙ ap (λ z. ok (export_migrations z)) whole
                  ∙ ap ok (sym ran.prefix.completed);
            }
      ]

  run_sqlite-Seen :
      (c : Connection)
      → (run_sqlite direction engine select c).failure ≡ []
      → Seen (exported select) c.store (run_sqlite direction engine select c).completed
  run_sqlite-Seen c h = elim (run_sqlite-AllOrNothing direction engine quiet select c) [
    | inl (_, all) ↦ record {
      rows = all.rows;
      read = all.read;
      makes = exported_ok select all.rows all.selected all.chosen ∙ ap ok (sym all.completed);
    }
    | inr (failed, _, _) ↦ absurd (failed h)
  ]

  run_engine-Seen :
      (dialect : Dialect) (c : Connection)
      → engine.dialect ≡ dialect
      → (dialect ≡ postgresql) ⊎ (dialect ≡ sqlite)
      → (run_engine direction engine dialect select c).failure ≡ []
      → Seen (exported select) c.store (run_engine direction engine dialect select c).completed
  run_engine-Seen postgresql c e _ h = run_postgresql-Seen c e h
  run_engine-Seen sqlite c e _ h = run_sqlite-Seen c h
  run_engine-Seen mysql c e (inl same) h = absurd cc
  run_engine-Seen mysql c e (inr same) h = absurd cc
  run_engine-Seen unsupported c e (inl same) h = absurd cc
  run_engine-Seen unsupported c e (inr same) h = absurd cc

  run_connected-Seen :
      (c : Connection)
      → (engine.dialect ≡ postgresql) ⊎ (engine.dialect ≡ sqlite)
      → (run_connected direction engine select c).failure ≡ []
      → Seen (exported select) c.store (run_connected direction engine select c).completed
  unfolding run_connected
  run_connected-Seen c here h =
      let opened = named Reason.open_connection (attempt (λ x. x)) c in
      elim (Option-cases opened.0) [
        | inr (e, p) ↦ let bad = rw (p, run_connected) at h in absurd (cons-ne-nil e [] bad)
        | inl p ↦
            let told = rw (p, run_connected) at h in
            rw (p, run_connected)
              (subst
                (λ s.
                  Seen (exported select) s
                    (run_engine direction engine engine.dialect select opened.1).completed)
                (opened-store c) (run_engine-Seen engine.dialect opened.1 refl here told))
      ]

  plan_foretold :
      (c d : Connection) (plan : List Migration)
      → (engine.dialect ≡ postgresql) ⊎ (engine.dialect ≡ sqlite)
      → (read_connected engine (exported select) c).0 ≡ ok plan
      → d.store ≡ (read_connected engine (exported select) c).1.store
      → (run_connected direction engine select d).failure ≡ []
      → ((read_connected engine (exported select) c).1.store ≡ c.store)
        × ((run_connected direction engine select d).completed ≡ plan)
  plan_foretold c d plan here planned same ran =
      let kept = read_connected-store (exported select) engine c in
      let seen = read_connected-Seen (exported select) engine c plan planned in
      let found = run_connected-Seen d here ran in
      (
        kept,
        Seen-unique (exported select) d.store _ _ found
            (subst (λ s. Seen (exported select) s plan) (sym (same ∙ kept)) seen),
      )

-- A plan of `ApplyPlan` changes nothing in the database, and an `Apply` to the same target that then
-- finds the database as the plan left it and ends without an error completes exactly the migrations of
-- the plan, in its order, on PostgreSQL and on SQLite, where no source makes the engine commit by
-- itself.
pub apply_plan-apply :
    (digest : Bytes → Bytes) (engine : Engine)
    → (engine.dialect ≡ postgresql) ⊎ (engine.dialect ≡ sqlite)
    → IsQuiet engine
    → (target : ApplyTarget) (ms : List Migration) (c d : Connection) (plan : List Migration)
    → (apply_plan digest engine target ms c).0 ≡ ok plan
    → d.store ≡ (apply_plan digest engine target ms c).1.store
    → (apply digest engine target ms d).failure ≡ []
    → ((apply_plan digest engine target ms c).1.store ≡ c.store)
      × ((apply digest engine target ms d).completed ≡ plan)
unfolding apply_plan apply
apply_plan-apply digest engine here quiet target ms c d plan planned same ran =
    elim (Result-cases (prepare_migrations digest ms)) [
      | inr (e, p) ↦ let bad = rw (p, apply_plan) at planned in absurd cc
      | inl (ps, p) ↦
          let told = rw (p, apply_plan) at planned in
          let left = rw (p, apply_plan) at same in
          let run = rw (p, apply) at ran in
          rw (p, apply, apply_plan)
            (plan_foretold up engine quiet (λ rows. select_applies rows ps target) c d plan here
              told left run)
    ]

-- A plan of `RevertPlan` changes nothing in the database, and a `Revert` to the same target that then
-- finds the database as the plan left it and ends without an error completes exactly the migrations of
-- the plan, in its order, on PostgreSQL and on SQLite, where no source makes the engine commit by
-- itself.
pub revert_plan-revert :
    (digest : Bytes → Bytes) (engine : Engine)
    → (engine.dialect ≡ postgresql) ⊎ (engine.dialect ≡ sqlite)
    → IsQuiet engine
    → (target : RevertTarget) (ms : List Migration) (c d : Connection) (plan : List Migration)
    → (revert_plan digest engine target ms c).0 ≡ ok plan
    → d.store ≡ (revert_plan digest engine target ms c).1.store
    → (revert digest engine target ms d).failure ≡ []
    → ((revert_plan digest engine target ms c).1.store ≡ c.store)
      × ((revert digest engine target ms d).completed ≡ plan)
unfolding revert_plan revert
revert_plan-revert digest engine here quiet target ms c d plan planned same ran =
    elim (Result-cases (prepare_migrations digest ms)) [
      | inr (e, p) ↦ let bad = rw (p, revert_plan) at planned in absurd cc
      | inl (ps, p) ↦
          let told = rw (p, revert_plan) at planned in
          let left = rw (p, revert_plan) at same in
          let run = rw (p, revert) at ran in
          rw (p, revert, revert_plan)
            (plan_foretold down engine quiet (λ rows. select_reverts rows ps target) c d plan here
              told left run)
    ]
