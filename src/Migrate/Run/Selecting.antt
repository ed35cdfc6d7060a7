-- ===== src/Migrate/Run/Selecting.antt =====
-- The selection in front of a run's loop (migrate/apply.go, migrate/revert.go): what holds of a
-- refusal and of the loop over what was selected holds of the whole.
use mathlib.Core.Path.{subst}
use rasql.Prelude.{◌≡◌, refl, ◌∙◌, List, [], inl, inr, Option-cases, Result, ok, err, arith}
use rasql.Migrate.Reason.{Reason}
use rasql.Migrate.Prepare.{PreparedMigration}
use rasql.Migrate.History.{Row, collect_applied}
use rasql.Migrate.Connection.{Notice, Store, Connection, read_history, ensure_history}
use rasql.Migrate.Run.Engines.{
  Run, Selection, named, failed, with_selection, selected_or_failed, rows_or_failed,
}
use rasql.Migrate.Run.Calls.{named-store, read_history-store, read_history_done}

named-notices :
    (c : Connection) → (named Reason.create_history ensure_history c).1.notices ≡ c.notices
unfolding named ensure_history
named-notices c = ground arith

read_history-notices : (c : Connection) → (read_history c).1.notices ≡ c.notices
unfolding read_history
read_history-notices c = refl

module _ (select : Selection) (k : List PreparedMigration → Connection → Run)
    (notices : List Notice) (P : Store → Run → Type 0)
    (refused_run : (s : Store) (e : Reason) (c : Connection) → c.store ≡ s → P s (failed e c))
    (selected_run : (s : Store) (rows : List Row) (ms : List PreparedMigration) (c : Connection)
      → c.store ≡ s
      → c.notices ≡ notices
      → collect_applied [] s.history ≡ ok rows
      → select rows ≡ ok ms
      → P s (k ms c)) where
  selected_holds :
      (rows : List Row) (s : Store) (c : Connection)
      → c.store ≡ s
      → c.notices ≡ notices
      → collect_applied [] s.history ≡ ok rows
      → (r : Result Reason (List PreparedMigration)) → select rows ≡ r
      → P s (selected_or_failed r k c)
  selected_holds rows s c same told read (err e) chosen = refused_run s e c same
  selected_holds rows s c same told read (ok ms) chosen =
      selected_run s rows ms c same told read chosen

  rows_hold :
      (s : Store) (c : Connection)
      → c.store ≡ s
      → c.notices ≡ notices
      → (r : Result Reason (List Row))
      → ((rows : List Row) → r ≡ ok rows → collect_applied [] s.history ≡ ok rows)
      → P s (rows_or_failed select r k c)
  rows_hold s c same told (err e) read = refused_run s e c same
  rows_hold s c same told (ok rows) read =
      selected_holds rows s c same told (read rows refl) (select rows) refl

  pub with_selection_holds :
      (c : Connection) → c.notices ≡ notices → P c.store (with_selection select k c)
  unfolding with_selection
  with_selection_holds c told =
      let there = (named Reason.create_history ensure_history c).1 in
      elim (Option-cases (named Reason.create_history ensure_history c).0) [
        | inr (e, p) ↦ rw (p, with_selection) (refused_run c.store e there (named-store c))
        | inl p ↦
            rw (p, with_selection)
              (rows_hold c.store (read_history there).1 (read_history-store there ∙ named-store c)
                (read_history-notices there ∙ named-notices c ∙ told) (read_history there).0
                (λ rows h.
                  subst (λ (t : Store). collect_applied [] t.history ≡ ok rows) (named-store c)
                    (read_history_done there rows h)))
      ]
