-- ===== src/Migrate/Run/Plan/Tests.antt =====
-- Plans of migrate/apply.go and migrate/revert.go at a concrete database.
use rasql.Prelude.{◌≡◌, refl, sym, false, none, [], ◌∷◌, Bytes, ok, err, inl, equal, contains_byte}
use rasql.Unicode.{valid_string, is_blank}
use rasql.Migrate.Migration.{contains, validate, sample_migration}
use rasql.Migrate.Prepare.{prepare, export_migrations, prepare_migrations}
use rasql.Migrate.History.{collect_applied, check_supplied, lookup}
use rasql.Migrate.Reason.{Reason}
use rasql.Migrate.Select.{all_pending, apply_limit, select_applies, select_from}
use rasql.Migrate.Connection.{
  Connection, Engine, postgresql, call, attempt, execute, read_history, ensure_history, rollback,
  done, refused,
}
use rasql.Migrate.Run.Direction.{run_sources, write_row}
use rasql.Migrate.Run.Engines.{
  named, ◌>>◌, or_rollback, atomic_postgresql, non_transactional, one_migration, each_migration,
  with_selection,
}
use rasql.Migrate.Run.Runner.{
  release, release_after, mark_bad, marked_after, give_back, locked_run, after_postgresql_lock,
  with_postgresql_lock, run_postgresql, run_connected, apply,
}
use rasql.Migrate.Run.Plan.{
  observe, locked_read, after_postgresql_read, read_engine, read_connected, apply_plan,
}
use rasql.Migrate.Run.Plan.Foretells.{apply_plan-apply}

abbrev plain : Bytes → Bytes
plain b = b

abbrev engine : Engine
engine = record { dialect = postgresql; implicit_commit = λ _. false }

abbrev empty : Connection
empty = record {
  store = record { history = []; executed = [] };
  saved = none;
  outcomes = [];
  locked = false;
  bad = false;
  notices = [];
}

-- The lock is not given back, and the connection is marked bad.
abbrev stuck : Connection
stuck = record empty { outcomes = done ∷ done ∷ done ∷ done ∷ refused ∷ [] }

planned :
    (apply_plan plain engine all_pending (sample_migration ∷ []) empty).0
    ≡ ok (sample_migration ∷ [])
unfolding apply_plan read_connected read_engine after_postgresql_read locked_read observe named
    attempt call read_history ensure_history collect_applied release release_after mark_bad
    marked_after select_applies check_supplied apply_limit select_from lookup prepare
    export_migrations prepare_migrations contains validate equal contains_byte valid_string is_blank
planned = refl

kept : (apply_plan plain engine all_pending (sample_migration ∷ []) empty).1.store ≡ empty.store
unfolding apply_plan read_connected read_engine after_postgresql_read locked_read observe named
    attempt call read_history ensure_history release release_after mark_bad marked_after prepare
    prepare_migrations contains validate equal contains_byte valid_string is_blank
kept = refl

applied_all : (apply plain engine all_pending (sample_migration ∷ []) empty).failure ≡ []
unfolding apply run_connected run_postgresql with_postgresql_lock after_postgresql_lock locked_run
    give_back with_selection each_migration one_migration atomic_postgresql non_transactional
    or_rollback ◌>>◌ run_sources write_row execute rollback named attempt call read_history
    ensure_history collect_applied release release_after mark_bad marked_after select_applies
    check_supplied apply_limit select_from lookup prepare export_migrations prepare_migrations
    contains validate equal contains_byte valid_string is_blank
applied_all = refl

release_test :
    (apply_plan plain engine all_pending (sample_migration ∷ []) stuck).0
    ≡ err (Reason.release_lock ∷ [])
unfolding apply_plan read_connected read_engine after_postgresql_read locked_read observe named
    attempt call read_history ensure_history collect_applied release release_after mark_bad
    marked_after select_applies check_supplied apply_limit select_from lookup prepare
    export_migrations prepare_migrations contains validate equal contains_byte valid_string is_blank
release_test = refl

apply_plan-apply_example :
    ((apply_plan plain engine all_pending (sample_migration ∷ []) empty).1.store ≡ empty.store)
    × ((apply plain engine all_pending (sample_migration ∷ []) empty).completed
        ≡ sample_migration ∷ [])
apply_plan-apply_example =
    apply_plan-apply plain engine (inl refl) (λ _. refl) all_pending (sample_migration ∷ []) empty
      empty (sample_migration ∷ []) planned (sym kept) applied_all
