-- ===== src/Migrate/Tests.antt =====
-- Concrete runs of migrate/*.go, and the theorems at concrete inputs.
use mathlib.Core.List.{reverse, Perm, cons-ne-nil}
use rasql.Prelude.{
  ℕ, ◌-◌, pos, ◌≡◌, refl, ◌↔◌, false, none, List, [], ◌∷◌, ◌++◌, map, length, take, All, Bytes,
  codes, ok, equal, text_lt, contains_byte,
}
use rasql.Unicode.{valid_string, is_blank}
use rasql.Migrate.Migration.{
  contains, validate, sample_migration, checksum_mode, execution_mode_atomic,
  execution_mode_nontransactional,
}
use rasql.Migrate.Migration.Framing.{
  IsNulFree, marker_source, preimage-injective, checksum_collision,
}
use rasql.Migrate.Prepare.{PreparedMigration, prepare, prepare_migrations}
use rasql.Migrate.Prepare.Sorted.{IsSorted, prepare_migrations_lem}
use rasql.Migrate.History.{
  Row, lookup, is_supplied, check_supplied, IsRecorded, IsPending, AreSupplied,
}
use rasql.Migrate.Select.{all_pending, apply_limit, select_applies, select_from}
use rasql.Migrate.Select.Laws.{Resumes, select_applies_sound, select_applies_complete}
use rasql.Migrate.Unselect.{steps, select_reverts, revert_count, applied_in_order, pick_reverts}
use rasql.Migrate.Unselect.Laws.{Undoes, IsListed, select_reverts_sound, select_reverts_complete}
use rasql.Migrate.Status.{status_entries}
use rasql.Migrate.Status.Agreement.{
  AreSettled, Succeeds, ids, pending_ids, status_entries-select_applies,
}
use rasql.Migrate.Connection.{Connection, Engine, sqlite, postgresql, mysql, done, fails}
use rasql.MysqlErrno.{opaque}
use rasql.Migrate.Run.Direction.{up, down, write_all}
use rasql.Migrate.Run.Engines.{Selection, non_transactional}
use rasql.Migrate.Run.Runner.{
  run_sqlite, run_postgresql, run_mysql, with_postgresql_lock, with_mysql_lock,
}
use rasql.Migrate.Run.Mysql.{NamedRun, run_mysql-NamedRun}
use rasql.Migrate.Run.AllOrNothing.{AllOrNothing, run_sqlite-AllOrNothing}
use rasql.Migrate.Run.Locked.{IsReleased, locks-IsReleased, PrefixRun, run_postgresql-PrefixRun}
use rasql.Migrate.RoundTrip.{apply_again}
use rasql.Migrate.RoundTrip.Undo.{revert_applied}

abbrev plain : Bytes → Bytes
plain b = b

abbrev first : PreparedMigration
first = record {
  id = codes "001";
  mode = [];
  statements = (record { source = codes "up"; sql = codes "CREATE" }) ∷ [];
  down = (record { source = codes "down"; sql = codes "DROP" }) ∷ [];
  checksum = codes "a";
}

abbrev second : PreparedMigration
second = record {
  id = codes "002";
  mode = codes "nontransactional";
  statements = (record { source = codes "up"; sql = codes "INDEX" }) ∷ [];
  down = (record { source = codes "down"; sql = codes "UNINDEX" }) ∷ [];
  checksum = codes "b";
}

abbrev both : List PreparedMigration
both = first ∷ second ∷ []

abbrev first_row : List Row
first_row = (codes "001", codes "a") ∷ []

abbrev second_only : List PreparedMigration
second_only = second ∷ []

both-IsSorted : IsSorted both
unfolding text_lt
both-IsSorted = ((refl, tt), (tt, tt))

select_second : select_applies first_row both all_pending ≡ ok second_only
unfolding select_applies check_supplied is_supplied apply_limit select_from lookup equal
select_second = refl

select_applies_sound_example :
    (limit : ℕ) × (apply_limit both all_pending ≡ ok limit)
    × AreSupplied both first_row
    × Resumes first_row both limit second_only
select_applies_sound_example = select_applies_sound first_row both all_pending select_second

supplied_first : AreSupplied both first_row
unfolding is_supplied equal
supplied_first = (refl, tt)

first-IsRecorded : All (IsRecorded first_row) (first ∷ [])
unfolding lookup equal
first-IsRecorded = (refl, tt)

second-IsPending : All (IsPending first_row) second_only
unfolding lookup equal
second-IsPending = (refl, tt)

limit_two : apply_limit both all_pending ≡ ok 2
unfolding apply_limit
limit_two = refl

select_applies_complete_example :
    select_applies first_row ((first ∷ []) ++ second_only) all_pending
    ≡ ok (take (2 - length (first ∷ [])) second_only)
select_applies_complete_example =
    select_applies_complete first_row (first ∷ []) second_only all_pending supplied_first
      first-IsRecorded second-IsPending limit_two

apply_again_example : select_applies (write_all up second_only first_row) both all_pending ≡ ok []
apply_again_example = apply_again first_row both all_pending both-IsSorted select_second

revert_applied_example :
    (select_reverts (write_all up second_only first_row) both (steps (pos (length second_only)))
      ≡ ok (reverse second_only))
    × (write_all down (reverse second_only) (write_all up second_only first_row) ≡ first_row)
revert_applied_example =
    revert_applied first_row both all_pending both-IsSorted select_second (cons-ne-nil second [])
      (refl, tt)

revert_first : select_reverts first_row both (steps (pos 1)) ≡ ok (first ∷ [])
unfolding select_reverts check_supplied is_supplied applied_in_order revert_count pick_reverts
    lookup equal
revert_first = refl

select_reverts_sound_example :
    AreSupplied both first_row × Undoes first_row both (steps (pos 1)) (first ∷ [])
select_reverts_sound_example = select_reverts_sound first_row both (steps (pos 1)) revert_first

first-IsListed : All (IsListed first_row) (first ∷ [])
unfolding lookup equal
first-IsListed = ((codes "a", refl), tt)

one_step : revert_count (first ∷ []) (steps (pos 1)) ≡ ok 1
unfolding revert_count
one_step = refl

select_reverts_complete_example :
    select_reverts first_row ((first ∷ []) ++ second_only) (steps (pos 1))
    ≡ ok (take 1 (reverse (first ∷ [])))
select_reverts_complete_example =
    select_reverts_complete first_row (first ∷ []) second_only (steps (pos 1)) supplied_first
      first-IsListed second-IsPending one_step first-IsRecorded (refl, tt)

status_entries-select_applies_example :
    (AreSettled (status_entries first_row both)
      ↔ Succeeds (select_applies first_row both all_pending))
    × ((sel : List PreparedMigration)
        → select_applies first_row both all_pending ≡ ok sel
        → ids sel ≡ pending_ids (status_entries first_row both))
status_entries-select_applies_example = status_entries-select_applies first_row both

-- A connection whose fourth call fails.
abbrev failing : Connection
failing = record {
  store = record { history = first_row; executed = codes "CREATE" ∷ [] };
  saved = none;
  outcomes = done ∷ done ∷ done ∷ fails opaque ∷ [];
  locked = false;
  bad = false;
  notices = [];
}

abbrev sqlite_engine : Engine
sqlite_engine = record { dialect = sqlite; implicit_commit = λ _. false }

abbrev postgresql_engine : Engine
postgresql_engine = record { dialect = postgresql; implicit_commit = λ _. false }

abbrev to_newest : Selection
to_newest rows = select_applies rows both all_pending

run_sqlite-AllOrNothing_example :
    AllOrNothing up to_newest failing (run_sqlite up sqlite_engine to_newest failing)
run_sqlite-AllOrNothing_example =
    run_sqlite-AllOrNothing up sqlite_engine (λ _. refl) to_newest failing

run_postgresql-PrefixRun_example :
    PrefixRun up to_newest failing.store (run_postgresql up postgresql_engine to_newest failing)
run_postgresql-PrefixRun_example =
    run_postgresql-PrefixRun up postgresql_engine refl (λ _. refl) to_newest failing

locks-IsReleased_example :
    IsReleased (with_postgresql_lock (non_transactional up postgresql_engine second) failing)
    × IsReleased (with_mysql_lock (non_transactional up postgresql_engine second) failing)
locks-IsReleased_example =
    locks-IsReleased (non_transactional up postgresql_engine second) failing refl

-- `CREATE` commits the open transaction.
abbrev mysql_engine : Engine
mysql_engine = record { dialect = mysql; implicit_commit = λ sql. equal sql (codes "CREATE") }

run_mysql-NamedRun_example :
    NamedRun up to_newest [] failing.store (run_mysql up mysql_engine to_newest failing)
    × NamedRun down to_newest [] failing.store (run_mysql down mysql_engine to_newest failing)
run_mysql-NamedRun_example = run_mysql-NamedRun mysql_engine to_newest failing

sample_prepared :
    prepare_migrations plain (sample_migration ∷ []) ≡ ok (prepare plain sample_migration ∷ [])
unfolding prepare_migrations contains validate equal contains_byte valid_string is_blank
sample_prepared = refl

prepare_migrations_lem_example :
    IsSorted (prepare plain sample_migration ∷ [])
    × Perm (prepare plain sample_migration ∷ []) (map (prepare plain) (sample_migration ∷ []))
    × All (λ m. validate m ≡ ok tt) (sample_migration ∷ [])
prepare_migrations_lem_example =
    prepare_migrations_lem plain (sample_migration ∷ []) sample_prepared

first-IsNulFree : All IsNulFree first.statements
unfolding contains_byte
first-IsNulFree = ((refl, refl), tt)

preimage-injective_example : first.statements ≡ first.statements
preimage-injective_example =
    preimage-injective [] first.statements first.statements first-IsNulFree first-IsNulFree refl

checksum_collision_example :
    (checksum_mode plain execution_mode_nontransactional first.statements
      ≡ checksum_mode plain execution_mode_atomic (marker_source ∷ first.statements))
    × (checksum_mode plain [] (
          (record { source = codes "s"; sql = codes "x" ++ (0 ∷ (codes "n" ++ (0 ∷ codes "y"))) })
          ∷ first.statements)
        ≡ checksum_mode plain [] (
            (record { source = codes "s"; sql = codes "x" })
            ∷ (record { source = codes "n"; sql = codes "y" })
            ∷ first.statements))
checksum_collision_example =
    checksum_collision plain [] (codes "s") (codes "n") (codes "x") (codes "y") first.statements
