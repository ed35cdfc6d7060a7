-- ===== src/Migrate/Prepare.antt =====
-- migrate/runner.go: `preparedMigration`, `prepareMigrations` and its sort by ID.
pub mod Sorted
use rasql.Prelude.{
  ◌≡◌, refl, Bool, true, false, not, List, [], ◌∷◌, map, if◌then◌else◌, Bytes, codes, text_lt,
  Result, ok, err, ◌>>=◌, ◌>>◌, guard,
}
use rasql.Migrate.Migration.{
  Statement, Migration, Fault, contains, validate, checksum_mode, sample_migration,
}
use rasql.Migrate.Reason.{Reason, invalid_migration, duplicate_id}

pub record PreparedMigration : Type 0 where
  pub id : Bytes
  pub mode : Bytes
  pub statements : List Statement
  pub down : List Statement
  pub checksum : Bytes

unfoldable pub prepare : (Bytes → Bytes) → Migration → PreparedMigration
prepare digest m = record {
  id = m.id;
  mode = m.mode;
  statements = m.statements;
  down = m.down;
  checksum = checksum_mode digest m.mode m.statements;
}

abbrev pub blame : Bytes → Result Fault (Unit {0}) → Result Reason (Unit {0})
blame id (ok u) = ok u
blame id (err f) = err (invalid_migration id f)

-- The loop of `prepareMigrations`, with the IDs seen so far.
unfoldable pub prepare_each :
    (Bytes → Bytes) → List Bytes → List Migration → Result Reason (List PreparedMigration)
prepare_each digest ids [] = ok []
prepare_each digest ids (m ∷ ms) = do
  guard (not (contains ids m.id)) (duplicate_id m.id)
  blame m.id (validate m)
  rest ← prepare_each digest (m.id ∷ ids) ms
  ok (prepare digest m ∷ rest)

-- `sort.Slice` by `id`: the library's sort, here by insertion. `prepareMigrations` sorts distinct
-- IDs, of which there is one sorted order.
unfoldable pub insert_by_id : PreparedMigration → List PreparedMigration → List PreparedMigration
insert_by_id m [] = m ∷ []
insert_by_id m (p ∷ ps) = if text_lt m.id p.id then m ∷ p ∷ ps else p ∷ insert_by_id m ps

unfoldable pub sort_by_id : List PreparedMigration → List PreparedMigration
unfolding insert_by_id
sort_by_id [] = []
sort_by_id (m ∷ ms) = insert_by_id m (sort_by_id ms)

unfoldable pub prepare_migrations :
    (Bytes → Bytes) → List Migration → Result Reason (List PreparedMigration)
unfolding prepare_each sort_by_id
prepare_migrations digest ms = do prepared ← prepare_each digest [] ms; ok (sort_by_id prepared)

-- `exportMigrations` on one migration.
unfoldable pub export : PreparedMigration → Migration
export p = record { id = p.id; mode = p.mode; statements = p.statements; down = p.down }

unfoldable pub export_migrations : List PreparedMigration → List Migration
unfolding export
export_migrations ps = map export ps
