-- ===== src/Migrate/History.antt =====
-- The recorded migrations: rows of the history table as `applied` of migrate/runner.go reads them,
-- and what a row says of a prepared migration.
use rasql.Prelude.{
  ◌≡◌, refl, Bool, true, false, ◌||◌, Option, none, some, List, [], ◌∷◌, ◌++◌, arith, if◌then◌else◌,
  All, Bytes, equal, Result, ok, err, ◌>>◌, guard,
}
use rasql.Migrate.Prepare.{PreparedMigration}
use rasql.Migrate.Reason.{Reason, duplicate_history_id, recorded_not_supplied}

-- One row of the history table: `id` and `checksum`.
abbrev pub Row : Type 0
Row = Bytes × Bytes

-- Also the Go map `applied`, with the first row of an ID; `applied` admits one row for each.
unfoldable pub lookup : Bytes → List Row → Option Bytes
lookup id [] = none
lookup id ((k, v) ∷ rows) = if equal k id then some v else lookup id rows

unfoldable pub is_recorded : List Row → Bytes → Bool
is_recorded [] id = false
is_recorded ((k, v) ∷ rows) id = equal k id || is_recorded rows id

-- The loop of `applied` over the rows, with the map filled so far.
unfoldable pub collect_applied : List Row → List Row → Result Reason (List Row)
collect_applied applied [] = ok applied
collect_applied applied ((k, v) ∷ rows) =
    let rest = collect_applied (applied ++ (k, v) ∷ []) rows in
    if is_recorded applied k then err (duplicate_history_id k) else rest

unfoldable pub is_supplied : Bytes → List PreparedMigration → Bool
is_supplied id [] = false
is_supplied id (m ∷ ms) = equal m.id id || is_supplied id ms

-- `for id := range applied`: every recorded ID was supplied. A Go map has no order of its own;
-- here the first row that was not supplied is named.
unfoldable pub check_supplied : List Row → List PreparedMigration → Result Reason (Unit {0})
check_supplied [] ms = ok tt
check_supplied ((k, v) ∷ rows) ms = do
  guard (is_supplied k ms) (recorded_not_supplied k)
  check_supplied rows ms

-- The row that `record` inserts.
abbrev pub row_of : PreparedMigration → Row
row_of m = (m.id, m.checksum)

-- `m` is recorded, with its own checksum.
abbrev pub IsRecorded : List Row → PreparedMigration → Type 0
IsRecorded rows m = lookup m.id rows ≡ some m.checksum

abbrev pub IsPending : List Row → PreparedMigration → Type 0
IsPending rows m = lookup m.id rows ≡ none

-- Every row is of a supplied migration.
abbrev pub AreSupplied : List PreparedMigration → List Row → Type 0
AreSupplied ms rows = All (λ r. is_supplied r.0 ms ≡ true) rows

pub check_supplied_ok :
    (rows : List Row) (ms : List PreparedMigration)
    → check_supplied rows ms ≡ ok tt
    → AreSupplied ms rows
unfolding check_supplied
check_supplied_ok [] ms h = tt
check_supplied_ok ((k, v) ∷ rows) ms h = ground (arith, check_supplied_ok rows ms)

pub check_supplied_complete :
    (rows : List Row) (ms : List PreparedMigration)
    → AreSupplied ms rows
    → check_supplied rows ms ≡ ok tt
unfolding check_supplied
check_supplied_complete [] ms h = refl
check_supplied_complete ((k, v) ∷ rows) ms (h, hs) =
    ground (arith, check_supplied_complete rows ms hs)
