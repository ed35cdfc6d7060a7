-- ===== src/Migrate/Status.antt =====
-- migrate/status.go: `StatusEntry` and `statusEntries`.
pub mod Agreement
use rasql.Prelude.{
  Bool, true, false, not, Option, none, some, List, [], ◌∷◌, ◌++◌, map, ◌==◌, if◌then◌else◌, length,
  Bytes, equal, text_lt,
}
use rasql.Migrate.Prepare.{PreparedMigration}
use rasql.Migrate.History.{Row, lookup, is_supplied}

pub data StatusState : Type 0 where
  applied pending changed out_of_order unknown : StatusState

pub record StatusEntry : Type 0 where
  pub id : Bytes
  pub state : StatusState
  pub reversible : Bool

-- The IDs of the rows that were not supplied.
unfoldable pub unknown_ids : List Row → List PreparedMigration → List Bytes
unknown_ids [] ms = []
unknown_ids ((k, v) ∷ rows) ms =
    let rest = unknown_ids rows ms in if is_supplied k ms then rest else k ∷ rest

-- `sort.Strings`, here by insertion.
unfoldable pub insert_text : Bytes → List Bytes → List Bytes
insert_text t [] = t ∷ []
insert_text t (u ∷ us) = if text_lt t u then t ∷ u ∷ us else u ∷ insert_text t us

unfoldable pub sort_texts : List Bytes → List Bytes
unfolding insert_text
sort_texts [] = []
sort_texts (t ∷ ts) = insert_text t (sort_texts ts)

abbrev pub unknown_entry : Bytes → StatusEntry
unknown_entry id = record { id = id; state = unknown; reversible = false }

abbrev pub is_reversible : PreparedMigration → Bool
is_reversible m = not (length m.down == 0)

-- The state of a recorded migration; the flag is `pending` of the loop.
abbrev pub recorded_state : Bytes → PreparedMigration → Bool → StatusState
recorded_state recorded m missing =
    if not (equal recorded m.checksum) then changed else if missing then out_of_order else applied

abbrev pub entry : PreparedMigration → StatusState → StatusEntry
entry m state = record { id = m.id; state = state; reversible = is_reversible m }

-- The last loop of `statusEntries`.
unfoldable pub status_from : List Row → Bool → List PreparedMigration → List StatusEntry
status_from rows missing [] = []
status_from rows missing (m ∷ ms) = elim (lookup m.id rows) [
  | none ↦ entry m pending ∷ status_from rows true ms
  | some recorded ↦ entry m (recorded_state recorded m missing) ∷ status_from rows missing ms
]

unfoldable pub status_entries : List Row → List PreparedMigration → List StatusEntry
unfolding unknown_ids sort_texts status_from
status_entries rows ms =
    map unknown_entry (sort_texts (unknown_ids rows ms)) ++ status_from rows false ms
