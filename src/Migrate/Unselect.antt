-- ===== src/Migrate/Unselect.antt =====
-- migrate/revert.go: `RevertTarget`, `revertCount` and `selectReverts`.
pub mod Laws
use mathlib.Core.List.{reverse}
use rasql.Prelude.{
  ℕ, zero, suc, ◌-◌, ℤ, pos, negsuc, Bool, true, false, not, Option, none, some, List, [], ◌∷◌, ltb,
  ◌==◌, if◌then◌else◌, length, Bytes, equal, Result, ok, err, ◌>>=◌, ◌>>◌, guard,
}
use rasql.Migrate.Prepare.{PreparedMigration}
use rasql.Migrate.Reason.{
  Reason, checksum_mismatch, recorded_after_missing, revert_target_not_applied, no_reverse_source,
  step_count_not_positive, too_many_steps, no_target,
}
use rasql.Migrate.History.{Row, lookup, check_supplied}
use rasql.Migrate.Select.{search_id, has_id_at}

-- The zero value, `Through(id)` and `Steps(n)`.
pub data RevertTarget : Type 0 where
  nothing : RevertTarget
  through : Bytes → RevertTarget
  steps : ℤ → RevertTarget

count_steps : List PreparedMigration → ℤ → Result Reason ℕ
count_steps applied (negsuc n) = err (step_count_not_positive (negsuc n))
count_steps applied (pos n) =
    if n == 0
    then err (step_count_not_positive (pos n))
    else if ltb (length applied) n
    then err (too_many_steps n (length applied))
    else ok n

unfoldable pub revert_count : List PreparedMigration → RevertTarget → Result Reason ℕ
unfolding count_steps
revert_count applied nothing = err no_target
revert_count applied (through id) =
    let index = search_id applied id in
    if has_id_at applied index id
    then ok (length applied - index - 1)
    else err (revert_target_not_applied id)
revert_count applied (steps n) = count_steps applied n

-- The loop that collects `appliedInOrder`; the flag is `pending`.
unfoldable pub applied_in_order :
    List Row → Bool → List PreparedMigration → Result Reason (List PreparedMigration)
applied_in_order applied pending [] = ok []
applied_in_order applied pending (m ∷ ms) = elim (lookup m.id applied) [
  | none ↦ applied_in_order applied true ms
  | some recorded ↦ (do
    guard (not pending) (recorded_after_missing m.id)
    rest ← applied_in_order applied pending ms
    ok (m ∷ rest))
]

-- `applied[id]`: a Go map gives the empty string for a missing key.
abbrev pub recorded_checksum : Option Bytes → Bytes
recorded_checksum none = []
recorded_checksum (some v) = v

-- The last loop of `selectReverts`: `count` rounds over the applied migrations, newest first.
unfoldable pub pick_reverts :
    List Row → ℕ → List PreparedMigration → Result Reason (List PreparedMigration)
pick_reverts applied zero ms = ok []
pick_reverts applied (suc n) [] = ok []
pick_reverts applied (suc n) (m ∷ ms) = do
  guard (equal (recorded_checksum (lookup m.id applied)) m.checksum) (checksum_mismatch m.id)
  guard (not (length m.down == 0)) (no_reverse_source m.id)
  rest ← pick_reverts applied n ms
  ok (m ∷ rest)

unfoldable pub select_reverts :
    List Row → List PreparedMigration → RevertTarget → Result Reason (List PreparedMigration)
unfolding applied_in_order pick_reverts
select_reverts applied ms target = do
  check_supplied applied ms
  in_order ← applied_in_order applied false ms
  count ← revert_count in_order target
  pick_reverts applied count (reverse in_order)
