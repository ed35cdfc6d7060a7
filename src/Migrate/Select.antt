-- ===== src/Migrate/Select.antt =====
-- migrate/apply.go: `ApplyTarget`, `applyLimit` and `selectApplies`.
pub mod Laws
pub mod Target
use rasql.Prelude.{
  ℕ, zero, suc, ◌+◌, Bool, true, false, not, Option, none, some, List, [], ◌∷◌, leb, if◌then◌else◌,
  length, Bytes, equal, text_lt, Result, ok, err, ◌>>=◌, ◌>>◌,
}
use rasql.Migrate.Prepare.{PreparedMigration}
use rasql.Migrate.Reason.{
  Reason, checksum_mismatch, recorded_after_missing, apply_target_not_supplied,
}
use rasql.Migrate.History.{Row, lookup, check_supplied}

-- `AllPending()` and `ApplyThrough(id)`.
pub data ApplyTarget : Type 0 where
  all_pending : ApplyTarget
  apply_through : Bytes → ApplyTarget

-- `sort.Search(len(ms), func(i) bool { return ms[i].id >= id })` on a sorted slice: the first
-- position at which the test holds, or the length.
unfoldable pub search_id : List PreparedMigration → Bytes → ℕ
search_id [] id = 0
search_id (m ∷ ms) id =
    let later = suc (search_id ms id) in if not (text_lt m.id id) then 0 else later

-- The migration at a position, tested for an ID; past the end there is none.
unfoldable pub has_id_at : List PreparedMigration → ℕ → Bytes → Bool
has_id_at [] i id = false
has_id_at (m ∷ ms) zero id = equal m.id id
has_id_at (m ∷ ms) (suc i) id = has_id_at ms i id

unfoldable pub apply_limit : List PreparedMigration → ApplyTarget → Result Reason ℕ
unfolding search_id has_id_at
apply_limit ms all_pending = ok (length ms)
apply_limit ms (apply_through id) =
    let index = search_id ms id in
    if has_id_at ms index id then ok (index + 1) else err (apply_target_not_supplied id)

-- The loop of `selectApplies` at `index`; the flag is `pending`.
unfoldable pub select_from :
    List Row → ℕ → ℕ → Bool → List PreparedMigration → Result Reason (List PreparedMigration)
select_from applied limit index pending [] = ok []
select_from applied limit index pending (m ∷ ms) = elim (lookup m.id applied) [
  | some recorded ↦
      let rest = select_from applied limit (index + 1) pending ms in
      if not (equal recorded m.checksum)
      then err (checksum_mismatch m.id)
      else if pending
      then err (recorded_after_missing m.id)
      else rest
  | none ↦ (do
    rest ← select_from applied limit (index + 1) true ms
    ok (if leb limit index then rest else m ∷ rest))
]

unfoldable pub select_applies :
    List Row → List PreparedMigration → ApplyTarget → Result Reason (List PreparedMigration)
unfolding select_from
select_applies applied ms target = do
  check_supplied applied ms
  limit ← apply_limit ms target
  select_from applied limit 0 false ms
