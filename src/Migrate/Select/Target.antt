-- ===== src/Migrate/Select/Target.antt =====
-- How far an `ApplyTarget` reaches into the supplied migrations.
use rasql.Prelude.{
  ℕ, zero, suc, ◌+◌, ◌≡◌, refl, ap, true, List, [], ◌∷◌, ◌++◌, length, arith, Bytes, equal_iff,
  equal_self, text_lt, text_lt_irrefl, ok, Bool-cases, inl, inr, All-append_right,
}
use rasql.Migrate.Prepare.{PreparedMigration}
use rasql.Migrate.Prepare.Sorted.{IsSorted, Above}
use rasql.Migrate.Select.{apply_through, apply_limit, search_id, has_id_at}

-- The migration with that ID stands in `ms`, and `limit` counts it and all before it.
pub record Reaches (ms : List PreparedMigration) (id : Bytes) (limit : ℕ) : Type 0 where
  pub before : List PreparedMigration
  pub target : PreparedMigration
  pub after : List PreparedMigration
  pub splits : ms ≡ before ++ target ∷ after
  pub has_id : target.id ≡ id
  pub counts : limit ≡ length before + 1

has_id_at-Reaches :
    (ms : List PreparedMigration) (i : ℕ) (id : Bytes)
    → has_id_at ms i id ≡ true
    → Reaches ms id (i + 1)
unfolding has_id_at
has_id_at-Reaches [] i id h = absurd (ground arith)
has_id_at-Reaches (m ∷ ms) zero id h = record {
  before = [];
  target = m;
  after = ms;
  splits = refl;
  has_id = (equal_iff m.id id).0 h;
  counts = refl;
}
has_id_at-Reaches (m ∷ ms) (suc i) id h =
    let r = has_id_at-Reaches ms i id h in
    record {
      before = m ∷ r.before;
      target = r.target;
      after = r.after;
      splits = ap (◌∷◌ m) r.splits;
      has_id = r.has_id;
      counts = omega (arith, r.counts);
    }

-- A target that is reached is the ID of a supplied migration, and the limit counts the migrations
-- up to and with that one.
pub apply_limit-Reaches :
    (ms : List PreparedMigration) (id : Bytes) {limit : ℕ}
    → apply_limit ms (apply_through id) ≡ ok limit
    → Reaches ms id limit
unfolding apply_limit
apply_limit-Reaches ms id {limit} h = elim (Bool-cases (has_id_at ms (search_id ms id) id)) [
  | inl e ↦
      let counted : search_id ms id + 1 ≡ limit = ground arith in
      rw counted at (has_id_at-Reaches ms (search_id ms id) id e)
  | inr e ↦ absurd (ground arith)
]

Above-middle :
    (id : Bytes) (before after : List PreparedMigration) (m : PreparedMigration)
    → Above id (before ++ m ∷ after)
    → text_lt id m.id ≡ true
Above-middle id before after m a = (All-append_right _ before (m ∷ after) a).0

-- In sorted migrations the search finds each of them.
search-sorted :
    (before after : List PreparedMigration) (m : PreparedMigration)
    → IsSorted (before ++ m ∷ after)
    → (search_id (before ++ m ∷ after) m.id ≡ length before)
      × (has_id_at (before ++ m ∷ after) (length before) m.id ≡ true)
unfolding search_id has_id_at
search-sorted [] after m s = (rw text_lt_irrefl, equal_self m.id)
search-sorted (p ∷ before) after m (a, s) =
    let (found, there) = search-sorted before after m s in
    (rw (Above-middle p.id before after m a, found), there)

-- Every supplied migration can be the target: where the migrations are sorted, the limit for its
-- ID is its place, counted from one.
pub apply_limit_complete :
    (before after : List PreparedMigration) (m : PreparedMigration)
    → IsSorted (before ++ m ∷ after)
    → apply_limit (before ++ m ∷ after) (apply_through m.id) ≡ ok (length before + 1)
unfolding apply_limit
apply_limit_complete before after m s =
    let (found, there) = search-sorted before after m s in rw (found, there)
