-- ===== src/TableOrder/Acyclic.antt =====
-- When `OrderTables` of internal/migrationorder/tables.go finds an order.
use rasql.Prelude.{
  ◌≡◌, ◌↔◌, refl, ap, ◌∙◌, subst, ℕ, zero, suc, ◌≤◌, ◌<◌, true, some, List, [], ◌∷◌, ◌++◌, ◌==◌,
  if◌then◌else◌, length, get_elem?, Bytes, equal, equal_iff, equal_self, Bool-cases, inl, inr, All,
  ok, arith,
}
use rasql.TableOrder.{TableDependency, mem_text, check_keys, keys_of, dependencies, order_tables}
use rasql.TableOrder.Count.{times, mem_text-eq, times-append}
use rasql.TableOrder.Degrees.{missing, missing-eq-zero, mem_text-dependencies}
use rasql.TableOrder.Free.{free, get-times, missing-free, free_all}
use rasql.TableOrder.Loop.{Before, Inv}
use rasql.TableOrder.Order.{
  All_get, All_mem, get_All, mem_All, order_tables-Found, order_tables-loop, check_keys-once,
  answer,
}

-- The rank puts each dependency below its table, so the tables have no cycle.
abbrev pub IsRanked : (Bytes → ℕ) → List TableDependency → Type 0
IsRanked rank tables =
    All (λ t. All (λ d. rank d < rank t.key) (dependencies (keys_of tables) t)) tables

length-keys_of : (ts : List TableDependency) → length (keys_of ts) ≡ length ts
length-keys_of [] = refl
length-keys_of (t ∷ ts) = ap suc (length-keys_of ts)

-- A key belongs to a table.
keys_get :
    (ts : List TableDependency) (x : Bytes)
    → mem_text x (keys_of ts) ≡ true
    → (i : ℕ) × ((t : TableDependency) × ((get_elem? ts i ≡ some t) × (t.key ≡ x)))
unfolding mem_text
keys_get [] x m = absurd cc
keys_get (t ∷ ts) x m = elim (Bool-cases (equal t.key x)) [
  | inl same ↦ (0, (t, (refl, (equal_iff t.key x).0 same)))
  | inr other ↦ let (i, (u, (e, named))) = keys_get ts x (rw other at m) in (suc i, (u, (e, named)))
]

module _ (tables : List TableDependency) (rank : Bytes → ℕ) (ranked : IsRanked rank tables)
    (final : List Bytes) (inv : Inv tables final []) where
  -- Where no key is ready, every table has its dependencies in the order.
  all_met :
      (n i : ℕ) (t : TableDependency)
      → get_elem? tables i ≡ some t
      → rank t.key < n
      → missing final (dependencies (keys_of tables) t) ≡ 0
  unfolding times
  all_met zero i t e low = absurd (omega arith)
  all_met (suc n) i t e low = missing-eq-zero final (dependencies (keys_of tables) t) λ d m.
      let below = All_mem (λ z. rank z < rank t.key) _ d (All_get _ tables i t ranked e) m in
      let shown = mem_text-dependencies (keys_of tables) d t in
      let (j, (u, (there, named))) = keys_get tables d (ground arith) in
      let lower : rank u.key < n = let r : rank u.key ≡ rank d = ap rank named in omega arith in
      let met = all_met n j u there lower in
      let some_free = missing-free (keys_of tables) final tables j u there met in
      let counted = inv.counts u.key in
      let listed = mem_text-eq u.key final in
      let here : mem_text u.key final ≡ true = ground arith in
      subst (λ z. mem_text z final ≡ true) named here

  all_ordered : length final ≡ length tables
  all_ordered =
      let all =
        free_all (keys_of tables) final tables
          (λ i t e. all_met (suc (rank t.key)) i t e (omega arith)) in
      let same : length (free (keys_of tables) final tables) ≡ length (keys_of tables) =
        ap length all in
      omega (arith, inv.lengths, length-keys_of tables)

ranked_found :
    (tables : List TableDependency) (rank : Bytes → ℕ)
    → check_keys [] tables ≡ ok tt
    → IsRanked rank tables
    → (ordered : List Bytes) × (order_tables tables ≡ ok ordered)
unfolding answer
ranked_found tables rank valid ranked =
    let (final, (shown, inv)) = order_tables-loop tables valid in
    let full : (length final == length tables) ≡ true =
      let e = all_ordered tables rank ranked final inv in ground arith in
    (final, shown ∙ rw full refl)

-- Where a key first stands in an order.
unfoldable position : Bytes → List Bytes → ℕ
position x [] = 0
position x (y ∷ ys) = let rest = position x ys in if equal y x then 0 else suc rest

position-lt :
    (x : Bytes) (front back : List Bytes)
    → mem_text x front ≡ true
    → position x (front ++ back) < length front
unfolding position mem_text
position-lt x [] back m = absurd cc
position-lt x (y ∷ ys) back m = ground (arith, position-lt x ys back)

position_past :
    (k : Bytes) (front back : List Bytes)
    → times k front ≡ 0
    → position k (front ++ k ∷ back) ≡ length front
unfolding position times
position_past k [] back h = rw (equal_self k) refl
position_past k (y ∷ ys) back h = ground (arith, position_past k ys back)

Before-position :
    (d k : Bytes) (ordered : List Bytes)
    → times k ordered ≤ 1
    → Before d k ordered
    → position d ordered < position k ordered
unfolding times
Before-position d k ordered once (front, (back, (same, there))) =
    let counted : times k ordered ≡ times k (front ++ k ∷ back) = ap (times k) same in
    let split = times-append k front (k ∷ back) in
    let self = equal_self k in
    let low = position-lt d front (k ∷ back) there in
    let high = position_past k front back (ground arith) in rw same (omega arith)

found-IsRanked :
    (tables : List TableDependency) (ordered : List Bytes)
    → order_tables tables ≡ ok ordered
    → IsRanked (λ x. position x ordered) tables
found-IsRanked tables ordered h =
    let found = order_tables-Found tables ordered h in
    get_All _ tables λ i t e.
      mem_All (λ d. position d ordered < position t.key ordered) (dependencies (keys_of tables) t)
        λ d m.
          let among = get-times tables i t e in
          let same = found.same t.key in
          let once = check_keys-once [] tables t.key found.valid in
          let there = mem_text-eq t.key ordered in
          Before-position d t.key ordered (omega arith) (found.inv.first i t d e m (ground arith))

-- `OrderTables` gives an order exactly where the keys are not empty and all different, as its first
-- loop checks, and the tables have no cycle: some rank puts each table above its dependencies, those on
-- itself and on tables that are not among the given ones left aside.
pub order_tables_iff :
    (tables : List TableDependency)
    → ((ordered : List Bytes) × (order_tables tables ≡ ok ordered))
      ↔ ((check_keys [] tables ≡ ok tt) × ((rank : Bytes → ℕ) × IsRanked rank tables))
order_tables_iff tables = (
  (λ (ordered, h). (
    (order_tables-Found tables ordered h).valid,
    ((λ x. position x ordered), found-IsRanked tables ordered h),
  )),
  (λ (valid, (rank, ranked)). ranked_found tables rank valid ranked),
)
