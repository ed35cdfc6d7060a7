-- ===== src/TableOrder.antt =====
-- internal/migrationorder/tables.go: the order in which added tables are created. A Go map from keys
-- is a list of entries in the order of the tables; where the code ranges over one, it sorts what it
-- collects, so the order of the range does not show.
mod Tests
pub mod Count
pub mod Degrees
pub mod Release
pub mod Free
pub mod Loop
pub mod Order
pub mod Acyclic
use rasql.Prelude.{
  ℕ, zero, suc, ◌+◌, ◌-◌, Bool, true, false, not, ◌&&◌, ◌||◌, Option, none, some, List, [], ◌∷◌,
  ◌++◌, ◌==◌, ltb, if◌then◌else◌, length, Bytes, equal, Result, ok, err, ◌>>=◌, ◌>>◌,
}
use rasql.Migrate.Status.{sort_texts}

pub record TableDependency : Type 0 where
  pub key : Bytes
  pub display : Bytes
  pub depends_on : List Bytes

pub data OrderError : Type 0 where
  empty_key : OrderError
  duplicate_key : Bytes → OrderError
  -- The display names of the tables on a cycle or behind one.
  cycle : List Bytes → OrderError

unfoldable pub mem_text : Bytes → List Bytes → Bool
mem_text t [] = false
mem_text t (u ∷ us) = equal u t || mem_text t us

-- The loop that fills `byKey`, after the keys in it so far.
unfoldable pub check_keys : List Bytes → List TableDependency → Result OrderError (Unit {0})
check_keys keys [] = ok tt
check_keys keys (t ∷ ts) =
    let rest = check_keys (t.key ∷ keys) ts in
    if equal t.key []
    then err empty_key
    else if mem_text t.key keys
    then err (duplicate_key t.key)
    else rest

abbrev pub keys_of : List TableDependency → List Bytes
keys_of [] = []
keys_of (t ∷ ts) = t.key ∷ keys_of ts

-- The dependencies that count: on other tables among the added ones, each once.
unfoldable pub counted : List Bytes → Bytes → List Bytes → List Bytes → List Bytes
counted keys key seen [] = []
counted keys key seen (d ∷ ds) =
    let skipped = counted keys key seen ds in
    let kept = d ∷ counted keys key (d ∷ seen) ds in
    if equal d key
    then skipped
    else if not (mem_text d keys)
    then skipped
    else if mem_text d seen
    then skipped
    else kept

abbrev pub dependencies : List Bytes → TableDependency → List Bytes
dependencies keys t = counted keys t.key [] t.depends_on

-- The entries of `indegree`.
unfoldable pub indegrees : List Bytes → List TableDependency → List (Bytes × ℕ)
indegrees keys [] = []
indegrees keys (t ∷ ts) = (t.key, length (dependencies keys t)) ∷ indegrees keys ts

-- The keys of `dependents[key]`.
unfoldable pub dependents_of : List Bytes → Bytes → List TableDependency → List Bytes
dependents_of keys key [] = []
dependents_of keys key (t ∷ ts) =
    let rest = dependents_of keys key ts in
    if mem_text key (dependencies keys t) then t.key ∷ rest else rest

unfoldable pub free_keys : List (Bytes × ℕ) → List Bytes
free_keys [] = []
free_keys ((key, degree) ∷ entries) =
    let rest = free_keys entries in if degree == 0 then key ∷ rest else rest

-- `indegree[dependent]--`, with the degree that it leaves. The degree of a dependent counts the key
-- that is taken out, so it is not zero before; a key that is missing has none.
unfoldable pub decrement : Bytes → List (Bytes × ℕ) → ℕ × List (Bytes × ℕ)
decrement key [] = (0, [])
decrement key ((k, degree) ∷ entries) =
    let (left, rest) = decrement key entries in
    if equal k key then (degree - 1, (k, degree - 1) ∷ entries) else (left, (k, degree) ∷ rest)

-- The loop over the dependents: the entries and the ready keys after it.
unfoldable pub release_all :
    List Bytes → List (Bytes × ℕ) → List Bytes → List (Bytes × ℕ) × List Bytes
release_all [] entries ready = (entries, ready)
release_all (d ∷ ds) entries ready =
    let (left, entries') = decrement d entries in
    release_all ds entries' (if left == 0 then ready ++ d ∷ [] else ready)

-- The loop over the ready keys: the order, and the degrees that are left. A key becomes ready once,
-- when its degree reaches zero, so the number of tables is fuel enough.
unfoldable pub order_from :
    ℕ
    → List TableDependency
    → List (Bytes × ℕ)
    → List Bytes
    → List Bytes
    → List Bytes × List (Bytes × ℕ)
order_from fuel tables entries ordered [] = (ordered, entries)
order_from zero tables entries ordered (key ∷ ready) = (ordered, entries)
order_from (suc fuel) tables entries ordered (key ∷ ready) =
    let released = release_all (dependents_of (keys_of tables) key tables) entries ready in
    order_from fuel tables released.0 (ordered ++ key ∷ []) (sort_texts released.1)

unfoldable pub display_of : Bytes → List TableDependency → Bytes
display_of key [] = []
display_of key (t ∷ ts) =
    let later = display_of key ts in if equal t.key key then t.display else later

unfoldable pub remaining : List TableDependency → List (Bytes × ℕ) → List Bytes
remaining tables [] = []
remaining tables ((key, degree) ∷ entries) =
    let rest = remaining tables entries in
    if ltb 0 degree then display_of key tables ∷ rest else rest

-- `OrderTables`
unfoldable pub order_tables : List TableDependency → Result OrderError (List Bytes)
order_tables tables =
    let entries = indegrees (keys_of tables) tables in
    let (ordered, left) =
      order_from (length tables) tables entries [] (sort_texts (free_keys entries)) in
    do
      check_keys [] tables
      if length ordered == length tables
          then ok ordered
          else err (cycle (sort_texts (remaining tables left)))
