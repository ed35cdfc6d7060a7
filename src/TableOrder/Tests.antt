-- ===== src/TableOrder/Tests.antt =====
-- internal/migrationorder: runs of the model, and its theorems at concrete tables.
use rasql.Prelude.{
  ◌≡◌, refl, List, [], ◌∷◌, codes, text_lt, String, Bytes, ok, err, ◌↔◌, ◌≤◌, ℕ, All, equal,
}
use rasql.Migrate.Status.{insert_text, sort_texts}
use rasql.TableOrder.{
  TableDependency, cycle, duplicate_key, order_tables, check_keys, counted, indegrees,
  dependents_of, free_keys, decrement, release_all, order_from, remaining, display_of, mem_text,
  keys_of,
}
use rasql.TableOrder.Count.{times}
use rasql.TableOrder.Order.{IsLaid, order_tables_sound}
use rasql.TableOrder.Acyclic.{IsRanked, order_tables_iff}

abbrev table : String → List Bytes → TableDependency
table name on = record { key = codes name; display = codes name; depends_on = on }

abbrev tables : List TableDependency
tables =
    table "a" (codes "c" ∷ codes "x" ∷ codes "a" ∷ codes "c" ∷ [])
    ∷ table "b" []
    ∷ table "c" (codes "b" ∷ [])
    ∷ []

order_test : order_tables tables ≡ ok (codes "b" ∷ codes "c" ∷ codes "a" ∷ [])
unfolding order_tables check_keys counted indegrees dependents_of free_keys decrement release_all
    order_from remaining display_of sort_texts insert_text mem_text equal text_lt
order_test = refl

cycle_test :
    order_tables (table "d" (codes "e" ∷ []) ∷ table "b" [] ∷ table "e" (codes "d" ∷ []) ∷ [])
    ≡ err (cycle (codes "d" ∷ codes "e" ∷ []))
unfolding order_tables check_keys counted indegrees dependents_of free_keys decrement release_all
    order_from remaining display_of sort_texts insert_text mem_text equal text_lt
cycle_test = refl

duplicate_test : order_tables (table "b" [] ∷ table "b" [] ∷ []) ≡ err (duplicate_key (codes "b"))
unfolding order_tables check_keys counted indegrees dependents_of free_keys decrement release_all
    order_from remaining display_of sort_texts insert_text mem_text equal text_lt
duplicate_test = refl

abbrev ordered : List Bytes
ordered = codes "b" ∷ codes "c" ∷ codes "a" ∷ []

order_tables_sound_example :
    ((x : Bytes) → (times x (keys_of tables) ≤ 1) × (times x ordered ≡ times x (keys_of tables)))
    × All (IsLaid (keys_of tables) ordered) tables
order_tables_sound_example = order_tables_sound tables ordered order_test

order_tables_iff_example :
    ((found : List Bytes) × (order_tables tables ≡ ok found))
    ↔ ((check_keys [] tables ≡ ok tt) × ((rank : Bytes → ℕ) × IsRanked rank tables))
order_tables_iff_example = order_tables_iff tables
