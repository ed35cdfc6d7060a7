-- ===== src/Graphkey/Tests.antt =====
-- internal/graphkey: runs of the model, and its theorem at concrete rows.
use rasql.Prelude.{
  ◌≡◌, ◌≢◌, ◌↔◌, refl, ℕ, ◌+◌, ◌*◌, ◌^◌, equal, negsuc, false, none, some, List, [], ◌∷◌, Bytes,
  codes, ok, err, pos, arith,
}
use rasql.Cursorcodec.BigEndian.{big_endian}
use rasql.Cursorcodec.Value.{bits, is_nan, to_uint64}
use rasql.Graphkey.{
  int64_value, string_value, time_value, nan_key, float64_value, TimeFormat, duplicate_column,
  frame, tagged, PartSpec, Component, Tuple, Encoding, tuple, components_of, next_part, component,
  driver_value, normalize, validate_driver_value,
}
use rasql.TableOrder.{mem_text}
use rasql.Graphkey.Column.{
  TableDescriptor, RelationRef, table_kind, validate_column, validate_relation, has_column,
  table_of, qualified_name,
}
use rasql.Graphkey.Framing.{IsTimeFormat}
use rasql.Graphkey.Identity.{component_values, tuple-identity_iff}
use rasql.Graphkey.Parts.{validate_parts, check_parts}
use rasql.Graphkey.Valid.{given, MakeKey, validate_parts_iff}

nan_test : frame (λ s n. []) false (float64_value (2047 * 2 ^ 52 + 1)) ≡ err nan_key
unfolding frame tagged is_nan
nan_test = refl

-- The text of a time here is its seconds, then its nanoseconds, each as a byte of a list.
abbrev plain : TimeFormat
plain (pos s) n = 0 ∷ s ∷ n ∷ []
plain (negsuc s) n = 1 ∷ s ∷ n ∷ []

plain-IsTimeFormat : IsTimeFormat plain
plain-IsTimeFormat (pos s) (pos t) m n e =
    let same : s ≡ t = cc in let nanos : m ≡ n = cc in λ i. time_value (pos (same i)) (nanos i)
plain-IsTimeFormat (negsuc s) (negsuc t) m n e =
    let same : s ≡ t = cc in let nanos : m ≡ n = cc in λ i. time_value (negsuc (same i)) (nanos i)
plain-IsTimeFormat (pos s) (negsuc t) m n e = absurd (ground arith)
plain-IsTimeFormat (negsuc s) (pos t) m n e = absurd (ground arith)

abbrev encoding : Encoding ℕ
encoding = record {
  format = plain;
  is_nil = λ v. false;
  convert = λ v. ok (int64_value (pos v));
  encode_graph_key = λ codec v. ok (string_value codec);
}

abbrev tasks_table : TableDescriptor
tasks_table = record { qualified_name = codes "tasks"; columns = codes "id" ∷ codes "org" ∷ [] }

abbrev tasks : RelationRef
tasks = record {
  kind = table_kind;
  table = some (record { descriptor = some tasks_table; alias = [] });
  result = none;
  alias = [];
}

abbrev part : Bytes → PartSpec (ℕ × ℕ) ℕ
part name = record {
  column = record { source = tasks; name = name };
  codec = [];
  extract = λ row. some row.0;
}

abbrev parts : List (PartSpec (ℕ × ℕ) ℕ)
parts = part (codes "id") ∷ []

abbrev component_for : ℕ → Component
component_for n = record {
  value = int64_value (pos n);
  encoded = 1 ∷ 0 ∷ 0 ∷ 0 ∷ 0 ∷ 0 ∷ 0 ∷ 0 ∷ 8 ∷ 0 ∷ 0 ∷ 0 ∷ 0 ∷ 0 ∷ 0 ∷ 0 ∷ n ∷ [];
  codec = [];
}

abbrev tuple_for : ℕ → Tuple
tuple_for n = record {
  components = component_for n ∷ [];
  identity = 1 ∷ 1 ∷ 0 ∷ 0 ∷ 0 ∷ 0 ∷ 0 ∷ 0 ∷ 0 ∷ 8 ∷ 0 ∷ 0 ∷ 0 ∷ 0 ∷ 0 ∷ 0 ∷ 0 ∷ n ∷ [];
}

tuple-identity_iff_example :
    ((tuple_for 7).identity ≡ (tuple_for 9).identity)
    ↔ (component_values (tuple_for 7).components ≡ component_values (tuple_for 9).components)
unfolding tuple components_of next_part component driver_value normalize validate_driver_value frame
    tagged big_endian to_uint64 equal bits
tuple-identity_iff_example =
    tuple-identity_iff encoding parts (7, 1) (9, 2) (tuple_for 7) (tuple_for 9) plain-IsTimeFormat
      refl refl (omega arith, tt) (omega arith, tt)

duplicate_test :
    validate_parts (some (part (codes "id")) ∷ some (part (codes "id")) ∷ []) ≡ err duplicate_column
unfolding validate_parts check_parts equal mem_text validate_column validate_relation has_column
    table_of qualified_name
duplicate_test = refl

abbrev two_parts : List (PartSpec (ℕ × ℕ) ℕ)
two_parts = part (codes "id") ∷ part (codes "org") ∷ []

tasks_named : qualified_name tasks ≢ []
unfolding qualified_name table_of equal
tasks_named e = let named : codes "tasks" ≡ [] = e in absurd cc

validate_parts_iff_example : (validate_parts (given two_parts) ≡ ok tt) ↔ MakeKey two_parts
validate_parts_iff_example = validate_parts_iff two_parts (tasks_named, (tasks_named, tt))
