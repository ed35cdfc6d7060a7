-- ===== src/Namedsql/Tests.antt =====
-- namedsql: runs of the model, and the theorems at a concrete template.
use rasql.Prelude.{
  map, ℕ, ◌≡◌, ◌≢◌, refl, ◌↔◌, false, ◌||◌, ◌==◌, Option, none, some, List, [], ◌∷◌, length, Bytes,
  codes, equal, ok, err,
}
use rasql.Unicode.{is_blank}
use rasql.Namedsql.Parse.{
  ColumnRef, no_column, text_part, bind_part, Template, two_columns, column_or_none,
  unclosed_action, not_ended, parse,
}
use rasql.Namedsql.Compile.{
  BindDef, query_def, Compiled, compile, bind, missing_value, unused_value,
}
use rasql.Namedsql.Describe.{query_def_parsed}
use rasql.Namedsql.Ending.{parse-Ends}
use rasql.Namedsql.Template.{IsWellFormed, parse-IsWellFormed}
use rasql.Namedsql.Values.{Supplied, Used, bind_iff, compile_parsed}

-- `strconv.Unquote` on a double-quoted text without escapes.
abbrev strip_quote : Bytes → Bytes
strip_quote [] = []
strip_quote (c ∷ []) = []
strip_quote (c ∷ cs) = c ∷ strip_quote cs

abbrev plain_unquote : Bytes → Option Bytes
plain_unquote [] = none
plain_unquote (c ∷ cs) = some (strip_quote cs)

abbrev source : Bytes
source = codes "id = {{bind \"a\" t.id}} or {{ bind \"b\" }} or {{bind \"a\" t.id}}"

abbrev template : Template
template = record {
  name = codes "q";
  parts =
      text_part (codes "id = ")
      ∷ bind_part 0
      ∷ text_part (codes " or ")
      ∷ bind_part 1
      ∷ text_part (codes " or ")
      ∷ bind_part 2
      ∷ [];
  parameters = codes "a" ∷ codes "b" ∷ codes "a" ∷ [];
  unique_names = codes "a" ∷ codes "b" ∷ [];
  column_refs =
      record { schema_name = []; table = codes "t"; column = codes "id" } ∷ no_column ∷ [];
}

parse_test : parse plain_unquote (codes "q") source ≡ ok template
unfolding parse
parse_test = refl

parse-IsWellFormed_example : IsWellFormed template
parse-IsWellFormed_example = parse-IsWellFormed plain_unquote (codes "q") source template parse_test

two_columns_test :
    parse plain_unquote (codes "q") (codes "{{bind \"a\" t.x}}{{bind \"a\" t.y}}")
    ≡ err (two_columns (codes "a"))
unfolding parse
two_columns_test = refl

column_or_none_test :
    parse plain_unquote (codes "q") (codes "{{bind \"a\" t.x}}{{bind \"a\"}}")
    ≡ err (column_or_none (codes "a"))
unfolding parse
column_or_none_test = refl

unclosed_test : parse plain_unquote (codes "q") (codes "{{bind \"a\"}") ≡ err unclosed_action
unfolding parse
unclosed_test = refl

-- Question marks, as on MySQL and SQLite.
abbrev question_mark : ℕ → Bytes
question_mark position = codes "?"

abbrev question_marks : ℕ → Option Bytes
question_marks position = some (codes "?")

abbrev compiled : Compiled
compiled = record {
  name = codes "q";
  sql = codes "id = ? or ? or ?";
  parameters = template.parameters;
  unique_names = template.unique_names;
  column_refs = template.column_refs;
}

template_valid : (equal (codes "q") [] || length template.parts == 0) ≡ false
unfolding equal
template_valid = refl

compile_parsed_example : compile question_marks template ≡ ok compiled
compile_parsed_example =
    compile_parsed question_marks question_mark template (λ position. refl) template_valid
      (parse-IsWellFormed plain_unquote (codes "q") source template parse_test)

abbrev values : List (Bytes × ℕ)
values = (codes "b", 7) ∷ (codes "a", 5) ∷ []

compiled_valid : (equal compiled.name [] || is_blank compiled.sql) ≡ false
unfolding equal is_blank
compiled_valid = refl

bind_iff_example : (bind compiled values ≡ ok (compiled.sql, 5 ∷ 7 ∷ 5 ∷ [])) ↔ (
    (compiled.sql ≡ compiled.sql)
    × Supplied values compiled.parameters (5 ∷ 7 ∷ 5 ∷ [])
    × Used compiled.unique_names values)
bind_iff_example = bind_iff compiled values compiled.sql (5 ∷ 7 ∷ 5 ∷ []) compiled_valid

bind_test : bind compiled values ≡ ok (compiled.sql, 5 ∷ 7 ∷ 5 ∷ [])
unfolding bind
bind_test = refl

unused_test : bind compiled ((codes "c", 1) ∷ values) ≡ err (unused_value (codes "c"))
unfolding bind
unused_test = refl

abbrev few_values : List (Bytes × ℕ)
few_values = (codes "a", 1) ∷ []

missing_test : bind compiled few_values ≡ err (missing_value (codes "b"))
unfolding bind
missing_test = refl

parse-Ends_example : parse plain_unquote (codes "q") source ≢ err not_ended
parse-Ends_example = parse-Ends plain_unquote (codes "q") source

compiled_test : compile question_marks template ≡ ok compiled
unfolding compile
compiled_test = refl

query_def_parsed_example :
    (defs : List BindDef) × (query_def compiled
      ≡ some record {
        name = compiled.name;
        sql = compiled.sql;
        parameters = compiled.parameters;
        binds = defs;
      })
    × (map (λ (d : BindDef). d.name) defs ≡ template.unique_names)
    × (map (λ (d : BindDef). d.schema_name) defs
        ≡ map (λ (r : ColumnRef). r.schema_name) template.column_refs)
    × (map (λ (d : BindDef). d.table) defs ≡ map (λ (r : ColumnRef). r.table) template.column_refs)
    × (map (λ (d : BindDef). d.column) defs
        ≡ map (λ (r : ColumnRef). r.column) template.column_refs)
query_def_parsed_example =
    query_def_parsed plain_unquote (codes "q") source template parse_test question_marks compiled
      compiled_test
