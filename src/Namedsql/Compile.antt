-- ===== src/Namedsql/Compile.antt =====
-- namedsql/namedsql.go: `Compile`, `Bind` and `QueryDef`. A dialect is its `Placeholder` method; a
-- map of values is its entries in the order in which a loop meets them, one for each key.
use rasql.Prelude.{
  ℕ, ◌+◌, Bool, false, not, ◌||◌, Option, none, some, List, [], ◌∷◌, ◌++◌, ◌==◌, if◌then◌else◌,
  length, get_elem?, Bytes, equal, Result, ok, err, ◌>>=◌, ◌>>◌, guard,
}
use rasql.Unicode.{is_blank}
use rasql.Namedsql.Parse.{ColumnRef, TemplatePart, text_part, bind_part, Template}

pub record Compiled : Type 0 where
  pub name : Bytes
  pub sql : Bytes
  pub parameters : List Bytes
  pub unique_names : List Bytes
  pub column_refs : List ColumnRef

pub data CompileError : Type 0 where
  invalid_template : CompileError
  -- The dialect has no placeholder for a position.
  no_placeholder : ℕ → CompileError
  -- An index out of range, where Go panics.
  out_of_range : CompileError

-- The placeholders of some parameters, from a position on.
unfoldable pub placeholders_from :
    (ℕ → Option Bytes) → ℕ → List Bytes → Result CompileError (List Bytes)
placeholders_from placeholder position [] = ok []
placeholders_from placeholder position (p ∷ ps) = elim (placeholder position) [
  | none ↦ err (no_placeholder position)
  | some text ↦ (do rest ← placeholders_from placeholder (position + 1) ps; ok (text ∷ rest))
]

unfoldable pub part_text : List Bytes → TemplatePart → Result CompileError Bytes
part_text placeholders (text_part text) = ok text
part_text placeholders (bind_part index) = elim (get_elem? placeholders index) [
  | none ↦ err out_of_range
  | some text ↦ ok text
]

-- `renderTemplateParts`
unfoldable pub render_parts : List Bytes → List TemplatePart → Result CompileError Bytes
unfolding part_text
render_parts placeholders [] = ok []
render_parts placeholders (part ∷ parts) = do
  text ← part_text placeholders part
  rest ← render_parts placeholders parts
  ok (text ++ rest)

-- `Template.Compile`
unfoldable pub compile : (ℕ → Option Bytes) → Template → Result CompileError Compiled
unfolding placeholders_from render_parts equal
compile placeholder t = do
  guard (not (equal t.name [] || length t.parts == 0)) invalid_template
  placeholders ← placeholders_from placeholder 1 t.parameters
  sql ← render_parts placeholders t.parts
  ok record {
    name = t.name;
    sql = sql;
    parameters = t.parameters;
    unique_names = t.unique_names;
    column_refs = t.column_refs;
  }

pub record BindDef : Type 0 where
  pub name : Bytes
  pub schema_name : Bytes
  pub table : Bytes
  pub column : Bytes

pub record QueryDef : Type 0 where
  pub name : Bytes
  pub sql : Bytes
  pub parameters : List Bytes
  pub binds : List BindDef

-- The loop of `QueryDef`: `columnRefs[index]` for each unique name; too few of them is a panic.
unfoldable pub bind_defs : List Bytes → List ColumnRef → Option (List BindDef)
bind_defs [] refs = some []
bind_defs (name ∷ names) [] = none
bind_defs (name ∷ names) (ref ∷ refs) = elim (bind_defs names refs) [
  | none ↦ none
  | some rest ↦ some (
      record { name = name; schema_name = ref.schema_name; table = ref.table; column = ref.column }
      ∷ rest)
]

unfoldable pub query_def : Compiled → Option QueryDef
unfolding bind_defs
query_def c = elim (bind_defs c.unique_names c.column_refs) [
  | none ↦ none
  | some binds ↦
      some record { name = c.name; sql = c.sql; parameters = c.parameters; binds = binds }
]

-- `contains`
unfoldable pub contains_name : List Bytes → Bytes → Bool
unfolding equal
contains_name [] target = false
contains_name (v ∷ vs) target = equal v target || contains_name vs target

pub data BindError : Type 0 where
  invalid_compiled : BindError
  missing_value unused_value : Bytes → BindError

module _ {A : Type 0} where
  unfoldable pub value_of : List (Bytes × A) → Bytes → Option A
  unfolding equal
  value_of [] name = none
  value_of ((key, value) ∷ values) name =
      let later = value_of values name in if equal key name then some value else later

  -- The loop over the parameters: the arguments in placeholder order.
  unfoldable pub bind_args : List (Bytes × A) → List Bytes → Result BindError (List A)
  unfolding value_of
  bind_args values [] = ok []
  bind_args values (name ∷ names) = elim (value_of values name) [
    | none ↦ err (missing_value name)
    | some value ↦ elim (bind_args values names) [ err e ↦ err e | ok rest ↦ ok (value ∷ rest) ]
  ]

  -- The loop over the values: each has a name of the template.
  unfoldable pub check_used : List Bytes → List (Bytes × A) → Result BindError (Unit {0})
  unfolding contains_name
  check_used names [] = ok tt
  check_used names ((key, value) ∷ values) =
      let rest = check_used names values in
      if contains_name names key then rest else err (unused_value key)

  -- `Compiled.Bind`: the text of the statement with its arguments.
  unfoldable pub bind : Compiled → List (Bytes × A) → Result BindError (Bytes × List A)
  unfolding equal is_blank bind_args check_used
  bind c values =
      if equal c.name [] || is_blank c.sql
      then err invalid_compiled
      else elim (bind_args values c.parameters) [
        | err e ↦ err e
        | ok args ↦ elim (check_used c.unique_names values) [
          | err e ↦ err e
          | ok u ↦ ok (c.sql, args)
        ]
      ]
