-- ===== src/Namedsql/Describe.antt =====
-- namedsql/namedsql.go: `QueryDef` of what `Parse` and `Compile` return.
use rasql.Prelude.{
  ℕ, ◌≡◌, refl, sym, ap, ◌∙◌, not, ◌||◌, ◌==◌, Option, some, List, [], ◌∷◌, map, length, Bytes,
  equal, ok, ok_inj, guard, >>=-eq-ok, arith,
}
use rasql.Namedsql.Parse.{ColumnRef, Template, parse}
use rasql.Namedsql.Compile.{
  Compiled, invalid_template, placeholders_from, render_parts, compile, BindDef, bind_defs,
  query_def,
}
use rasql.Namedsql.Template.{parse-IsWellFormed}

-- With as many references as names there is a description for each, of its name and reference.
abbrev Describes : List Bytes → List ColumnRef → List BindDef → Type 0
Describes names refs defs =
    (map (λ (d : BindDef). d.name) defs ≡ names)
    × (map (λ (d : BindDef). d.schema_name) defs ≡ map (λ (r : ColumnRef). r.schema_name) refs)
    × (map (λ (d : BindDef). d.table) defs ≡ map (λ (r : ColumnRef). r.table) refs)
    × (map (λ (d : BindDef). d.column) defs ≡ map (λ (r : ColumnRef). r.column) refs)

bind_defs-Describes :
    (names : List Bytes) (refs : List ColumnRef)
    → length names ≡ length refs
    → (defs : List BindDef) × (bind_defs names refs ≡ some defs) × Describes names refs defs
unfolding bind_defs
bind_defs-Describes [] [] h = ([], refl, (refl, refl, refl, refl))
bind_defs-Describes [] (r ∷ refs) h = absurd (omega arith)
bind_defs-Describes (n ∷ names) [] h = absurd (omega arith)
bind_defs-Describes (n ∷ names) (r ∷ refs) h =
    let (defs, e, (named, schemas, tables, columns)) =
      bind_defs-Describes names refs (omega arith) in
    (
      record { name = n; schema_name = r.schema_name; table = r.table; column = r.column } ∷ defs,
      rw (e, bind_defs) refl,
      (
        ap (◌∷◌ n) named,
        ap (◌∷◌ r.schema_name) schemas,
        ap (◌∷◌ r.table) tables,
        ap (◌∷◌ r.column) columns,
      ),
    )

-- `Compile` passes the names and references on.
compile_names :
    (placeholder : ℕ → Option Bytes) (t : Template) (c : Compiled)
    → compile placeholder t ≡ ok c
    → (c.unique_names ≡ t.unique_names) × (c.column_refs ≡ t.column_refs)
unfolding compile
compile_names placeholder t c h =
    let (u, valid, h1) =
      >>=-eq-ok (guard (not (equal t.name [] || length t.parts == 0)) invalid_template) _ h in
    let (given, placed, h2) = >>=-eq-ok (placeholders_from placeholder 1 t.parameters) _ h1 in
    let (sql, rendered, h3) = >>=-eq-ok (render_parts given t.parts) _ h2 in
    let same = ok_inj h3 in
    (
      ap (λ (q : Compiled). q.unique_names) (sym same),
      ap (λ (q : Compiled). q.column_refs) (sym same),
    )

-- `QueryDef` of a template that `Parse` and `Compile` returned: no index is out of range, and each
-- unique name is described once, in order, with the schema, the table and the column of the reference
-- that was recorded for it.
pub query_def_parsed :
    (unquote : Bytes → Option Bytes) (name source : Bytes) (t : Template)
    → parse unquote name source ≡ ok t
    → (placeholder : ℕ → Option Bytes) (c : Compiled) → compile placeholder t ≡ ok c
    → (defs : List BindDef) × (query_def c
        ≡ some record { name = c.name; sql = c.sql; parameters = c.parameters; binds = defs })
      × (map (λ (d : BindDef). d.name) defs ≡ t.unique_names)
      × (map (λ (d : BindDef). d.schema_name) defs
          ≡ map (λ (r : ColumnRef). r.schema_name) t.column_refs)
      × (map (λ (d : BindDef). d.table) defs ≡ map (λ (r : ColumnRef). r.table) t.column_refs)
      × (map (λ (d : BindDef). d.column) defs ≡ map (λ (r : ColumnRef). r.column) t.column_refs)
unfolding query_def
query_def_parsed unquote name source t parsed placeholder c compiled =
    let (_, same, _, _, _, _) = parse-IsWellFormed unquote name source t parsed in
    let (names, refs) = compile_names placeholder t c compiled in
    let (defs, e, (named, schemas, tables, columns)) =
      bind_defs-Describes c.unique_names c.column_refs
        (ap length names ∙ same ∙ ap length (sym refs)) in
    (
      defs,
      rw (e, query_def) refl,
      named ∙ names,
      schemas ∙ ap (map (λ (r : ColumnRef). r.schema_name)) refs,
      tables ∙ ap (map (λ (r : ColumnRef). r.table)) refs,
      columns ∙ ap (map (λ (r : ColumnRef). r.column)) refs,
    )
