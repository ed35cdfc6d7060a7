-- ===== src/Graphkey/Column.antt =====
-- query/expression.go and query/relation.go: `ColumnRef.Validate` and the names that `ValidateParts`
-- compares.
use rasql.Prelude.{
  ◌≡◌, ◌≢◌, ◌↔◌, refl, ap, ◌∙◌, Bool, true, false, not, Option, none, some, some_inj, List, [], ◌∷◌,
  Bytes, equal, equal-false, if◌then◌else◌, Result, ok, err, ◌>>◌, guard, guard-eq-ok, >>=-eq-ok,
  arith,
}
use rasql.TableOrder.{mem_text}

pub data RelationKind : Type 0 where
  zero_kind table_kind result_kind cte_kind other_kind : RelationKind

-- `tableDescriptor`: its qualified name, and the names of the columns that `column` finds.
pub record TableDescriptor : Type 0 where
  pub qualified_name : Bytes
  pub columns : List Bytes

pub record TableRef : Type 0 where
  pub descriptor : Option TableDescriptor
  pub alias : Bytes

-- `RelationRef`, with the names of the columns of its result.
pub record RelationRef : Type 0 where
  pub kind : RelationKind
  pub table : Option TableRef
  pub result : Option (List Bytes)
  pub alias : Bytes

pub record ColumnRef : Type 0 where
  pub source : RelationRef
  pub name : Bytes

pub data ColumnError : Type 0 where
  nil_table empty_alias invalid_relation no_such_column : ColumnError

-- `RelationRef.Table`
unfoldable pub table_of : RelationRef → Option TableRef
table_of r = elim r.kind [ table_kind ↦ r.table | _ ↦ none ]

abbrev pub descriptor_of : Option TableRef → Option TableDescriptor
descriptor_of none = none
descriptor_of (some t) = t.descriptor

abbrev pub holds : Bytes → Option (List Bytes) → Bool
holds name none = false
holds name (some names) = mem_text name names

abbrev pub descriptor_columns : Option TableDescriptor → Option (List Bytes)
descriptor_columns none = none
descriptor_columns (some d) = some d.columns

abbrev pub columns_for : Option TableRef → Option (List Bytes) → Option (List Bytes)
columns_for none result = result
columns_for (some t) result = descriptor_columns t.descriptor

-- `RelationRef.hasColumn`
unfoldable pub has_column : RelationRef → Bytes → Bool
unfolding table_of
has_column r name = holds name (columns_for (table_of r) r.result)

abbrev pub validate_descriptor : Option TableDescriptor → Result ColumnError (Unit {0})
validate_descriptor none = err nil_table
validate_descriptor (some d) = ok tt

-- `RelationRef.validate`, with `TableRef.validate`.
unfoldable pub validate_relation : RelationRef → Result ColumnError (Unit {0})
unfolding table_of
validate_relation r = elim r.kind [
  | zero_kind ↦ err nil_table
  | table_kind ↦ validate_descriptor (descriptor_of (table_of r))
  | result_kind ↦ guard (not (equal r.alias [])) empty_alias
  | cte_kind ↦ guard (not (equal r.alias [])) empty_alias
  | other_kind ↦ err invalid_relation
]

-- `ColumnRef.Validate`
unfoldable pub validate_column : ColumnRef → Result ColumnError (Unit {0})
validate_column c = do validate_relation c.source; guard (has_column c.source c.name) no_such_column

-- `TableRef.QualifiedName`; a table without a descriptor has no name.
abbrev pub table_name : Option TableRef → Bytes
table_name none = []
table_name (some t) =
    if not (equal t.alias [])
    then t.alias
    else elim t.descriptor [ none ↦ [] | some d ↦ d.qualified_name ]

-- `RelationRef.QualifiedName`
unfoldable pub qualified_name : RelationRef → Bytes
unfolding table_of
qualified_name r = if not (equal r.alias []) then r.alias else table_name (table_of r)

-- The source is a table that holds the column, or a result or a CTE with an alias that does.
abbrev pub Holds : Bytes → RelationKind → Option TableRef → Option (List Bytes) → Bytes → Type 0
Holds name zero_kind table result alias = ⊥
Holds name table_kind table result alias =
    (t : TableRef) × ((d : TableDescriptor) × ((table ≡ some t)
        × (t.descriptor ≡ some d)
        × (mem_text name d.columns ≡ true)))
Holds name result_kind table result alias =
    (alias ≢ []) × ((names : List Bytes) × ((result ≡ some names) × (mem_text name names ≡ true)))
Holds name cte_kind table result alias =
    (alias ≢ []) × ((names : List Bytes) × ((result ≡ some names) × (mem_text name names ≡ true)))
Holds name other_kind table result alias = ⊥

abbrev pub IsColumn : ColumnRef → Type 0
IsColumn c = Holds c.name c.source.kind c.source.table c.source.result c.source.alias

stated_alias : (alias : Bytes) → not (equal alias []) ≡ true → alias ≢ []
unfolding equal
stated_alias [] h = absurd (ground arith)
stated_alias (b ∷ bs) h = λ e. absurd cc

held :
    (name : Bytes) (names : Option (List Bytes))
    → holds name names ≡ true
    → (cs : List Bytes) × ((names ≡ some cs) × (mem_text name cs ≡ true))
held name none h = absurd (ground arith)
held name (some cs) h = (cs, (refl, h))

abbrev column_with :
    Bytes → RelationKind → Option TableRef → Option (List Bytes) → Bytes → ColumnRef
column_with name kind table result alias = record {
  source = record { kind = kind; table = table; result = result; alias = alias };
  name = name;
}

aliased-Holds :
    (name : Bytes) (result : Option (List Bytes)) (alias : Bytes)
    → (do guard (not (equal alias [])) empty_alias; guard (holds name result) no_such_column)
      ≡ ok tt
    → (alias ≢ []) × ((names : List Bytes) × ((result ≡ some names) × (mem_text name names ≡ true)))
aliased-Holds name result alias h =
    let (_, g, k) = >>=-eq-ok (guard (not (equal alias [])) empty_alias) _ h in
    (
      stated_alias alias (guard-eq-ok _ empty_alias g),
      held name result (guard-eq-ok _ no_such_column k),
    )

Holds-aliased :
    (name : Bytes) (result : Option (List Bytes)) (alias : Bytes)
    → (alias ≢ []) × ((names : List Bytes) × ((result ≡ some names) × (mem_text name names ≡ true)))
    → (do guard (not (equal alias [])) empty_alias; guard (holds name result) no_such_column)
      ≡ ok tt
Holds-aliased name result alias (stated, (names, (same, here))) =
    rw (equal-false alias [] stated, same, here) refl

described-Holds :
    (name : Bytes) (d : Option TableDescriptor)
    → (do validate_descriptor d; guard (holds name (descriptor_columns d)) no_such_column) ≡ ok tt
    → (e : TableDescriptor) × ((d ≡ some e) × (mem_text name e.columns ≡ true))
described-Holds name none h = absurd cc
described-Holds name (some d) h = (d, (refl, guard-eq-ok _ no_such_column h))

column-Holds :
    (name : Bytes) (kind : RelationKind) (table : Option TableRef) (result : Option (List Bytes))
    (alias : Bytes)
    → validate_column (column_with name kind table result alias) ≡ ok tt
    → Holds name kind table result alias
unfolding validate_column validate_relation has_column table_of
column-Holds name zero_kind table result alias h = absurd cc
column-Holds name table_kind none result alias h = absurd cc
column-Holds name table_kind (some t) result alias h =
    let (d, (same, here)) = described-Holds name t.descriptor h in (t, (d, (refl, same, here)))
column-Holds name result_kind table result alias h = aliased-Holds name result alias h
column-Holds name cte_kind table result alias h = aliased-Holds name result alias h
column-Holds name other_kind table result alias h = absurd cc

Holds-column :
    (name : Bytes) (kind : RelationKind) (table : Option TableRef) (result : Option (List Bytes))
    (alias : Bytes)
    → Holds name kind table result alias
    → validate_column (column_with name kind table result alias) ≡ ok tt
unfolding validate_column validate_relation has_column table_of
Holds-column name zero_kind table result alias h = absurd h
Holds-column name table_kind none result alias (t, (d, (same, described, here))) = absurd cc
Holds-column name table_kind (some u) result alias (t, (d, (same, described, here))) =
    let told : u.descriptor ≡ some d =
      ap (λ (z : TableRef). z.descriptor) (some_inj same) ∙ described in
    rw (told, here) refl
Holds-column name result_kind table result alias h = Holds-aliased name result alias h
Holds-column name cte_kind table result alias h = Holds-aliased name result alias h
Holds-column name other_kind table result alias h = absurd h

-- `ColumnRef.Validate` takes the columns that their sources hold.
pub validate_column_iff : (c : ColumnRef) → (validate_column c ≡ ok tt) ↔ IsColumn c
validate_column_iff c = (
  column-Holds c.name c.source.kind c.source.table c.source.result c.source.alias,
  Holds-column c.name c.source.kind c.source.table c.source.result c.source.alias,
)
