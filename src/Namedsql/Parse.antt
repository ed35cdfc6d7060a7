-- ===== src/Namedsql/Parse.antt =====
-- namedsql/namedsql.go: `Template`, `Parse`, `parseBindAction` and `parseColumnRef`. A parameter
-- stands for `strconv.Unquote`.
use rasql.Prelude.{
  ℕ, zero, suc, ◌+◌, Bool, true, not, ◌&&◌, Option, none, some, List, [], ◌∷◌, ◌++◌, if◌then◌else◌,
  length, take, drop, Bytes, codes, equal, index_of, has_prefix, Result, ok, err, ◌>>=◌, ◌>>◌,
  guard,
}
use rasql.Unicode.{is_blank}
use rasql.Namedsql.Fields.{fields, split_from, is_simple_identifier}

pub record ColumnRef : Type 0 where
  pub schema_name : Bytes
  pub table : Bytes
  pub column : Bytes

abbrev pub no_column : ColumnRef
no_column = record { schema_name = []; table = []; column = [] }

-- `existing == ref`
unfoldable pub same_ref : ColumnRef → ColumnRef → Bool
unfolding equal
same_ref a b = equal a.schema_name b.schema_name && equal a.table b.table && equal a.column b.column

-- `columnRef.stated`
unfoldable pub is_stated : ColumnRef → Bool
unfolding equal
is_stated r = not (equal r.column [])

pub data TemplatePart : Type 0 where
  text_part : Bytes → TemplatePart
  bind_part : ℕ → TemplatePart

pub record Template : Type 0 where
  pub name : Bytes
  pub parts : List TemplatePart
  pub parameters : List Bytes
  pub unique_names : List Bytes
  pub column_refs : List ColumnRef

pub data ParseError : Type 0 where
  empty_name empty_source unclosed_action bad_action unquoted_parameter : ParseError
  invalid_parameter : Bytes → ParseError
  quoted_column invalid_column : ParseError
  two_columns : Bytes → ParseError
  column_or_none : Bytes → ParseError
  not_ended : ParseError

unfoldable pub all_simple : List Bytes → Bool
unfolding is_simple_identifier
all_simple [] = true
all_simple (p ∷ ps) = is_simple_identifier p && all_simple ps

-- The column reference of two or three parts.
unfoldable pub column_ref : List Bytes → Result ParseError ColumnRef
column_ref (table ∷ column ∷ []) = ok record { schema_name = []; table = table; column = column }
column_ref (schema ∷ table ∷ column ∷ []) =
    ok record { schema_name = schema; table = table; column = column }
column_ref _ = err invalid_column

-- `parseColumnRef`
unfoldable pub parse_column_ref : Bytes → Result ParseError ColumnRef
unfolding has_prefix split_from all_simple column_ref
parse_column_ref text = do
  guard (not (has_prefix text (b'"' ∷ []))) quoted_column
  ref ← column_ref (split_from b'.' [] text)
  guard (all_simple (split_from b'.' [] text)) invalid_column
  ok ref

-- What `seen` holds for a name; it maps each unique name to its column reference.
unfoldable pub seen_ref : Bytes → List Bytes → List ColumnRef → Option ColumnRef
unfolding equal
seen_ref name [] refs = none
seen_ref name (n ∷ names) [] = none
seen_ref name (n ∷ names) (r ∷ refs) =
    let later = seen_ref name names refs in if equal n name then some r else later

-- The `switch` on what was seen: the template with the parameter added.
unfoldable pub see_parameter :
    Bytes → ColumnRef → Option ColumnRef → Template → Result ParseError Template
unfolding same_ref is_stated
see_parameter parameter ref none t = ok record t {
  unique_names = t.unique_names ++ parameter ∷ [];
  column_refs = t.column_refs ++ ref ∷ [];
}
see_parameter parameter ref (some existing) t =
    if same_ref existing ref
    then ok t
    else if is_stated existing && is_stated ref
    then err (two_columns parameter)
    else err (column_or_none parameter)

unfoldable pub add_text : Bytes → Template → Template
add_text [] t = t
add_text (c ∷ cs) t = record t { parts = t.parts ++ text_part (c ∷ cs) ∷ [] }

-- The end of a round: the bind part, its parameter, and what is seen of it.
unfoldable pub add_bind : Bytes → ColumnRef → Template → Result ParseError Template
unfolding see_parameter seen_ref
add_bind parameter ref t =
    see_parameter parameter ref (seen_ref parameter t.unique_names t.column_refs) record t {
      parts = t.parts ++ bind_part (length t.parameters) ∷ [];
      parameters = t.parameters ++ parameter ∷ [];
    }

module _ (unquote : Bytes → Option Bytes) where
  unfoldable pub parameter_name : Bytes → Result ParseError Bytes
  unfolding is_simple_identifier
  parameter_name quoted = elim (unquote quoted) [
    | none ↦ err unquoted_parameter
    | some name ↦ if is_simple_identifier name then ok name else err (invalid_parameter name)
  ]

  unfoldable pub bind_action : List Bytes → Result ParseError (Bytes × ColumnRef)
  unfolding equal parameter_name parse_column_ref
  bind_action (word ∷ quoted ∷ []) = do
    guard (equal word (codes "bind")) bad_action
    name ← parameter_name quoted
    ok (name, no_column)
  bind_action (word ∷ quoted ∷ column ∷ []) = do
    guard (equal word (codes "bind")) bad_action
    name ← parameter_name quoted
    ref ← parse_column_ref column
    ok (name, ref)
  bind_action _ = err bad_action

  -- `parseBindAction`; `strings.Fields` passes the space that its caller trims.
  unfoldable pub parse_bind_action : Bytes → Result ParseError (Bytes × ColumnRef)
  unfolding fields bind_action
  parse_bind_action action = bind_action (fields action)

  -- The loop of `Parse` over what remains. Each round takes at least four bytes, so the length of
  -- the source is fuel enough.
  unfoldable pub parse_from : ℕ → Template → Bytes → Result ParseError Template
  unfolding index_of parse_bind_action add_bind add_text
  parse_from fuel t [] = ok t
  parse_from zero t (c ∷ cs) = err not_ended
  parse_from (suc fuel) t (c ∷ cs) = elim (index_of (c ∷ cs) (codes "{{")) [
    | none ↦ ok (add_text (c ∷ cs) t)
    | some start ↦
        let action = drop (start + 2) (c ∷ cs) in
        elim (index_of action (codes "}}")) [
          | none ↦ err unclosed_action
          | some end ↦ (do
            (parameter, ref) ← parse_bind_action (take end action)
            t' ← add_bind parameter ref (add_text (take start (c ∷ cs)) t)
            parse_from fuel t' (drop (end + 2) action))
        ]
  ]

  unfoldable pub parse : Bytes → Bytes → Result ParseError Template
  unfolding equal is_blank parse_from
  parse name source = do
    guard (not (equal name [])) empty_name
    guard (not (is_blank source)) empty_source
    parse_from (length source)
        record { name = name; parts = []; parameters = []; unique_names = []; column_refs = [] }
        source
