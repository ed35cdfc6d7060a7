-- ===== src/Sqlscan/Select/Definition.antt =====
-- internal/sqlscan/sqlscan.go: a definition behind `WITH`, as a grammar.
use rasql.Prelude.{◌≡◌, Bool, true, false, List, ◌∷◌, ◌++◌, Bytes, codes}
use rasql.Sqlscan.Words.{
  token_word, token_open, token_close, token_comma, token_opaque, Token, token,
}
use rasql.Sqlscan.Select.{is_word}
use rasql.Sqlscan.Select.Parens.{Nested}

abbrev pub is_name : Token → Bool
is_name (token token_word x) = true
is_name (token token_opaque x) = true
is_name (token token_open x) = false
is_name (token token_close x) = false
is_name (token token_comma x) = false

abbrev pub starts_open : List Token → Bool
starts_open (token token_open x ∷ ts) = true
starts_open _ = false

-- The columns of a definition, if it names any, and the tokens behind them.
pub data PastColumns : List Token → List Token → Type 0 where
  unnamed : {ts : List Token} → starts_open ts ≡ false → PastColumns ts ts
  columns :
      (x y : Bytes) (a : List Token) {rest : List Token}
      → Nested a
      → PastColumns (token token_open x ∷ (a ++ token token_close y ∷ rest)) rest

-- `MATERIALIZED` or `NOT MATERIALIZED`, if it stands there, and the tokens behind it.
pub data PastMaterialized : List Token → List Token → Type 0 where
  unsaid :
      (x : Bytes) {ts : List Token}
      → PastMaterialized (token token_open x ∷ ts) (token token_open x ∷ ts)
  materialized :
      (t : Token) {ts : List Token}
      → is_word t (codes "MATERIALIZED") ≡ true
      → PastMaterialized (t ∷ ts) ts
  not_materialized :
      (t u : Token) {ts : List Token}
      → is_word t (codes "NOT") ≡ true
      → is_word u (codes "MATERIALIZED") ≡ true
      → PastMaterialized (t ∷ u ∷ ts) ts

-- `name (columns) AS NOT MATERIALIZED (body)`, the columns and the words before the body optional,
-- and the tokens behind it.
pub record Definition (ts inside rest : List Token) : Type 0 where
  pub name : Token
  pub named : List Token
  pub as_word : Token
  pub told : List Token
  pub open_text : Bytes
  pub opened : List Token
  pub close_text : Bytes
  pub begins : ts ≡ name ∷ named
  pub names : is_name name ≡ true
  pub past_columns : PastColumns named (as_word ∷ told)
  pub says_as : is_word as_word (codes "AS") ≡ true
  pub past_materialized : PastMaterialized told (token token_open open_text ∷ opened)
  pub ends : opened ≡ inside ++ token token_close close_text ∷ rest
  pub nested : Nested inside
