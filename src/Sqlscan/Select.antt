-- ===== src/Sqlscan/Select.antt =====
-- internal/sqlscan/sqlscan.go: `ValidateSelect`. Where the source passes tokens and an index, these
-- functions take the tokens from that index on; `none` is the source's `return false`.
mod Lengths
pub mod Parens
pub mod Definition
pub mod Reading
pub mod Grammar
pub mod Accepts
use rasql.Prelude.{
  ℕ, zero, suc, ◌+◌, ◌-◌, Bool, true, false, not, ◌&&◌, ◌||◌, Option, none, some, List, [], ◌∷◌,
  ltb, ◌==◌, if◌then◌else◌, length, take, drop, Bytes, codes, equal, Result, ok, err, ◌>>=◌,
}
use rasql.Sqlscan.Lexemes.{Rules}
use rasql.Prelude.{more, and_then}
use rasql.Sqlscan.Scan.{ScanError, scan}
use rasql.Sqlscan.Words.{
  TokenKind, token_word, token_open, token_close, token_comma, token_opaque, Token, token,
  executable_tokens,
}

unfoldable pub is_word : Token → Bytes → Bool
is_word (token token_word t) want = equal t want
is_word (token token_open t) want = false
is_word (token token_close t) want = false
is_word (token token_comma t) want = false
is_word (token token_opaque t) want = false

-- `matchingParen` behind the opening parenthesis, at a depth that starts from one: how many tokens
-- stand before the closing one.
unfoldable pub matching_paren : ℕ → List Token → Option ℕ
unfolding more
matching_paren depth [] = none
matching_paren depth (token token_open t ∷ ts) = more 1 (matching_paren (depth + 1) ts)
matching_paren depth (token token_close t ∷ ts) =
    let later = more 1 (matching_paren (depth - 1) ts) in if depth - 1 == 0 then some 0 else later
matching_paren depth (token token_word t ∷ ts) = more 1 (matching_paren depth ts)
matching_paren depth (token token_comma t ∷ ts) = more 1 (matching_paren depth ts)
matching_paren depth (token token_opaque t ∷ ts) = more 1 (matching_paren depth ts)

-- What the parentheses hold, and what is behind them.
unfoldable pub parenthesized : List Token → Option (List Token × List Token)
unfolding matching_paren
parenthesized ts = and_then (matching_paren 1 ts) λ n. some (take n ts, drop (n + 1) ts)

unfoldable pub past_name : List Token → Option (List Token)
past_name (token token_word t ∷ ts) = some ts
past_name (token token_opaque t ∷ ts) = some ts
past_name _ = none

unfoldable pub past_columns : List Token → Option (List Token)
unfolding parenthesized
past_columns (token token_open t ∷ ts) = and_then (parenthesized ts) λ p. some p.1
past_columns ts = some ts

unfoldable pub past_word : Bytes → List Token → Option (List Token)
unfolding is_word
past_word want [] = none
past_word want (t ∷ ts) = if is_word t want then some ts else none

unfoldable pub past_materialized : List Token → Option (List Token)
unfolding past_word is_word
past_materialized [] = some []
past_materialized (t ∷ ts) =
    if is_word t (codes "NOT")
    then past_word (codes "MATERIALIZED") ts
    else if is_word t (codes "MATERIALIZED")
    then some ts
    else some (t ∷ ts)

unfoldable pub past_open : List Token → Option (List Token)
past_open (token token_open t ∷ ts) = some ts
past_open _ = none

-- A round of the loop of `validateWithTokens` up to the closing parenthesis: the tokens of the
-- body, and those behind it.
unfoldable pub definition : List Token → Option (List Token × List Token)
unfolding past_name past_columns past_word past_materialized past_open parenthesized
definition ts = and_then (past_name ts) λ named. and_then (past_columns named) λ headed.
    and_then (past_word (codes "AS") headed)
      λ told. and_then (past_materialized told) λ stored. and_then (past_open stored) parenthesized

unfoldable pub past_recursive : List Token → List Token
unfolding is_word
past_recursive [] = []
past_recursive (t ∷ ts) = if is_word t (codes "RECURSIVE") then ts else t ∷ ts

-- `validSelectBody`, over a `validateWithTokens` for the tokens behind `WITH`.
unfoldable pub select_body : (List Token → Bool) → List Token → Bool
unfolding is_word past_recursive
select_body with_tokens [] = false
select_body with_tokens (t ∷ ts) =
    if is_word t (codes "SELECT")
    then true
    else if not (is_word t (codes "WITH"))
    then false
    else with_tokens (past_recursive ts)

-- The end of a round: another definition behind a comma, or the `SELECT`.
unfoldable pub after_definition : (List Token → Bool) → List Token → Bool
unfolding is_word
after_definition with_tokens [] = false
after_definition with_tokens (token token_comma t ∷ ts) = with_tokens ts
after_definition with_tokens (t ∷ ts) = is_word t (codes "SELECT")

-- `validateWithTokens` behind `WITH` and `RECURSIVE`; the fuel is a bound on the rounds and on the
-- nesting together.
unfoldable pub validate_with_tokens : ℕ → List Token → Bool
unfolding definition select_body after_definition
validate_with_tokens zero ts = false
validate_with_tokens (suc fuel) ts = elim (definition ts) [
  | none ↦ false
  | some (inside, rest) ↦
      select_body (validate_with_tokens fuel) inside
      && after_definition (validate_with_tokens fuel) rest
]

pub data SelectError : Type 0 where
  not_scanned : ScanError → SelectError
  executable_semicolon not_select : SelectError

unfoldable pub select_tokens : List Token → Bool
unfolding select_body validate_with_tokens
select_tokens ts = select_body (validate_with_tokens (length ts)) ts

unfoldable pub validate_select : (Bytes → Bytes) → Rules → Bytes → Result SelectError (Unit {0})
unfolding scan executable_tokens select_tokens
validate_select unicode_upper rules sql = elim (scan rules sql) [
  | err e ↦ err (not_scanned e)
  | ok r ↦
      if ltb 0 (length r.semicolons)
      then err executable_semicolon
      else if select_tokens (executable_tokens unicode_upper r.protected sql)
      then ok tt
      else err not_select
]
