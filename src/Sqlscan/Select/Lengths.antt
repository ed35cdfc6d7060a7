-- ===== src/Sqlscan/Select/Lengths.antt =====
-- internal/sqlscan/sqlscan.go: the steps of `validateWithTokens` pass tokens: what is left is
-- shorter.
use rasql.Prelude.{
  and_then-eq-some, ℕ, zero, suc, ◌+◌, ◌≤◌, ◌<◌, ◌≡◌, subst, some, List, [], ◌∷◌, length,
  length-drop, take, drop, Bytes, codes, arith, Bool-cases, inl, inr,
}
use rasql.Sqlscan.Words.{token_word, token_open, token_opaque, Token, token}
use rasql.Sqlscan.Select.{
  is_word, matching_paren, parenthesized, past_name, past_columns, past_word, past_materialized,
  past_open, definition, past_recursive,
}

length-take_bound : (n : ℕ) (ts : List Token) → length (take n ts) ≤ length ts
length-take_bound zero ts = omega arith
length-take_bound (suc n) [] = omega arith
length-take_bound (suc n) (t ∷ ts) = omega (arith, length-take_bound n ts)

parenthesized-length :
    (ts inside rest : List Token)
    → parenthesized ts ≡ some (inside, rest)
    → (length inside ≤ length ts) × (length rest ≤ length ts)
unfolding parenthesized
parenthesized-length ts inside rest h =
    let (n, found, e) = and_then-eq-some (matching_paren 1 ts) _ h in
    let left : take n ts ≡ inside = cc in
    let right : drop (n + 1) ts ≡ rest = cc in
    (
      subst (λ l. length l ≤ length ts) left (length-take_bound n ts),
      subst (λ l. length l ≤ length ts) right (omega (arith, length-drop (n + 1) ts)),
    )

past_name-length : (ts rest : List Token) → past_name ts ≡ some rest → length rest < length ts
unfolding past_name
past_name-length (token token_word x ∷ ts) rest h =
    let e : ts ≡ rest = cc in subst (λ l. length l < suc (length ts)) e (omega arith)
past_name-length (token token_opaque x ∷ ts) rest h =
    let e : ts ≡ rest = cc in subst (λ l. length l < suc (length ts)) e (omega arith)
past_name-length _ rest h = absurd cc

past_columns-length : (ts rest : List Token) → past_columns ts ≡ some rest → length rest ≤ length ts
unfolding past_columns
past_columns-length (token token_open x ∷ ts) rest h =
    let ((inside, behind), found, e) = and_then-eq-some (parenthesized ts) _ h in
    let same : behind ≡ rest = cc in
    subst (λ l. length l ≤ suc (length ts)) same
      (omega (arith, (parenthesized-length ts inside behind found).1))
past_columns-length ts rest h =
    let e : ts ≡ rest = cc in subst (λ l. length l ≤ length ts) e (omega arith)

past_word-length :
    (want : Bytes) (ts rest : List Token) → past_word want ts ≡ some rest → length rest ≤ length ts
unfolding past_word
past_word-length want [] rest h = absurd cc
past_word-length want (t ∷ ts) rest h = elim (Bool-cases (is_word t want)) [
  | inl e ↦ let same : ts ≡ rest = cc in subst (λ l. length l ≤ suc (length ts)) same (omega arith)
  | inr e ↦ absurd cc
]

past_materialized-length :
    (ts rest : List Token) → past_materialized ts ≡ some rest → length rest ≤ length ts
unfolding past_materialized
past_materialized-length [] rest h =
    let e : [] ≡ rest = cc in subst (λ l. length l ≤ 0) e (omega arith)
past_materialized-length (t ∷ ts) rest h = elim (Bool-cases (is_word t (codes "NOT"))) [
  | inl e ↦ omega (arith, past_word-length (codes "MATERIALIZED") ts rest cc)
  | inr e ↦ elim (Bool-cases (is_word t (codes "MATERIALIZED"))) [
    | inl f ↦
        let same : ts ≡ rest = cc in subst (λ l. length l ≤ suc (length ts)) same (omega arith)
    | inr f ↦
        let same : (t ∷ ts) ≡ rest = cc in
        subst (λ l. length l ≤ suc (length ts)) same (omega arith)
  ]
]

past_open-length : (ts rest : List Token) → past_open ts ≡ some rest → length rest ≤ length ts
unfolding past_open
past_open-length (token token_open x ∷ ts) rest h =
    let e : ts ≡ rest = cc in subst (λ l. length l ≤ suc (length ts)) e (omega arith)
past_open-length _ rest h = absurd cc

-- A definition takes tokens: its body and what is behind it are shorter.
pub definition-length :
    (ts inside rest : List Token)
    → definition ts ≡ some (inside, rest)
    → (length inside < length ts) × (length rest < length ts)
unfolding definition
definition-length ts inside rest h =
    let (named, h1, e1) = and_then-eq-some (past_name ts) _ h in
    let (headed, h2, e2) = and_then-eq-some (past_columns named) _ e1 in
    let (told, h3, e3) = and_then-eq-some (past_word (codes "AS") headed) _ e2 in
    let (stored, h4, e4) = and_then-eq-some (past_materialized told) _ e3 in
    let (opened, h5, e5) = and_then-eq-some (past_open stored) _ e4 in
    let l1 = past_name-length ts named h1 in
    let l2 = past_columns-length named headed h2 in
    let l3 = past_word-length (codes "AS") headed told h3 in
    let l4 = past_materialized-length told stored h4 in
    let l5 = past_open-length stored opened h5 in
    let (l6, l7) = parenthesized-length opened inside rest e5 in (omega arith, omega arith)

pub past_recursive-length : (ts : List Token) → length (past_recursive ts) ≤ length ts
unfolding past_recursive
past_recursive-length [] = omega arith
past_recursive-length (t ∷ ts) = elim (Bool-cases (is_word t (codes "RECURSIVE"))) [
  | inl e ↦ rw (e, past_recursive) (omega arith)
  | inr e ↦ rw (e, past_recursive) (omega arith)
]
