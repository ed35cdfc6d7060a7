-- ===== src/Sqlscan/Select/Grammar.antt =====
-- internal/sqlscan/sqlscan.go: what `ValidateSelect` accepts, as a grammar of tokens.
use rasql.Prelude.{
  ◌<◌, ℕ, zero, suc, ◌≤◌, ◌≡◌, refl, ◌↔◌, Bool, true, false, ◌&&◌, some, List, [], ◌∷◌, length,
  Bytes, codes, arith, Bool-cases, Option-cases, inl, inr,
}
use rasql.Sqlscan.Words.{
  token_word, token_open, token_close, token_comma, token_opaque, Token, token,
}
use rasql.Sqlscan.Select.{
  is_word, definition, past_recursive, select_body, after_definition, validate_with_tokens,
  select_tokens,
}
use rasql.Sqlscan.Select.Definition.{Definition}
use rasql.Sqlscan.Select.Reading.{definition_sound, definition_complete}
use rasql.Sqlscan.Select.Lengths.{definition-length, past_recursive-length}

pub data Part : Type 0 where
  body definitions : Part

-- The body of a statement, and the definitions behind `WITH`, which end with the statement's
-- `SELECT`.
pub data Derives : Part → List Token → Type 0 where
  select : {t : Token} {ts : List Token} → is_word t (codes "SELECT") ≡ true → Derives body (t ∷ ts)
  with_definitions :
      {t : Token} {ts : List Token}
      → is_word t (codes "WITH") ≡ true
      → Derives definitions (past_recursive ts)
      → Derives body (t ∷ ts)
  last :
      {t : Token} {ts inside rest : List Token}
      → Definition ts inside (t ∷ rest)
      → Derives body inside
      → is_word t (codes "SELECT") ≡ true
      → Derives definitions ts
  next :
      {x : Bytes} {ts inside rest : List Token}
      → Definition ts inside (token token_comma x ∷ rest)
      → Derives body inside
      → Derives definitions rest
      → Derives definitions ts

and-eq-true : (a b : Bool) → (a && b) ≡ true → (a ≡ true) × (b ≡ true)
and-eq-true true b h = (refl, h)
and-eq-true false b h = absurd cc

module _ (accepts : List Token → Bool)
    (sound : (ts : List Token) → accepts ts ≡ true → Derives definitions ts) where
  select_body_sound : (ts : List Token) → select_body accepts ts ≡ true → Derives body ts
  unfolding select_body
  select_body_sound [] h = absurd cc
  select_body_sound (t ∷ ts) h = elim (Bool-cases (is_word t (codes "SELECT"))) [
    | inl e ↦ select e
    | inr e ↦ elim (Bool-cases (is_word t (codes "WITH"))) [
      | inl f ↦ with_definitions f (sound (past_recursive ts) (rw (e, f) at h))
      | inr f ↦ let never : false ≡ true = rw (e, f) at h in absurd cc
    ]
  ]

  after_definition_sound :
      (ts inside rest : List Token)
      → Definition ts inside rest
      → Derives body inside
      → after_definition accepts rest ≡ true
      → Derives definitions ts
  unfolding after_definition
  after_definition_sound ts inside [] found b h = absurd cc
  after_definition_sound ts inside (token token_comma x ∷ rest) found b h =
      next found b (sound rest h)
  after_definition_sound ts inside (token token_word x ∷ rest) found b h = last found b h
  after_definition_sound ts inside (token token_open x ∷ rest) found b h = last found b h
  after_definition_sound ts inside (token token_close x ∷ rest) found b h = last found b h
  after_definition_sound ts inside (token token_opaque x ∷ rest) found b h = last found b h

validate_sound :
    (fuel : ℕ) (ts : List Token) → validate_with_tokens fuel ts ≡ true → Derives definitions ts
unfolding validate_with_tokens
validate_sound zero ts h = absurd cc
validate_sound (suc fuel) ts h = elim (Option-cases (definition ts)) [
  | inl e ↦ let never : false ≡ true = rw (e, validate_with_tokens) at h in absurd cc
  | inr ((inside, rest), e) ↦
      let (b, after) = and-eq-true _ _ (rw (e, validate_with_tokens) at h) in
      after_definition_sound (validate_with_tokens fuel) (validate_sound fuel) ts inside rest
        (definition_sound ts inside rest e)
        (select_body_sound (validate_with_tokens fuel) (validate_sound fuel) inside b) after
]

select_after :
    (accepts : List Token → Bool) (t : Token) (ts : List Token)
    → is_word t (codes "SELECT") ≡ true
    → after_definition accepts (t ∷ ts) ≡ true
unfolding after_definition is_word
select_after accepts (token token_word x) ts h = h
select_after accepts (token token_comma x) ts h = absurd cc
select_after accepts (token token_open x) ts h = h
select_after accepts (token token_close x) ts h = h
select_after accepts (token token_opaque x) ts h = h

comma_after :
    (accepts : List Token → Bool) (x : Bytes) (ts : List Token)
    → accepts ts ≡ true
    → after_definition accepts (token token_comma x ∷ ts) ≡ true
unfolding after_definition
comma_after accepts x ts h = h

-- One round of fuel.
validate_round :
    (fuel : ℕ) (ts inside rest : List Token)
    → definition ts ≡ some (inside, rest)
    → select_body (validate_with_tokens fuel) inside ≡ true
    → after_definition (validate_with_tokens fuel) rest ≡ true
    → validate_with_tokens (suc fuel) ts ≡ true
unfolding validate_with_tokens
validate_round fuel ts inside rest e b after = rw (e, validate_with_tokens) (rw (b, after) refl)

-- What a part of a statement needs of a test for definitions.
abbrev Accepted : (List Token → Bool) → Part → List Token → Type 0
Accepted accepts body ts = select_body accepts ts ≡ true
Accepted accepts definitions ts = accepts ts ≡ true

select_body_select :
    (accepts : List Token → Bool) (t : Token) (ts : List Token)
    → is_word t (codes "SELECT") ≡ true
    → select_body accepts (t ∷ ts) ≡ true
unfolding select_body
select_body_select accepts t ts e = rw e refl

select_body_with :
    (accepts : List Token → Bool) (t : Token) (ts : List Token)
    → is_word t (codes "WITH") ≡ true
    → accepts (past_recursive ts) ≡ true
    → select_body accepts (t ∷ ts) ≡ true
unfolding select_body
select_body_with accepts t ts e h = elim (Bool-cases (is_word t (codes "SELECT"))) [
  | inl f ↦ rw f refl
  | inr f ↦ rw (f, e) h
]

Definition-length :
    (ts inside rest : List Token)
    → Definition ts inside rest
    → (length inside < length ts) × (length rest < length ts)
Definition-length ts inside rest d =
    definition-length ts inside rest (definition_complete ts inside rest d)

-- The length of the tokens is fuel enough.
validate_complete :
    (fuel : ℕ) {part : Part} {ts : List Token}
    → Derives part ts
    → length ts ≤ fuel
    → Accepted (validate_with_tokens fuel) part ts
validate_complete fuel (select {t} {ts} e) h = select_body_select (validate_with_tokens fuel) t ts e
validate_complete fuel (with_definitions {t} {ts} e d) h =
    select_body_with (validate_with_tokens fuel) t ts e
      (validate_complete fuel d (omega (arith, past_recursive-length ts)))
validate_complete zero (last {ts = ts} {inside} {rest} found b e) h =
    absurd (omega (arith, (Definition-length ts inside _ found).0))
validate_complete (suc fuel) (last {t} {ts} {inside} {rest} found b e) h =
    validate_round fuel ts inside (t ∷ rest) (definition_complete ts inside _ found)
      (validate_complete fuel b (omega (arith, (Definition-length ts inside _ found).0)))
      (select_after (validate_with_tokens fuel) t rest e)
validate_complete zero (next {ts = ts} {inside} found b d) h =
    absurd (omega (arith, (Definition-length ts inside _ found).0))
validate_complete (suc fuel) (next {x} {ts} {inside} {rest} found b d) h =
    let (l1, l2) = Definition-length ts inside (token token_comma x ∷ rest) found in
    validate_round fuel ts inside (token token_comma x ∷ rest)
      (definition_complete ts inside _ found) (validate_complete fuel b (omega arith))
      (comma_after (validate_with_tokens fuel) x rest (validate_complete fuel d (omega arith)))

-- The check of a statement's tokens, with their number as fuel, accepts exactly the tokens that the
-- grammar derives.
pub select_tokens_iff : (ts : List Token) → (select_tokens ts ≡ true) ↔ Derives body ts
unfolding select_tokens
select_tokens_iff ts = (
  select_body_sound (validate_with_tokens (length ts)) (validate_sound (length ts)) ts,
  λ d. validate_complete (length ts) d (omega arith),
)
