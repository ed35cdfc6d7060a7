-- ===== src/Sqlscan/Select/Reading.antt =====
-- internal/sqlscan/sqlscan.go: the round of `validateWithTokens` reads the definitions of
-- the grammar, and nothing else.
use rasql.Prelude.{
  and_then-some, and_then-eq-some, equal_iff, ◌≡◌, refl, subst, sym, ap, ◌∙◌, true, false, some,
  List, [], ◌∷◌, Bytes, codes, equal, Bool-cases, inl, inr,
}
use rasql.Sqlscan.Words.{
  token_word, token_open, token_close, token_comma, token_opaque, Token, token,
}
use rasql.Sqlscan.Select.{
  is_word, parenthesized, past_name, past_columns, past_word, past_materialized, past_open,
  definition,
}
use rasql.Sqlscan.Select.Parens.{parenthesized-Nested, Nested-parenthesized}
use rasql.Sqlscan.Select.Definition.{
  is_name, PastColumns, unnamed, columns, PastMaterialized, unsaid, materialized, not_materialized,
  Definition,
}

some_inj : {A : Type 0} {a b : A} → some a ≡ some b → a ≡ b
some_inj h = cc

name_of :
    (ts rest : List Token)
    → past_name ts ≡ some rest
    → (n : Token) × ((ts ≡ n ∷ rest) × (is_name n ≡ true))
unfolding past_name
name_of (token token_word x ∷ ts) rest h = (_, (ap (◌∷◌ (token token_word x)) (some_inj h), refl))
name_of (token token_opaque x ∷ ts) rest h =
    (_, (ap (◌∷◌ (token token_opaque x)) (some_inj h), refl))
name_of [] rest h = absurd cc
name_of (token token_open x ∷ ts) rest h = absurd cc
name_of (token token_close x ∷ ts) rest h = absurd cc
name_of (token token_comma x ∷ ts) rest h = absurd cc

columns_of : (ts rest : List Token) → past_columns ts ≡ some rest → PastColumns ts rest
unfolding past_columns
columns_of (token token_open x ∷ ts) rest h =
    let ((a, behind), found, e) = and_then-eq-some (parenthesized ts) _ h in
    let (n, (y, split)) = parenthesized-Nested ts a behind found in
    let same : behind ≡ rest = some_inj e in
    subst (PastColumns (token token_open x ∷ ts)) same
      (subst (λ l. PastColumns (token token_open x ∷ l) behind) (sym split) (columns x y a n))
columns_of [] rest h = subst (PastColumns []) (some_inj h) (unnamed refl)
columns_of (token token_word x ∷ ts) rest h =
    subst (PastColumns (token token_word x ∷ ts)) (some_inj h) (unnamed refl)
columns_of (token token_opaque x ∷ ts) rest h =
    subst (PastColumns (token token_opaque x ∷ ts)) (some_inj h) (unnamed refl)
columns_of (token token_close x ∷ ts) rest h =
    subst (PastColumns (token token_close x ∷ ts)) (some_inj h) (unnamed refl)
columns_of (token token_comma x ∷ ts) rest h =
    subst (PastColumns (token token_comma x ∷ ts)) (some_inj h) (unnamed refl)

of_columns : (ts rest : List Token) → PastColumns ts rest → past_columns ts ≡ some rest
unfolding past_columns
of_columns ts rest (columns x y a n) = rw (Nested-parenthesized y rest n) refl
of_columns [] rest (unnamed e) = refl
of_columns (token token_word x ∷ ts) rest (unnamed e) = refl
of_columns (token token_opaque x ∷ ts) rest (unnamed e) = refl
of_columns (token token_close x ∷ ts) rest (unnamed e) = refl
of_columns (token token_comma x ∷ ts) rest (unnamed e) = refl
of_columns (token token_open x ∷ ts) rest (unnamed e) = absurd cc

word_of :
    (want : Bytes) (ts rest : List Token)
    → past_word want ts ≡ some rest
    → (t : Token) × ((ts ≡ t ∷ rest) × (is_word t want ≡ true))
unfolding past_word
word_of want [] rest h = absurd cc
word_of want (t ∷ ts) rest h = elim (Bool-cases (is_word t want)) [
  | inl e ↦ let same : ts ≡ rest = some_inj (rw (e, past_word) at h) in (t, (ap (◌∷◌ t) same, e))
  | inr e ↦ absurd cc
]

materialized_of :
    (ts opened : List Token) (x : Bytes)
    → past_materialized ts ≡ some (token token_open x ∷ opened)
    → PastMaterialized ts (token token_open x ∷ opened)
unfolding past_materialized
materialized_of [] opened x h = absurd cc
materialized_of (t ∷ ts) opened x h = elim (Bool-cases (is_word t (codes "NOT"))) [
  | inl e ↦
      let (u, (split, f)) =
        word_of (codes "MATERIALIZED") ts (token token_open x ∷ opened)
          (rw (e, past_materialized) at h) in
      subst (λ l. PastMaterialized (t ∷ l) (token token_open x ∷ opened)) (sym split)
        (not_materialized t u e f)
  | inr e ↦ elim (Bool-cases (is_word t (codes "MATERIALIZED"))) [
    | inl f ↦
        subst (PastMaterialized (t ∷ ts)) (some_inj (rw (e, f, past_materialized) at h))
          (materialized t f)
    | inr f ↦
        subst (λ l. PastMaterialized l (token token_open x ∷ opened))
          (sym (some_inj (rw (e, f, past_materialized) at h))) (unsaid x)
  ]
]

open_of :
    (ts rest : List Token)
    → past_open ts ≡ some rest
    → (x : Bytes) × (ts ≡ token token_open x ∷ rest)
unfolding past_open
open_of (token token_open x ∷ ts) rest h = (x, ap (◌∷◌ (token token_open x)) (some_inj h))
open_of [] rest h = absurd cc
open_of (token token_word x ∷ ts) rest h = absurd cc
open_of (token token_close x ∷ ts) rest h = absurd cc
open_of (token token_comma x ∷ ts) rest h = absurd cc
open_of (token token_opaque x ∷ ts) rest h = absurd cc

pub definition_sound :
    (ts inside rest : List Token) → definition ts ≡ some (inside, rest) → Definition ts inside rest
unfolding definition
definition_sound ts inside rest h =
    let (named, h1, e1) = and_then-eq-some (past_name ts) _ h in
    let (headed, h2, e2) = and_then-eq-some (past_columns named) _ e1 in
    let (told, h3, e3) = and_then-eq-some (past_word (codes "AS") headed) _ e2 in
    let (stored, h4, e4) = and_then-eq-some (past_materialized told) _ e3 in
    let (opened, h5, e5) = and_then-eq-some (past_open stored) _ e4 in
    let (n, (begins, names)) = name_of ts named h1 in
    let (a, (at_as, says)) = word_of (codes "AS") headed told h3 in
    let (x, at_open) = open_of stored opened h5 in
    let (nested, (y, ends)) = parenthesized-Nested opened inside rest e5 in
    record {
      name = n;
      named = named;
      as_word = a;
      told = told;
      open_text = x;
      opened = opened;
      close_text = y;
      begins = begins;
      names = names;
      past_columns = subst (PastColumns named) at_as (columns_of named headed h2);
      says_as = says;
      past_materialized = materialized_of told opened x (h4 ∙ ap some at_open);
      ends = ends;
      nested = nested;
    }

of_name : (n : Token) (ts : List Token) → is_name n ≡ true → past_name (n ∷ ts) ≡ some ts
unfolding past_name
of_name (token token_word x) ts e = refl
of_name (token token_opaque x) ts e = refl
of_name (token token_open x) ts e = absurd cc
of_name (token token_close x) ts e = absurd cc
of_name (token token_comma x) ts e = absurd cc

of_word :
    (want : Bytes) (t : Token) (ts : List Token)
    → is_word t want ≡ true
    → past_word want (t ∷ ts) ≡ some ts
unfolding past_word
of_word want t ts e = rw e refl

-- `MATERIALIZED` is not `NOT`.
no_not : (t : Token) → is_word t (codes "MATERIALIZED") ≡ true → is_word t (codes "NOT") ≡ false
unfolding is_word equal
no_not (token token_word s) e = let same = (equal_iff s (codes "MATERIALIZED")).0 e in rw same refl
no_not (token token_open x) e = refl
no_not (token token_close x) e = refl
no_not (token token_comma x) e = refl
no_not (token token_opaque x) e = refl

of_materialized :
    (ts rest : List Token) → PastMaterialized ts rest → past_materialized ts ≡ some rest
unfolding past_materialized is_word
of_materialized ts rest (unsaid x) = refl
of_materialized ts rest (materialized t e) = rw (no_not t e, e, past_materialized) refl
of_materialized ts rest (not_materialized t u e f) =
    rw (e, past_materialized) (of_word (codes "MATERIALIZED") u rest f)

pub definition_complete :
    (ts inside rest : List Token) → Definition ts inside rest → definition ts ≡ some (inside, rest)
unfolding definition past_open
definition_complete ts inside rest d =
    and_then-some (past_name ts) _ d.named (ap past_name d.begins ∙ of_name d.name d.named d.names)
    ∙ and_then-some (past_columns d.named) _ (d.as_word ∷ d.told)
        (of_columns d.named (d.as_word ∷ d.told) d.past_columns)
    ∙ and_then-some (past_word (codes "AS") (d.as_word ∷ d.told)) _ d.told
        (of_word (codes "AS") d.as_word d.told d.says_as)
    ∙ and_then-some (past_materialized d.told) _ (token token_open d.open_text ∷ d.opened)
        (of_materialized d.told (token token_open d.open_text ∷ d.opened) d.past_materialized)
    ∙ ap parenthesized d.ends
    ∙ Nested-parenthesized d.close_text rest d.nested
