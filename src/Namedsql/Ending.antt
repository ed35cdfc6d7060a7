-- ===== src/Namedsql/Ending.antt =====
-- namedsql/namedsql.go: the loop of `Parse` ends within its fuel.
use rasql.Prelude.{
  ℕ, zero, suc, ◌+◌, ◌≤◌, ◌≢◌, Bool, true, false, not, ◌&&◌, Option, none, some, List, [], ◌∷◌,
  length, length-drop, take, drop, Bytes, codes, equal, index_of, has_prefix, Result, ok, err,
  ◌>>=◌, guard, Bool-cases, Option-cases, inl, inr, arith,
}
use rasql.Unicode.{is_blank}
use rasql.Namedsql.Fields.{fields, split_from, is_simple_identifier}
use rasql.Namedsql.Parse.{
  ColumnRef, same_ref, is_stated, Template, ParseError, empty_name, empty_source, bad_action,
  quoted_column, invalid_column, not_ended, all_simple, column_ref, parse_column_ref, see_parameter,
  add_text, add_bind, parameter_name, bind_action, parse_bind_action, parse_from, parse,
}

-- A result is not that of a loop that ran out of fuel.
abbrev Ends : {A : Type 0} → Result ParseError A → Type 0
Ends r = r ≢ err not_ended

then-Ends :
    {A B : Type 0} (m : Result ParseError A) (f : A → Result ParseError B)
    → Ends m
    → ((a : A) → Ends (f a))
    → Ends (m >>= f)
then-Ends (err e) f h k = λ g. h cc
then-Ends (ok a) f h k = k a

guard-Ends : (b : Bool) (e : ParseError) → e ≢ not_ended → Ends (guard b e)
guard-Ends true e h = λ g. absurd cc
guard-Ends false e h = λ g. h cc

column_ref-Ends : (parts : List Bytes) → Ends (column_ref parts)
unfolding column_ref
column_ref-Ends (a ∷ b ∷ []) = λ g. absurd cc
column_ref-Ends (a ∷ b ∷ c ∷ []) = λ g. absurd cc
column_ref-Ends [] = λ g. absurd cc
column_ref-Ends (a ∷ []) = λ g. absurd cc
column_ref-Ends (a ∷ b ∷ c ∷ d ∷ ds) = λ g. absurd cc

ok-Ends : {A : Type 0} (a : A) → Ends (ok a)
ok-Ends a = λ g. absurd cc

parse_column_ref-Ends : (text : Bytes) → Ends (parse_column_ref text)
unfolding parse_column_ref
parse_column_ref-Ends text =
    then-Ends _ _ (guard-Ends (not (has_prefix text (b'"' ∷ []))) quoted_column (λ e. absurd cc))
      λ u. then-Ends _ _ (column_ref-Ends (split_from b'.' [] text)) λ ref.
        then-Ends _ _
          (guard-Ends (all_simple (split_from b'.' [] text)) invalid_column (λ e. absurd cc))
          λ v. ok-Ends ref

see_parameter-Ends :
    (p : Bytes) (r : ColumnRef) (o : Option ColumnRef) (t : Template) → Ends (see_parameter p r o t)
unfolding see_parameter
see_parameter-Ends p r none t = λ g. absurd cc
see_parameter-Ends p r (some q) t = elim (Bool-cases (same_ref q r)) [
  | inl e ↦ rw (e, see_parameter) (λ g. absurd cc)
  | inr e ↦ elim (Bool-cases (is_stated q && is_stated r)) [
    | inl f ↦ rw (e, f, see_parameter) (λ g. absurd cc)
    | inr f ↦ rw (e, f, see_parameter) (λ g. absurd cc)
  ]
]

add_bind-Ends : (p : Bytes) (r : ColumnRef) (t : Template) → Ends (add_bind p r t)
unfolding add_bind
add_bind-Ends p r t = see_parameter-Ends p r _ _

module _ (unquote : Bytes → Option Bytes) where
  parameter_name-Ends : (quoted : Bytes) → Ends (parameter_name unquote quoted)
  unfolding parameter_name
  parameter_name-Ends quoted = elim (Option-cases (unquote quoted)) [
    | inl e ↦ rw (e, parameter_name) (λ g. absurd cc)
    | inr (n, e) ↦ elim (Bool-cases (is_simple_identifier n)) [
      | inl f ↦ rw (e, f, parameter_name) (λ g. absurd cc)
      | inr f ↦ rw (e, f, parameter_name) (λ g. absurd cc)
    ]
  ]

  bind_action-Ends : (fs : List Bytes) → Ends (bind_action unquote fs)
  unfolding bind_action
  bind_action-Ends (word ∷ quoted ∷ []) =
      then-Ends _ _ (guard-Ends (equal word (codes "bind")) bad_action (λ e. absurd cc))
        λ u. then-Ends _ _ (parameter_name-Ends quoted) λ name. ok-Ends _
  bind_action-Ends (word ∷ quoted ∷ column ∷ []) =
      then-Ends _ _ (guard-Ends (equal word (codes "bind")) bad_action (λ e. absurd cc)) λ u.
        then-Ends _ _ (parameter_name-Ends quoted)
          λ name. then-Ends _ _ (parse_column_ref-Ends column) λ ref. ok-Ends _
  bind_action-Ends [] = λ g. absurd cc
  bind_action-Ends (a ∷ []) = λ g. absurd cc
  bind_action-Ends (a ∷ b ∷ c ∷ d ∷ ds) = λ g. absurd cc

  parse_bind_action-Ends : (action : Bytes) → Ends (parse_bind_action unquote action)
  unfolding parse_bind_action
  parse_bind_action-Ends action = bind_action-Ends (fields action)

  parse_from-Ends :
      (fuel : ℕ) (t : Template) (s : Bytes) → length s ≤ fuel → Ends (parse_from unquote fuel t s)
  unfolding parse_from
  parse_from-Ends fuel t [] h = ok-Ends t
  parse_from-Ends zero t (c ∷ cs) h = absurd (omega arith)
  parse_from-Ends (suc fuel) t (c ∷ cs) h = elim (Option-cases (index_of (c ∷ cs) (codes "{{"))) [
    | inl e ↦ rw (e, parse_from) (ok-Ends _)
    | inr (start, e) ↦ elim (Option-cases (index_of (drop (start + 2) (c ∷ cs)) (codes "}}"))) [
      | inl f ↦ rw (e, f, parse_from) (λ g. absurd cc)
      | inr (end, f) ↦
          rw (e, f, parse_from)
            (then-Ends _ _ (parse_bind_action-Ends (take end (drop (start + 2) (c ∷ cs)))) λ p.
              then-Ends _ _ (add_bind-Ends p.0 p.1 (add_text (take start (c ∷ cs)) t)) λ t'.
                parse_from-Ends fuel t' (drop (end + 2) (drop (start + 2) (c ∷ cs))) (
                  omega (
                    arith,
                    length-drop (start + 2) (c ∷ cs),
                    length-drop (end + 2) (drop (start + 2) (c ∷ cs)),
                  )))
    ]
  ]

  -- `Parse` ends: with the length of the source as fuel its loop never runs out of it.
  pub parse-Ends : (name source : Bytes) → parse unquote name source ≢ err not_ended
  unfolding parse
  parse-Ends name source =
      then-Ends _ _ (guard-Ends (not (equal name [])) empty_name (λ e. absurd cc)) λ u.
        then-Ends _ _ (guard-Ends (not (is_blank source)) empty_source (λ e. absurd cc))
          λ v. parse_from-Ends (length source) _ source (omega arith)
