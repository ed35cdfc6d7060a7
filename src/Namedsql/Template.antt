-- ===== src/Namedsql/Template.antt =====
-- namedsql/namedsql.go: the templates that `Parse` returns are well formed.
use rasql.Prelude.{
  ok_inj, ℕ, zero, suc, ◌+◌, ◌≡◌, refl, sym, ap, subst, ◌∙◌, append-nil, true, not, ◌&&◌, Option,
  List, [], ◌∷◌, ◌++◌, length, take, drop, Bytes, codes, equal, index_of, All, All-append, ok, err,
  guard, >>=-eq-ok, Bool-cases, Option-cases, inl, inr,
}
use rasql.Unicode.{is_blank}
use rasql.Namedsql.Fields.{fields, is_simple_identifier}
use rasql.Namedsql.Parse.{
  ColumnRef, same_ref, is_stated, text_part, bind_part, Template, empty_name, empty_source,
  two_columns, column_or_none, bad_action, unquoted_parameter, invalid_parameter, unclosed_action,
  seen_ref, see_parameter, add_text, add_bind, parameter_name, bind_action, parse_bind_action,
  parse_column_ref, parse_from, parse,
}
use rasql.Namedsql.Names.{
  bind_indices, count_up, Distinct, Within, bind_indices-append, count_up_next, length_snoc,
  contains_name_last, Distinct-snoc, seen_ref-none, seen_ref-some, Within-snoc,
}

-- The bind parts index the parameters one after another; the unique names are the parameters'
-- names, each once, with as many column references; and each is a simple identifier.
abbrev pub IsWellFormed : Template → Type 0
IsWellFormed t =
    (bind_indices t.parts ≡ count_up 0 (length t.parameters))
    × (length t.unique_names ≡ length t.column_refs)
    × Distinct t.unique_names
    × Within t.unique_names t.parameters
    × Within t.parameters t.unique_names
    × All (λ n. is_simple_identifier n ≡ true) t.parameters

add_text-IsWellFormed :
    (text : Bytes) (t : Template) → IsWellFormed t → IsWellFormed (add_text text t)
unfolding add_text
add_text-IsWellFormed [] t w = w
add_text-IsWellFormed (c ∷ cs) t (order, same, distinct, named, used, all) = (
  bind_indices-append t.parts (text_part (c ∷ cs) ∷ []) ∙ append-nil _ ∙ order,
  same,
  distinct,
  named,
  used,
  all,
)

add_bind-IsWellFormed :
    (p : Bytes) (r : ColumnRef) (t t' : Template)
    → is_simple_identifier p ≡ true
    → IsWellFormed t
    → add_bind p r t ≡ ok t'
    → IsWellFormed t'
unfolding add_bind see_parameter
add_bind-IsWellFormed p r t t' simple (order, same, distinct, named, used, all) h =
    let order' =
      bind_indices-append t.parts (bind_part (length t.parameters) ∷ [])
      ∙ ap (λ l. l ++ length t.parameters ∷ []) order
      ∙ count_up_next t.parameters p in
    let all' = All-append _ t.parameters (p ∷ []) all (simple, tt) in
    elim (Option-cases (seen_ref p t.unique_names t.column_refs)) [
      | inl e ↦
          let fresh = seen_ref-none p t.unique_names t.column_refs same e in
          let longer =
            length_snoc t.unique_names p ∙ ap suc same ∙ sym (length_snoc t.column_refs r) in
          subst IsWellFormed (ok_inj (rw (e, add_bind, see_parameter) at h)) (
            order',
            longer,
            Distinct-snoc t.unique_names p distinct fresh,
            All-append _ t.parameters (p ∷ []) (Within-snoc t.unique_names t.parameters p named)
                (contains_name_last t.unique_names p, tt),
            All-append _ t.unique_names (p ∷ []) (Within-snoc t.parameters t.unique_names p used)
                (contains_name_last t.parameters p, tt),
            all',
          )
      | inr (q, e) ↦ elim (Bool-cases (same_ref q r)) [
        | inl f ↦ subst IsWellFormed (ok_inj (rw (e, f, add_bind, see_parameter) at h)) (
          order',
          same,
          distinct,
          All-append _ t.parameters (p ∷ []) named
              (seen_ref-some p t.unique_names t.column_refs q e, tt),
          Within-snoc t.parameters t.unique_names p used,
          all',
        )
        | inr f ↦ elim (Bool-cases (is_stated q && is_stated r)) [
          | inl g ↦
              let never : err (two_columns p) ≡ ok t' =
                rw (e, f, g, add_bind, see_parameter) at h in
              absurd cc
          | inr g ↦
              let never : err (column_or_none p) ≡ ok t' =
                rw (e, f, g, add_bind, see_parameter) at h in
              absurd cc
        ]
      ]
    ]

module _ (unquote : Bytes → Option Bytes) where
  parameter_name_simple :
      (quoted name : Bytes)
      → parameter_name unquote quoted ≡ ok name
      → is_simple_identifier name ≡ true
  unfolding parameter_name
  parameter_name_simple quoted name h = elim (Option-cases (unquote quoted)) [
    | inl e ↦
        let never : err unquoted_parameter ≡ ok name = rw (e, parameter_name) at h in absurd cc
    | inr (n, e) ↦ elim (Bool-cases (is_simple_identifier n)) [
      | inl f ↦
          subst (λ m. is_simple_identifier m ≡ true) (ok_inj (rw (e, f, parameter_name) at h)) f
      | inr f ↦
          let never : err (invalid_parameter n) ≡ ok name = rw (e, f, parameter_name) at h in
          absurd cc
    ]
  ]

  bind_action_simple :
      (fs : List Bytes) (name : Bytes) (ref : ColumnRef)
      → bind_action unquote fs ≡ ok (name, ref)
      → is_simple_identifier name ≡ true
  unfolding bind_action
  bind_action_simple (word ∷ quoted ∷ []) name ref h =
      let (u, h0, h1) = >>=-eq-ok (guard (equal word (codes "bind")) bad_action) _ h in
      let (n, found, h2) = >>=-eq-ok (parameter_name unquote quoted) _ h1 in
      let same : n ≡ name = cc in
      subst (λ m. is_simple_identifier m ≡ true) same (parameter_name_simple quoted n found)
  bind_action_simple (word ∷ quoted ∷ column ∷ []) name ref h =
      let (u, h0, h1) = >>=-eq-ok (guard (equal word (codes "bind")) bad_action) _ h in
      let (n, found, h2) = >>=-eq-ok (parameter_name unquote quoted) _ h1 in
      let (r, column, h3) = >>=-eq-ok (parse_column_ref column) _ h2 in
      let same : n ≡ name = cc in
      subst (λ m. is_simple_identifier m ≡ true) same (parameter_name_simple quoted n found)
  bind_action_simple _ name ref h = absurd cc

  parse_bind_action_simple :
      (action name : Bytes) (ref : ColumnRef)
      → parse_bind_action unquote action ≡ ok (name, ref)
      → is_simple_identifier name ≡ true
  unfolding parse_bind_action
  parse_bind_action_simple action name ref h = bind_action_simple (fields action) name ref h

  parse_from-IsWellFormed :
      (fuel : ℕ) (t t' : Template) (s : Bytes)
      → IsWellFormed t
      → parse_from unquote fuel t s ≡ ok t'
      → IsWellFormed t'
  unfolding parse_from
  parse_from-IsWellFormed fuel t t' [] w h = subst IsWellFormed (ok_inj h) w
  parse_from-IsWellFormed zero t t' (c ∷ cs) w h = absurd cc
  parse_from-IsWellFormed (suc fuel) t t' (c ∷ cs) w h =
      elim (Option-cases (index_of (c ∷ cs) (codes "{{"))) [
        | inl e ↦
            subst IsWellFormed (ok_inj (rw (e, parse_from) at h))
              (add_text-IsWellFormed (c ∷ cs) t w)
        | inr (start, e) ↦ elim (Option-cases (index_of (drop (start + 2) (c ∷ cs)) (codes "}}"))) [
          | inl f ↦
              let never : err unclosed_action ≡ ok t' = rw (e, f, parse_from) at h in absurd cc
          | inr (end, f) ↦
              let ((name, ref), action, h1) =
                >>=-eq-ok (parse_bind_action unquote (take end (drop (start + 2) (c ∷ cs)))) _
                  (rw (e, f, parse_from) at h) in
              let (bound, added, h2) =
                >>=-eq-ok (add_bind name ref (add_text (take start (c ∷ cs)) t)) _ h1 in
              parse_from-IsWellFormed fuel bound t' _
                (add_bind-IsWellFormed name ref _ bound
                  (parse_bind_action_simple (take end (drop (start + 2) (c ∷ cs))) name ref action)
                  (add_text-IsWellFormed (take start (c ∷ cs)) t w) added)
                h2
        ]
      ]

  -- The templates of `Parse`: their bind parts index the parameters one after another; the unique
  -- names are the names of the parameters, each once, with as many column references; and each is a
  -- simple identifier.
  pub parse-IsWellFormed :
      (name source : Bytes) (t : Template) → parse unquote name source ≡ ok t → IsWellFormed t
  unfolding parse
  parse-IsWellFormed name source t h =
      let (u, named, h1) = >>=-eq-ok (guard (not (equal name [])) empty_name) _ h in
      let (v, filled, h2) = >>=-eq-ok (guard (not (is_blank source)) empty_source) _ h1 in
      parse_from-IsWellFormed (length source) _ t source (refl, refl, tt, tt, tt, tt) h2
