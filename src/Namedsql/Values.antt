-- ===== src/Namedsql/Values.antt =====
-- namedsql/namedsql.go: what `Compile` renders, and which values `Bind` takes.
use rasql.Prelude.{
  ok_inj, ℕ, zero, suc, ◌+◌, ◌<◌, ◌≡◌, refl, ap, subst, ◌∙◌, ◌↔◌, true, false, ◌||◌, ◌==◌, Option,
  some, List, [], ◌∷◌, ◌++◌, length, get_elem?, Bytes, equal, All, Result, ok, err, Bool-cases,
  Option-cases, Result-cases, inl, inr, arith,
}
use rasql.Unicode.{is_blank}
use rasql.Namedsql.Parse.{TemplatePart, text_part, bind_part, Template}
use rasql.Namedsql.Compile.{
  Compiled, placeholders_from, part_text, render_parts, compile, contains_name, BindError,
  missing_value, unused_value, value_of, bind_args, check_used, bind,
}
use rasql.Namedsql.Names.{bind_indices, count_up}
use rasql.Namedsql.Template.{IsWellFormed}

module _ {A : Type 0} where
  -- The arguments are the values of the parameters, one each, in order.
  abbrev pub Supplied : List (Bytes × A) → List Bytes → List A → Type 0
  Supplied values [] [] = Unit
  Supplied values [] (a ∷ args) = ⊥
  Supplied values (p ∷ ps) [] = ⊥
  Supplied values (p ∷ ps) (a ∷ args) = (value_of values p ≡ some a) × Supplied values ps args

  bind_args-Supplied :
      (values : List (Bytes × A)) (ps : List Bytes) (args : List A)
      → bind_args values ps ≡ ok args
      → Supplied values ps args
  unfolding bind_args
  bind_args-Supplied values [] [] h = tt
  bind_args-Supplied values [] (a ∷ args) h = absurd cc
  bind_args-Supplied values (p ∷ ps) args h = elim (Option-cases (value_of values p)) [
    | inl e ↦ let never : err (missing_value p) ≡ ok args = rw (e, bind_args) at h in absurd cc
    | inr (v, e) ↦ elim (Result-cases (bind_args values ps)) [
      | inr (x, f) ↦ let never : err x ≡ ok args = rw (e, f, bind_args) at h in absurd cc
      | inl (rest, f) ↦
          let same : (v ∷ rest) ≡ args = ok_inj (rw (e, f, bind_args) at h) in
          subst (Supplied values (p ∷ ps)) same (e, bind_args-Supplied values ps rest f)
    ]
  ]

  Supplied-bind_args :
      (values : List (Bytes × A)) (ps : List Bytes) (args : List A)
      → Supplied values ps args
      → bind_args values ps ≡ ok args
  unfolding bind_args
  Supplied-bind_args values [] [] h = refl
  Supplied-bind_args values [] (a ∷ args) h = absurd h
  Supplied-bind_args values (p ∷ ps) [] h = absurd h
  Supplied-bind_args values (p ∷ ps) (a ∷ args) (e, h) =
      rw (e, Supplied-bind_args values ps args h, bind_args) refl

  -- Every key of the values is one of some names.
  abbrev pub Used : List Bytes → List (Bytes × A) → Type 0
  Used names = All λ v. contains_name names v.0 ≡ true

  check_used-Used :
      (names : List Bytes) (values : List (Bytes × A))
      → check_used names values ≡ ok tt
      → Used names values
  unfolding check_used
  check_used-Used names [] h = tt
  check_used-Used names ((key, value) ∷ values) h = elim (Bool-cases (contains_name names key)) [
    | inl e ↦ (e, check_used-Used names values (rw (e, check_used) at h))
    | inr e ↦ let never : err (unused_value key) ≡ ok tt = rw (e, check_used) at h in absurd cc
  ]

  Used-check_used :
      (names : List Bytes) (values : List (Bytes × A))
      → Used names values
      → check_used names values ≡ ok tt
  unfolding check_used
  Used-check_used names [] h = refl
  Used-check_used names ((key, value) ∷ values) (e, h) = rw e (Used-check_used names values h)

  bind-Supplied :
      (c : Compiled) (values : List (Bytes × A)) (sql : Bytes) (args : List A)
      → (equal c.name [] || is_blank c.sql) ≡ false
      → bind c values ≡ ok (sql, args)
      → (c.sql ≡ sql) × Supplied values c.parameters args × Used c.unique_names values
  unfolding bind
  bind-Supplied c values sql args valid h = elim (Result-cases (bind_args values c.parameters)) [
    | inr (x, e) ↦
        let never : ◌≡◌ {A = Result BindError (Bytes × List A)} (err x) (ok (sql, args)) =
          rw (valid, e, bind) at h in
        absurd cc
    | inl (given, e) ↦ elim (Result-cases (check_used c.unique_names values)) [
      | inr (x, f) ↦
          let never : ◌≡◌ {A = Result BindError (Bytes × List A)} (err x) (ok (sql, args)) =
            rw (valid, e, f, bind) at h in
          absurd cc
      | inl (u, f) ↦
          let same : (c.sql, given) ≡ (sql, args) = ok_inj (rw (valid, e, f, bind) at h) in
          (
            ap (λ p. p.0) same,
            subst (Supplied values c.parameters) (ap (λ p. p.1) same)
                (bind_args-Supplied values c.parameters given e),
            check_used-Used c.unique_names values f,
          )
    ]
  ]

  Supplied-bind :
      (c : Compiled) (values : List (Bytes × A)) (sql : Bytes) (args : List A)
      → (equal c.name [] || is_blank c.sql) ≡ false
      → (c.sql ≡ sql) × Supplied values c.parameters args × Used c.unique_names values
      → bind c values ≡ ok (sql, args)
  unfolding bind
  Supplied-bind c values sql args valid (same, s, u) =
      rw
        (
          valid,
          Supplied-bind_args values c.parameters args s,
          Used-check_used c.unique_names values u,
          bind,
        )
        (ap (λ t. ok (t, args)) same)

  -- `Bind` on a template that is named and whose text is not blank: it returns the template's text,
  -- whatever the values are, with the values of the parameters in placeholder order, exactly where
  -- each parameter has a value and each value a parameter.
  pub bind_iff :
      (c : Compiled) (values : List (Bytes × A)) (sql : Bytes) (args : List A)
      → (equal c.name [] || is_blank c.sql) ≡ false
      → (bind c values ≡ ok (sql, args))
        ↔ ((c.sql ≡ sql) × Supplied values c.parameters args × Used c.unique_names values)
  bind_iff c values sql args valid =
      (bind-Supplied c values sql args valid, Supplied-bind c values sql args valid)

-- The text of a template with a text for each position in place of the bind parts.
abbrev pub inlined : (ℕ → Bytes) → ℕ → List TemplatePart → Bytes
inlined text position [] = []
inlined text position (text_part t ∷ parts) = t ++ inlined text position parts
inlined text position (bind_part index ∷ parts) = text position ++ inlined text (position + 1) parts

abbrev texts_from : (ℕ → Bytes) → ℕ → ℕ → List Bytes
texts_from text position zero = []
texts_from text position (suc n) = text position ∷ texts_from text (position + 1) n

module _ (placeholder : ℕ → Option Bytes) (text : ℕ → Bytes)
    (each : (position : ℕ) → placeholder (position + 1) ≡ some (text (position + 1))) where
  all_placeholders :
      (position : ℕ) (ps : List Bytes)
      → placeholders_from placeholder (position + 1) ps
        ≡ ok (texts_from text (position + 1) (length ps))
  unfolding placeholders_from
  all_placeholders position [] = refl
  all_placeholders position (p ∷ ps) =
      rw (each position, all_placeholders (position + 1) ps, placeholders_from) refl

get_text :
    (text : ℕ → Bytes) (position n i : ℕ)
    → i < n
    → get_elem? (texts_from text position n) i ≡ some (text (position + i))
get_text text position zero i h = absurd (omega arith)
get_text text position (suc n) zero h =
    let e : position ≡ position + 0 = omega arith in ap (λ p. some (text p)) e
get_text text position (suc n) (suc i) h =
    let e : position + 1 + i ≡ position + suc i = omega arith in
    get_text text (position + 1) n i (omega arith) ∙ ap (λ p. some (text p)) e

render_texts :
    (text : ℕ → Bytes) (n : ℕ) (parts : List TemplatePart) (i m : ℕ)
    → bind_indices parts ≡ count_up i m
    → i + m ≡ n
    → render_parts (texts_from text 1 n) parts ≡ ok (inlined text (i + 1) parts)
unfolding render_parts
render_texts text n [] i m order fits = refl
render_texts text n (text_part t ∷ parts) i m order fits =
    rw (render_texts text n parts i m order fits) refl
render_texts text n (bind_part index ∷ parts) i zero order fits = absurd cc
render_texts text n (bind_part index ∷ parts) i (suc m) order fits =
    let same : index ≡ i = cc in
    let later : bind_indices parts ≡ count_up (i + 1) m = cc in
    let e : 1 + i ≡ i + 1 = omega arith in
    let here : get_elem? (texts_from text 1 n) index ≡ some (text (i + 1)) =
      rw same (get_text text 1 n i (omega arith) ∙ ap (λ p. some (text p)) e) in
    rw (here, render_texts text n parts (i + 1) m later (omega arith), render_parts, part_text) refl

-- `Compile` on a well-formed template with a name and at least one part, for a dialect that has a
-- placeholder for each position: it does not fail, the text is the template's with the first placeholder in place of the first bind
-- part, the second in place of the second, and so on, and the parameters are the template's.
pub compile_parsed :
    (placeholder : ℕ → Option Bytes) (text : ℕ → Bytes) (t : Template)
    → ((position : ℕ) → placeholder (position + 1) ≡ some (text (position + 1)))
    → (equal t.name [] || length t.parts == 0) ≡ false
    → IsWellFormed t
    → compile placeholder t
      ≡ ok record {
        name = t.name;
        sql = inlined text 1 t.parts;
        parameters = t.parameters;
        unique_names = t.unique_names;
        column_refs = t.column_refs;
      }
unfolding compile
compile_parsed placeholder text t each valid (order, _, _, _, _, _) =
    let given = all_placeholders placeholder text each 0 t.parameters in
    let rendered =
      render_texts text (length t.parameters) t.parts 0 (length t.parameters) order (omega arith) in
    rw (valid, given, rendered) refl
