-- ===== src/Page/Keyset/Selects.antt =====
-- The keyset predicate of page.go against the order of the rows.
use rasql.Prelude.{
  ◌≡◌, ◌≢◌, refl, sym, subst, ◌∙◌, ap, Bool, true, false, ◌&&◌, ◌||◌, Option, none, some, List, [],
  ◌∷◌, ◌++◌, length, ok, guard, >>=-eq-ok, ok_inj, arith, Option-cases, inl, inr,
}
use rasql.Cursorcodec.Value.{GoValue}
use rasql.Page.{
  PageDirection, page_ascending, page_descending, NullOrder, null_order_default, nulls_first,
  nulls_last, missing_non_null_value, PageKey,
}
use rasql.Page.Keyset.{
  Condition, is_not_null, and_all, DecodedCursor, KeysetPredicate, conditions, prior_part,
  prior_parts, comparison, when_nulls_first, with_nulls, part_of, current_part, branch_of,
  with_branch, branches, joined, keyset_predicate, is_present,
}
use rasql.Page.Keyset.Reading.{
  Truth, truth_and, truth_or, is_holds, is_nulls_first, is_nulls_last, is_none, compared,
  order_after, key_ties, evaluate, evaluate_all, evaluate_any, selects, row_after,
}

module _ (less same : GoValue → GoValue → Bool) where
  -- The comparison of a key that is not NULL.
  abbrev beyond : PageDirection → GoValue → Option GoValue → Bool
  beyond direction v none = false
  beyond page_ascending v (some u) = less v u
  beyond page_descending v (some u) = less u v

  order_after-beyond :
      (nulls : NullOrder) (direction : PageDirection) (v : GoValue) (x : Option GoValue)
      → order_after less same nulls direction (some v) x
        ≡ ((is_nulls_last nulls && is_none x) || beyond direction v x)
  unfolding order_after
  order_after-beyond nulls direction v none = ground arith
  order_after-beyond nulls page_ascending v (some u) = ground arith
  order_after-beyond nulls page_descending v (some u) = ground arith

is_holds-truth_and : (s t : Truth) → is_holds (truth_and s t) ≡ (is_holds s && is_holds t)
is_holds-truth_and s t = ground arith

is_holds-truth_or : (s t : Truth) → is_holds (truth_or s t) ≡ (is_holds s || is_holds t)
is_holds-truth_or s t = ground arith

module _ {R : Type 0} (less same : GoValue → GoValue → Bool) where
  accepts : Condition R → R → Bool
  unfolding evaluate
  accepts c row = is_holds (evaluate less same c row)

  all_accept : List (Condition R) → R → Bool
  all_accept [] row = true
  all_accept (c ∷ cs) row = accepts c row && all_accept cs row

  any_accepts : List (Condition R) → R → Bool
  any_accepts [] row = false
  any_accepts (c ∷ cs) row = accepts c row || any_accepts cs row

  evaluate_all-holds :
      (cs : List (Condition R)) (row : R)
      → is_holds (evaluate_all less same (conditions cs) row) ≡ all_accept cs row
  unfolding evaluate_all all_accept accepts
  evaluate_all-holds [] row = refl
  evaluate_all-holds (c ∷ cs) row =
      is_holds-truth_and (evaluate less same c row) (evaluate_all less same (conditions cs) row)
      ∙ ap (λ b. is_holds (evaluate less same c row) && b) (evaluate_all-holds cs row)

  evaluate_any-holds :
      (cs : List (Condition R)) (row : R)
      → is_holds (evaluate_any less same (conditions cs) row) ≡ any_accepts cs row
  unfolding evaluate_any any_accepts accepts
  evaluate_any-holds [] row = refl
  evaluate_any-holds (c ∷ cs) row =
      is_holds-truth_or (evaluate less same c row) (evaluate_any less same (conditions cs) row)
      ∙ ap (λ b. is_holds (evaluate less same c row) || b) (evaluate_any-holds cs row)

  accepts-branch_of :
      (cs : List (Condition R)) (row : R) → accepts (branch_of cs) row ≡ all_accept cs row
  unfolding branch_of accepts all_accept evaluate
  accepts-branch_of [] row = refl
  accepts-branch_of (c ∷ []) row = ground arith
  accepts-branch_of (c ∷ d ∷ cs) row = evaluate_all-holds (c ∷ d ∷ cs) row

  all_accept-append :
      (cs ds : List (Condition R)) (row : R)
      → all_accept (cs ++ ds) row ≡ (all_accept cs row && all_accept ds row)
  unfolding all_accept
  all_accept-append [] ds row = refl
  all_accept-append (c ∷ cs) ds row = ground (arith, all_accept-append cs ds row)

  selects-joined :
      (cs : List (Condition R)) (row : R) → selects less same (joined cs) row ≡ any_accepts cs row
  unfolding selects joined any_accepts accepts evaluate
  selects-joined [] row = refl
  selects-joined (c ∷ []) row = ground arith
  selects-joined (c ∷ d ∷ cs) row = evaluate_any-holds (c ∷ d ∷ cs) row

  -- The priors tie with the cursor.
  ties_all : List (PageKey R × DecodedCursor) → R → Bool
  ties_all [] row = true
  ties_all ((key, c) ∷ priors) row = key_ties less same c (key.node row) && ties_all priors row

  accepts-prior_part :
      (key : PageKey R) (c : DecodedCursor) (row : R)
      → accepts (prior_part key c) row ≡ key_ties less same c (key.node row)
  unfolding accepts prior_part key_ties evaluate compared
  accepts-prior_part key none row = elim (Option-cases (key.node row)) [
    | inl e ↦ rw e refl
    | inr (v, e) ↦ rw e refl
  ]
  accepts-prior_part key (some u) row = elim (Option-cases (key.node row)) [
    | inl e ↦ rw e refl
    | inr (v, e) ↦ rw e (ground arith)
  ]

  all_accept-prior_parts :
      (priors : List (PageKey R × DecodedCursor)) (row : R)
      → all_accept (prior_parts priors) row ≡ ties_all priors row
  unfolding all_accept prior_parts ties_all
  all_accept-prior_parts [] row = refl
  all_accept-prior_parts ((key, c) ∷ priors) row =
      rw (accepts-prior_part key c row, all_accept-prior_parts priors row) refl

  ties_all-append :
      (priors : List (PageKey R × DecodedCursor)) (key : PageKey R) (c : DecodedCursor) (row : R)
      → ties_all (priors ++ (key, c) ∷ []) row
        ≡ (ties_all priors row && key_ties less same c (key.node row))
  unfolding ties_all
  ties_all-append [] key c row = ground arith
  ties_all-append ((k, d) ∷ priors) key c row = ground (arith, ties_all-append priors key c row)

  -- What a branch that may be missing accepts.
  may_accept : Option (Condition R) → R → Bool
  may_accept none row = false
  may_accept (some c) row = accepts c row

  accepts-when_nulls_first :
      (nulls : NullOrder) (c : Condition R) (row : R)
      → may_accept (when_nulls_first nulls c) row ≡ (is_nulls_first nulls && accepts c row)
  unfolding may_accept
  accepts-when_nulls_first nulls_first c row = refl
  accepts-when_nulls_first nulls_last c row = refl
  accepts-when_nulls_first null_order_default c row = refl

  accepts-with_nulls :
      (nulls : NullOrder) (node : R → Option GoValue) (c : Condition R) (row : R)
      → accepts (with_nulls nulls node c) row
        ≡ ((is_nulls_last nulls && is_none (node row)) || accepts c row)
  unfolding accepts evaluate
  accepts-with_nulls nulls_last node c row = ground arith
  accepts-with_nulls nulls_first node c row = refl
  accepts-with_nulls null_order_default node c row = refl

  accepts-comparison :
      (direction : PageDirection) (node : R → Option GoValue) (v : GoValue) (row : R)
      → accepts (and_all (conditions (is_not_null node ∷ comparison direction node v ∷ []))) row
        ≡ beyond less same direction v (node row)
  unfolding accepts evaluate compared
  accepts-comparison page_ascending node v row = elim (Option-cases (node row)) [
    | inl e ↦ rw e refl
    | inr (u, e) ↦ rw e (ground arith)
  ]
  accepts-comparison page_descending node v row = elim (Option-cases (node row)) [
    | inl e ↦ rw e refl
    | inr (u, e) ↦ rw e (ground arith)
  ]

  null_order :
      (nulls : NullOrder) (direction : PageDirection) (node : R → Option GoValue) (row : R)
      → (is_nulls_first nulls && accepts (is_not_null node) row)
        ≡ order_after less same nulls direction none (node row)
  unfolding accepts evaluate order_after
  null_order nulls direction node row = elim (Option-cases (node row)) [
    | inl e ↦ rw e (ground arith)
    | inr (v, e) ↦ rw e (ground arith)
  ]

  may_accept-part_of :
      (nulls : NullOrder) (direction : PageDirection) (node : R → Option GoValue)
      (c : DecodedCursor) (row : R)
      → may_accept (part_of nulls direction node c) row
        ≡ order_after less same nulls direction c (node row)
  unfolding may_accept part_of
  may_accept-part_of nulls direction node none row =
      accepts-when_nulls_first nulls (is_not_null node) row ∙ null_order nulls direction node row
  may_accept-part_of nulls direction node (some v) row =
      accepts-with_nulls nulls node _ row
      ∙ ap (λ b. (is_nulls_last nulls && is_none (node row)) || b)
          (accepts-comparison direction node v row)
      ∙ sym (order_after-beyond less same nulls direction v (node row))

  any_accepts-with_branch :
      (priors : List (PageKey R × DecodedCursor)) (o : Option (Condition R))
      (rest : List (Condition R)) (row : R)
      → any_accepts (with_branch (prior_parts priors) o rest) row
        ≡ ((ties_all priors row && may_accept o row) || any_accepts rest row)
  unfolding any_accepts may_accept all_accept
  any_accepts-with_branch priors none rest row = ground arith
  any_accepts-with_branch priors (some c) rest row =
      rw
        (
          accepts-branch_of (prior_parts priors ++ c ∷ []) row,
          all_accept-append (prior_parts priors) (c ∷ []) row,
          all_accept-prior_parts priors row,
        )
        (ground arith)

  any_accepts-branches :
      (priors : List (PageKey R × DecodedCursor)) (keys : List (PageKey R))
      (cursors : List DecodedCursor) (row : R) {cs : List (Condition R)}
      → length cursors ≡ length keys
      → branches priors keys cursors ≡ ok cs
      → any_accepts cs row ≡ (ties_all priors row && row_after less same keys cursors row)
  unfolding branches any_accepts row_after
  any_accepts-branches priors [] [] row e h =
      let none_left : any_accepts [] row ≡ (ties_all priors row && false) = ground arith in
      subst (λ cs. any_accepts cs row ≡ (ties_all priors row && false)) (ok_inj h) none_left
  any_accepts-branches priors [] (c ∷ cursors) row e h = absurd (omega arith)
  any_accepts-branches priors (key ∷ keys) [] row e h = absurd cc
  any_accepts-branches priors (key ∷ keys) (c ∷ cursors) row e h =
      let (_, checked, h1) =
        >>=-eq-ok (guard (is_present c || key.nullable) missing_non_null_value) _ h in
      let (rest, looped, h2) = >>=-eq-ok (branches (priors ++ (key, c) ∷ []) keys cursors) _ h1 in
      let later =
        any_accepts-branches (priors ++ (key, c) ∷ []) keys cursors row (omega arith) looped in
      let split = any_accepts-with_branch priors (current_part key c) rest row in
      let current = may_accept-part_of key.nulls key.direction key.node c row in
      let tied = ties_all-append priors key c row in
      subst
        (λ cs.
          any_accepts cs row
          ≡ (ties_all priors row && row_after less same (key ∷ keys) (c ∷ cursors) row))
        (ok_inj h2) (split ∙ rw (current, later, tied) (ground arith))

  -- Where `keysetPredicate` gives a predicate for a cursor of one value per key, the database keeps
  -- a row under it exactly where `ORDER BY` puts the row behind the cursor: later in the first key
  -- that does not tie, with NULLs first or last as the key says.
  pub selects-keyset_predicate :
      (keys : List (PageKey R)) (cursors : List DecodedCursor) (row : R) {p : KeysetPredicate R}
      → length cursors ≡ length keys
      → cursors ≢ []
      → keyset_predicate keys cursors ≡ ok p
      → selects less same p row ≡ row_after less same keys cursors row
  unfolding keyset_predicate row_after ties_all
  selects-keyset_predicate keys [] row e never h = absurd (never refl)
  selects-keyset_predicate keys (c ∷ cursors) row e _ h =
      let (cs, looped, h1) = >>=-eq-ok (branches [] keys (c ∷ cursors)) _ h in
      subst (λ p. selects less same p row ≡ row_after less same keys (c ∷ cursors) row) (ok_inj h1)
        (selects-joined cs row ∙ any_accepts-branches [] keys (c ∷ cursors) row e looped)
