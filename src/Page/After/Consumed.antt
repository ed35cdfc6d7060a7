-- ===== src/Page/After/Consumed.antt =====
-- The loop of `consumePreparedPage` of page.go on rows that arrive without an error.
use rasql.Prelude.{
  ◌≡◌, sym, ap, ◌∙◌, ℕ, suc, ◌+◌, ◌-◌, take-nil, ◌≤◌, true, false, List, [], ◌∷◌, ◌++◌, append-nil,
  append_assoc, ltb, ltb→lt, ==_iff, length, length-append, take, Bool-cases, inl, inr, Result, ok,
  pos, arith,
}
use rasql.Page.{PageError}
use rasql.Page.After.{consume_rows}

module _ {R : Type 0} where
  abbrev pub arrived : List R → List (Result PageError R)
  arrived [] = []
  arrived (row ∷ rows) = ok row ∷ arrived rows

  consume_rows-arrived_from :
      (n : ℕ) (values rows : List R)
      → length values ≤ n
      → consume_rows (pos n) (λ _ _. ok tt) values (arrived rows)
        ≡ ok (values ++ take (n - length values) rows, ltb n (length values + length rows))
  unfolding consume_rows
  consume_rows-arrived_from n values [] h =
      let all : false ≡ ltb n (length values + 0) = ground arith in
      rw (take-nil (n - length values), append-nil values) (λ i. ok (values, all i))
  consume_rows-arrived_from n values (row ∷ rows) h = elim (Bool-cases (ltb (length values) n)) [
    | inl more ↦
        let size : length (values ++ row ∷ []) ≡ suc (length values) =
          omega (arith, length-append values (row ∷ [])) in
        let room = ltb→lt (length values) n more in
        let step : (n - length values) ≡ suc (n - length (values ++ row ∷ [])) = omega arith in
        let later = consume_rows-arrived_from n (values ++ row ∷ []) rows (omega arith) in
        let kept : ((values ++ row ∷ []) ++ take (n - length (values ++ row ∷ [])) rows)
            ≡ (values ++ take (n - length values) (row ∷ rows)) =
          append_assoc values (row ∷ []) _ ∙ ap (λ k. values ++ take k (row ∷ rows)) (sym step) in
        let left : ltb n (length (values ++ row ∷ []) + length rows)
            ≡ ltb n (length values + suc (length rows)) =
          ap (ltb n) (omega arith) in
        rw (more, later) (λ i. ok (kept i, left i))
    | inr full ↦
        let same : length values ≡ n = ground arith in
        let none_left : (n - length values) ≡ 0 = omega arith in
        let more : true ≡ ltb n (length values + suc (length rows)) = ground arith in
        let exact = (==_iff (length values) n).1 same in
        rw (full, exact, none_left, append-nil values) (λ i. ok (values, more i))
  ]

  -- What the loop keeps of the rows, and whether it leaves one.
  pub consume_rows-arrived :
      (n : ℕ) (rows : List R)
      → consume_rows (pos n) (λ _ _. ok tt) [] (arrived rows)
        ≡ ok (take n rows, ltb n (length rows))
  consume_rows-arrived n rows =
      let whole : (n - 0) ≡ n = omega arith in
      let size : (0 + length rows) ≡ length rows = omega arith in
      consume_rows-arrived_from n [] rows (omega arith)
      ∙ (λ i. ok (take (whole i) rows, ltb n (size i)))
