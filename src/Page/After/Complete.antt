-- ===== src/Page/After/Complete.antt =====
-- Page after page of page.go, to the last row.
use rasql.Prelude.{
  ◌≡◌, refl, sym, ap, subst, ◌∙◌, ℕ, zero, suc, ◌-◌, ◌≤◌, Bool, true, false, some, List, [], ◌∷◌,
  ◌++◌, append_assoc, ltb, ltb→lt, length, length-drop, take, take_all, take-append-drop, drop,
  Bytes, Bool-cases, inl, inr, All, All-append_right, ok, ℤ, arith,
}
use rasql.Cursorcodec.Value.{GoValue}
use rasql.Page.{PageKey}
use rasql.Page.Cursor.{CodecRegistry}
use rasql.Page.Spec.{PagePolicy}
use rasql.Page.After.{PagedQuery, finish_page}
use rasql.Page.After.Rows.{IsOrdered}
use rasql.Page.After.Served.{
  IsServed, IsRequest, HasCursor, StartsAt, starts_first, starts_next, page_after-rest,
}
use rasql.Page.After.Walk.{not_ltb, all_pages, finish_page-more}

-- The query, its database and the client.
module _ {R : Type 0} (less same : GoValue → GoValue → Bool) (registry : CodecRegistry)
    (query : PagedQuery R) (keys : List (PageKey R)) (policy : PagePolicy) (requested : ℤ)
    (fingerprint : Bytes) (n : ℕ) (all : List R) where
  -- The rows of the pages behind a cursor.
  Complete : ℕ → Type 0
  Complete fuel =
      (after : Bytes) (before rest : List R)
      → all ≡ (before ++ rest)
      → StartsAt less same registry query keys policy requested fingerprint n all after rest
      → length rest ≤ fuel
      → all_pages (ok registry) query keys policy requested (suc fuel) after ≡ some rest

  all_pages-last :
      (fuel : ℕ) (after : Bytes) (rest : List R)
      → IsServed less same registry query keys policy requested fingerprint n all
      → IsRequest less same registry query keys policy requested fingerprint n all
      → StartsAt less same registry query keys policy requested fingerprint n all after rest
      → ltb n (length rest) ≡ false
      → all_pages (ok registry) query keys policy requested (suc fuel) after ≡ some rest
  unfolding all_pages finish_page
  all_pages-last fuel after rest served request start done =
      let page =
        page_after-rest less same registry query keys policy requested fingerprint n all after rest
          served request start in
      rw (page, done, take_all n rest (not_ltb n (length rest) done)) refl

  all_pages-more :
      (fuel : ℕ) (after : Bytes) (before rest : List R)
      → Complete fuel
      → IsServed less same registry query keys policy requested fingerprint n all
      → IsRequest less same registry query keys policy requested fingerprint n all
      → IsOrdered less same keys all
      → All (HasCursor less same registry query keys policy requested fingerprint n all) all
      → all ≡ (before ++ rest)
      → StartsAt less same registry query keys policy requested fingerprint n all after rest
      → ltb n (length rest) ≡ true
      → length rest ≤ suc fuel
      → all_pages (ok registry) query keys policy requested (suc (suc fuel)) after ≡ some rest
  unfolding all_pages Complete
  all_pages-more fuel after before rest later served request ordered cursors parts start more
        enough =
      let page =
        page_after-rest less same registry query keys policy requested fingerprint n all after rest
          served request start in
      let (_, _, _, positive, _) = request in
      let (last, finished, split) =
        finish_page-more (ok registry) keys fingerprint n rest positive
          (ltb→lt n (length rest) more) in
      let through_last : all ≡ ((before ++ take (n - 1) rest) ++ (last ∷ drop n rest)) =
        parts ∙ ap (λ rows. before ++ rows) split ∙ sym (append_assoc before _ _) in
      let ((values, (cursor, made)), _) =
        All-append_right
          (HasCursor less same registry query keys policy requested fingerprint n all)
          (before ++ take (n - 1) rest) (last ∷ drop n rest)
          (subst (All (HasCursor less same registry query keys policy requested fingerprint n all))
            through_last cursors) in
      let next_start =
        starts_next less same registry query keys policy requested fingerprint n all
          (before ++ take (n - 1) rest) (drop n rest) last cursor through_last request ordered
          values made in
      let behind : all ≡ ((before ++ take n rest) ++ drop n rest) =
        parts
        ∙ ap (λ rows. before ++ rows) (sym (take-append-drop n rest))
        ∙ sym (append_assoc before _ _) in
      let fewer : length (drop n rest) ≤ fuel = omega (arith, length-drop n rest) in
      rw
        (
          page,
          more,
          finished,
          made,
          later cursor (before ++ take n rest) (drop n rest) behind next_start fewer,
          take-append-drop n rest,
        )
        refl

  all_pages-from :
      (fuel : ℕ)
      → IsServed less same registry query keys policy requested fingerprint n all
      → IsRequest less same registry query keys policy requested fingerprint n all
      → IsOrdered less same keys all
      → All (HasCursor less same registry query keys policy requested fingerprint n all) all
      → Complete fuel
  unfolding Complete
  all_pages-from zero served request ordered cursors after before rest parts start enough =
      let (_, _, _, positive, _) = request in
      all_pages-last zero after rest served request start (ground arith)
  all_pages-from (suc fuel) served request ordered cursors after before rest parts start enough =
      elim (Bool-cases (ltb n (length rest))) [
        | inr done ↦ all_pages-last (suc fuel) after rest served request start done
        | inl more ↦
            all_pages-more fuel after before rest
              (all_pages-from fuel served request ordered cursors) served request ordered cursors
              parts start more enough
      ]

  -- A client that starts without a cursor and asks for the page behind each cursor that it is given
  -- gets every row of the query exactly once and in order, and comes to an end, whatever the limit
  -- is: if the query compiles under every predicate and limit, to a statement that has the query's
  -- own binds among its binds, in order and with their values, the others having other IDs; if the
  -- database keeps the rows that the predicate selects and returns them in the order of the keys; if
  -- no two rows tie on all keys, and each row's values fit into a cursor and read back.
  pub all_pages_complete :
      (fuel : ℕ)
      → IsServed less same registry query keys policy requested fingerprint n all
      → IsRequest less same registry query keys policy requested fingerprint n all
      → IsOrdered less same keys all
      → All (HasCursor less same registry query keys policy requested fingerprint n all) all
      → length all ≤ fuel
      → all_pages (ok registry) query keys policy requested (suc fuel) [] ≡ some all
  unfolding Complete
  all_pages_complete fuel served request ordered cursors enough =
      all_pages-from fuel served request ordered cursors [] [] all refl
        (starts_first less same registry query keys policy requested fingerprint n all) enough
