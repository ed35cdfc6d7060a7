-- ===== src/Migrate/RoundTrip/Undo.antt =====
-- A revert (migrate/revert.go) of what an apply has just recorded (migrate/apply.go).
use mathlib.Core.List.{reverse, reverse-append}
use mathlib.Core.Path.{subst}
use rasql.Prelude.{
  ◌-◌, pos, ◌≡◌, ◌≢◌, refl, sym, ap, ◌∙◌, true, none, List, [], ◌∷◌, ◌++◌, append_assoc, append-nil,
  length, length-append, take, drop, take-append-drop, length-reverse, take_left, All,
  All-append_left, All-append_right, All-reverse, All-imp, All-both, arith, Bytes, equal_self,
  text_lt, ok,
}
use rasql.Migrate.Prepare.{PreparedMigration}
use rasql.Migrate.Prepare.Sorted.{IsSorted}
use rasql.Migrate.History.{Row, lookup, row_of, IsRecorded, IsPending, AreSupplied}
use rasql.Migrate.Select.{ApplyTarget, select_applies}
use rasql.Migrate.Select.Laws.{select_applies_sound}
use rasql.Migrate.Unselect.{steps, select_reverts, revert_count}
use rasql.Migrate.Unselect.Laws.{IsReversible, IsListed, select_reverts_complete}
use rasql.Migrate.Run.Direction.{Direction, up, down, without_id}
use rasql.Migrate.Run.Direction.{write_all}
use rasql.Migrate.RoundTrip.{All-IsRecorded, rest-IsPending, new_supplied, regroup}
use rasql.Migrate.RoundTrip.Rows.{
  rows_of, write_all-up, IsSorted-right, IsSorted-left, lookup-append_none, lt-ne,
}

without_absent : (id : Bytes) (rows : List Row) → lookup id rows ≡ none → without_id id rows ≡ rows
unfolding lookup without_id
without_absent id [] h = refl
without_absent id ((k, v) ∷ rows) h = ground (arith, without_absent id rows)

without_last :
    (m : PreparedMigration) (rows : List Row)
    → lookup m.id rows ≡ none
    → without_id m.id (rows ++ row_of m ∷ []) ≡ rows
unfolding lookup without_id
without_last m [] h = rw equal_self
without_last m ((k, v) ∷ rows) h = ground (arith, without_last m rows)

write_all-append :
    (direction : Direction) (xs ys : List PreparedMigration) (rows : List Row)
    → write_all direction (xs ++ ys) rows ≡ write_all direction ys (write_all direction xs rows)
write_all-append direction [] ys rows = refl
write_all-append direction (x ∷ xs) ys rows =
    write_all-append direction xs ys (direction.write x rows)

-- `m` recorded, the later ones are still pending.
IsPending-after :
    (m n : PreparedMigration) (rows : List Row)
    → text_lt m.id n.id ≡ true
    → IsPending rows n
    → IsPending (rows ++ row_of m ∷ []) n
unfolding lookup
IsPending-after m n rows lt h =
    lookup-append_none n.id rows (row_of m ∷ []) h ∙ rw (lt-ne m.id n.id lt)

-- Deleting the rows newest first gives back the history before them.
write_down :
    (sel : List PreparedMigration) (rows : List Row)
    → IsSorted sel
    → All (IsPending rows) sel
    → write_all down (reverse sel) (rows ++ rows_of sel) ≡ rows
write_down [] rows _ _ = append-nil rows
write_down (m ∷ sel) rows (a, s) (p, ps) =
    let now = rows ++ row_of m ∷ [] in
    let still : All (IsPending now) sel =
      All-imp (λ n. (text_lt m.id n.id ≡ true) × IsPending rows n) (IsPending now)
        (λ n h. IsPending-after m n rows h.0 h.1) sel
        (All-both (λ n. text_lt m.id n.id ≡ true) (IsPending rows) sel a ps) in
    ap (λ back. write_all down back (rows ++ rows_of (m ∷ sel))) (reverse-append (m ∷ []) sel)
    ∙ write_all-append down (reverse sel) (m ∷ []) (rows ++ rows_of (m ∷ sel))
    ∙ ap (λ all. without_id m.id (write_all down (reverse sel) all))
        (sym (append_assoc rows (row_of m ∷ []) (rows_of sel)))
    ∙ ap (without_id m.id) (write_down sel now s still)
    ∙ without_last m rows p

count_selected :
    (done sel : List PreparedMigration)
    → sel ≢ []
    → revert_count (done ++ sel) (steps (pos (length sel))) ≡ ok (length sel)
unfolding revert_count
count_selected done [] h = absurd (h refl)
count_selected done (m ∷ sel) h = ground (arith, length-append done (m ∷ sel))

newest :
    (done sel : List PreparedMigration) → take (length sel) (reverse (done ++ sel)) ≡ reverse sel
newest done sel =
    ap (take (length sel)) (reverse-append done sel)
    ∙ ap (λ n. take n (reverse sel ++ reverse done)) (sym (length-reverse sel))
    ∙ take_left (reverse sel) (reverse done)

module _ (rows : List Row) (done sel later ms : List PreparedMigration)
    (splits : ms ≡ done ++ (sel ++ later)) (sorted : IsSorted ms)
    (recorded : All (IsRecorded rows) done) (waiting : All (IsPending rows) (sel ++ later))
    (supplied : AreSupplied ms rows) where
  abbrev after_apply : List Row
  after_apply = rows ++ rows_of sel

  revert_selected :
      sel ≢ []
      → All IsReversible sel
      → select_reverts after_apply ms (steps (pos (length sel))) ≡ ok (reverse sel)
  revert_selected some_sel reversible =
      let e = regroup rows done sel later ms splits sorted recorded waiting supplied in
      let all = All-IsRecorded rows done sel later ms splits sorted recorded waiting supplied in
      subst (λ all. select_reverts after_apply all (steps (pos (length sel))) ≡ ok (reverse sel))
        (sym e)
        (select_reverts_complete after_apply (done ++ sel) later (steps (pos (length sel)))
            (subst (λ all. AreSupplied all after_apply) e
              (new_supplied rows done sel later ms splits sorted recorded waiting supplied))
            (All-imp (IsRecorded after_apply) (IsListed after_apply) (λ m h. (m.checksum, h))
              (done ++ sel) all)
            (rest-IsPending rows done sel later ms splits sorted recorded waiting supplied)
            (count_selected done sel some_sel)
            (subst (All (IsRecorded after_apply)) (sym (newest done sel))
              (All-reverse (IsRecorded after_apply) sel (All-append_right _ done sel all)))
            (subst (All IsReversible) (sym (newest done sel))
              (All-reverse IsReversible sel reversible))
          ∙ ap ok (newest done sel))

-- Where an apply of sorted migrations selected some, each with a reverse source, and their rows were
-- written: a revert of as many steps selects these migrations, newest first, and deleting their rows
-- gives back the history before the apply.
pub revert_applied :
    (rows : List Row) (ms : List PreparedMigration) (target : ApplyTarget)
    {sel : List PreparedMigration}
    → IsSorted ms
    → select_applies rows ms target ≡ ok sel
    → sel ≢ []
    → All IsReversible sel
    → (select_reverts (write_all up sel rows) ms (steps (pos (length sel))) ≡ ok (reverse sel))
      × (write_all down (reverse sel) (write_all up sel rows) ≡ rows)
revert_applied rows ms target {sel} sorted h some_sel reversible =
    let (limit, reached, supplied, r) = select_applies_sound rows ms target h in
    let later : List PreparedMigration = drop (limit - length r.done) r.pending in
    let whole : r.pending ≡ sel ++ later =
      sym (take-append-drop (limit - length r.done) r.pending)
      ∙ ap (λ p. p ++ later) (sym r.chosen) in
    let waiting : All (IsPending rows) (sel ++ later) =
      subst (All (IsPending rows)) whole r.waiting in
    let splits : ms ≡ r.done ++ (sel ++ later) = r.splits ∙ ap (λ p. r.done ++ p) whole in
    let in_sel =
      IsSorted-left sel later
        (IsSorted-right r.done (sel ++ later) (subst IsSorted splits sorted)) in
    (
      subst (λ new. select_reverts new ms (steps (pos (length sel))) ≡ ok (reverse sel))
          (sym (write_all-up sel rows))
          (revert_selected rows r.done sel later ms splits sorted r.recorded waiting supplied
            some_sel reversible),
      ap (write_all down (reverse sel)) (write_all-up sel rows)
          ∙ write_down sel rows in_sel (All-append_left _ sel later waiting),
    )
