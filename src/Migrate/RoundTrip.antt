-- ===== src/Migrate/RoundTrip.antt =====
-- Apply (migrate/apply.go) and Revert (migrate/revert.go) against one another, over the history.
mod Rows
pub mod Undo
use mathlib.Core.List.{reverse, reverse-append, cons-ne-nil}
use mathlib.Core.Path.{subst}
use rasql.Prelude.{
  ℕ, zero, suc, ◌+◌, ◌-◌, ◌≤◌, pos, ◌≡◌, ◌≢◌, refl, sym, ap, ◌∙◌, Bool, true, false, Option, none,
  some, List, [], ◌∷◌, ◌++◌, append_assoc, append-nil, map, inl, inr, ◌==◌, ltb, length,
  length-append, take, take-nil, drop, take-append-drop, length-drop, All, All-append,
  All-append_left, All-append_right, All-reverse, All-imp, All-both, All-of, arith, Bytes, equal,
  equal_iff, equal_self, text_lt, text_lt_irrefl, Result, ok, Bool-cases, Option-cases,
  if◌then◌else◌,
}
use rasql.Migrate.Prepare.{PreparedMigration}
use rasql.Migrate.Prepare.Sorted.{IsSorted, Above}
use rasql.Migrate.History.{Row, lookup, row_of, is_supplied, IsRecorded, IsPending, AreSupplied}
use rasql.Migrate.Select.{ApplyTarget, apply_limit, select_applies}
use rasql.Migrate.Select.Laws.{select_applies_sound, select_applies_complete}
use rasql.Migrate.Unselect.{steps, select_reverts, revert_count}
use rasql.Migrate.Unselect.Laws.{IsReversible, IsListed, select_reverts_complete}
use rasql.Migrate.Run.Direction.{up, down, without_id}
use rasql.Migrate.Run.Direction.{write_all}
use Rows.{
  rows_of, write_all-up, IsSorted-right, done-IsRecorded, sel-IsRecorded, later-IsPending,
  lookup-append_none, lt-ne,
}

AreSupplied-own :
    (ms : List PreparedMigration) (all : List PreparedMigration)
    → All (λ m. is_supplied m.id all ≡ true) ms
    → AreSupplied all (rows_of ms)
AreSupplied-own [] all _ = tt
AreSupplied-own (m ∷ ms) all (h, hs) = (h, AreSupplied-own ms all hs)

supplied-append :
    (before after : List PreparedMigration) (id : Bytes)
    → is_supplied id after ≡ true
    → is_supplied id (before ++ after) ≡ true
unfolding is_supplied
supplied-append [] after id h = h
supplied-append (m ∷ before) after id h = ground (arith, supplied-append before after id)

supplied_head :
    (m : PreparedMigration) (ms : List PreparedMigration) → is_supplied m.id (m ∷ ms) ≡ true
unfolding is_supplied
supplied_head m ms = rw equal_self

sub_suc : (n k : ℕ) → suc n - suc k ≡ n - k
sub_suc n k = omega arith

left_over :
    (limit : ℕ) (done sel : List PreparedMigration)
    → limit - length (done ++ sel) ≡ limit - length done - length sel
left_over limit done sel = omega (arith, length-append done sel)

supplied_self :
    (before ms after : List PreparedMigration)
    → All (λ m. is_supplied m.id (before ++ (ms ++ after)) ≡ true) ms
supplied_self before [] after = tt
supplied_self before (m ∷ ms) after =
    let next = supplied_self (before ++ m ∷ []) ms after in
    (
      supplied-append before (m ∷ (ms ++ after)) m.id (supplied_head m (ms ++ after)),
      subst (λ all. All (λ n. is_supplied n.id all ≡ true) ms)
          (append_assoc before (m ∷ []) (ms ++ after)) next,
    )

take_nothing_left :
    (n : ℕ) (ms : List PreparedMigration) → take (n - length (take n ms)) (drop n ms) ≡ []
take_nothing_left zero ms = refl
take_nothing_left (suc n) [] = take-nil (suc n - 0)
take_nothing_left (suc n) (m ∷ ms) =
    ap (λ k. take k (drop n ms)) (sub_suc n (length (take n ms))) ∙ take_nothing_left n ms

-- The recorded migrations `done`, the selected and the later ones are all of the sorted `ms`.
module _ (rows : List Row) (done sel later ms : List PreparedMigration)
    (splits : ms ≡ done ++ (sel ++ later)) (sorted : IsSorted ms)
    (recorded : All (IsRecorded rows) done) (waiting : All (IsPending rows) (sel ++ later))
    (supplied : AreSupplied ms rows) where
  abbrev pub new_rows : List Row
  new_rows = rows ++ rows_of sel

  abbrev pub in_order : IsSorted (done ++ (sel ++ later))
  in_order = subst IsSorted splits sorted

  pub regroup : ms ≡ (done ++ sel) ++ later
  regroup = splits ∙ sym (append_assoc done sel later)

  pub new_supplied : AreSupplied ms new_rows
  new_supplied =
      All-append (λ r. is_supplied r.0 ms ≡ true) rows (rows_of sel) supplied
        (AreSupplied-own sel ms (
          subst (λ all. All (λ m. is_supplied m.id all ≡ true) sel) (sym splits)
            (supplied_self done sel later)))

  pub All-IsRecorded : All (IsRecorded new_rows) (done ++ sel)
  All-IsRecorded =
      All-append (IsRecorded new_rows) done sel
        (done-IsRecorded rows done sel later in_order recorded waiting)
        (sel-IsRecorded rows done sel later in_order recorded waiting)

  pub rest-IsPending : All (IsPending new_rows) later
  rest-IsPending = later-IsPending rows done sel later in_order recorded waiting

  select_again :
      (target : ApplyTarget) (limit : ℕ)
      → apply_limit ms target ≡ ok limit
      → take (limit - length (done ++ sel)) later ≡ []
      → select_applies new_rows ms target ≡ ok []
  select_again target limit reached left =
      subst (λ all. select_applies new_rows all target ≡ ok []) (sym regroup)
        (select_applies_complete new_rows (done ++ sel) later target
            (subst (λ all. AreSupplied all new_rows) regroup new_supplied) All-IsRecorded
            rest-IsPending (subst (λ all. apply_limit all target ≡ ok limit) regroup reached)
          ∙ ap ok left)

-- Where an apply of sorted migrations is not refused and the rows of the migrations it selects were
-- written, an apply to the same target is not refused and selects none.
pub apply_again :
    (rows : List Row) (ms : List PreparedMigration) (target : ApplyTarget)
    {sel : List PreparedMigration}
    → IsSorted ms
    → select_applies rows ms target ≡ ok sel
    → select_applies (write_all up sel rows) ms target ≡ ok []
apply_again rows ms target {sel} sorted h =
    let (limit, reached, supplied, r) = select_applies_sound rows ms target h in
    let n : ℕ = limit - length r.done in
    let cut = take-append-drop n r.pending in
    let whole : select_applies (rows ++ rows_of (take n r.pending)) ms target ≡ ok [] =
      select_again rows r.done (take n r.pending) (drop n r.pending) ms
        (r.splits ∙ ap (λ p. r.done ++ p) (sym cut)) sorted r.recorded
        (subst (All (IsPending rows)) (sym cut) r.waiting) supplied target limit reached
        (ap (λ k. take k (drop n r.pending)) (left_over limit r.done (take n r.pending))
          ∙ take_nothing_left n r.pending) in
    subst (λ new. select_applies new ms target ≡ ok [])
      (sym (write_all-up sel rows ∙ ap (λ p. rows ++ rows_of p) r.chosen)) whole
