-- ===== src/Migrate/Select/Laws.antt =====
-- What `selectApplies` selects, and when it refuses.
use rasql.Prelude.{
  ℕ, suc, ◌+◌, ◌-◌, ◌≡◌, refl, sym, ap, ◌∙◌, if◌then◌else◌, Bool, true, false, some, List, [], ◌∷◌,
  ◌++◌, inl, inr, leb, length, take, take-nil, All, arith, Bytes, equal_iff, equal_self, Result, ok,
  >>=-eq-ok, Option-cases, Bool-cases,
}
use rasql.Migrate.Prepare.{PreparedMigration}
use rasql.Migrate.Reason.{Reason}
use rasql.Migrate.History.{
  Row, lookup, check_supplied, IsRecorded, IsPending, AreSupplied, check_supplied_ok,
  check_supplied_complete,
}
use rasql.Migrate.Select.{ApplyTarget, apply_limit, select_from, select_applies}

ok_inj :
    {ps qs : List PreparedMigration}
    → ◌≡◌ {A = Result Reason (List PreparedMigration)} (ok ps) (ok qs)
    → ps ≡ qs
ok_inj h = cc

take_skip :
    (limit index : ℕ) (m : PreparedMigration) (ms : List PreparedMigration)
    → (if leb limit index then take (limit - (index + 1)) ms else m ∷ take (limit - (index + 1)) ms)
      ≡ take (limit - index) (m ∷ ms)
take_skip limit index m ms = elim (Bool-cases (leb limit index)) [
  | inl e ↦
      let none_left : limit - (index + 1) ≡ 0 = ground arith in
      let none_now : limit - index ≡ 0 = ground arith in rw (e, none_left, none_now)
  | inr e ↦ let more : limit - index ≡ suc (limit - (index + 1)) = ground arith in rw (e, more)
]

module _ (rows : List Row) (limit : ℕ) where
  -- Once a migration is missing, a run that is not refused finds none recorded.
  select_from-IsPending :
      (index : ℕ) (ms sel : List PreparedMigration)
      → select_from rows limit index true ms ≡ ok sel
      → All (IsPending rows) ms × (sel ≡ take (limit - index) ms)
  unfolding select_from
  select_from-IsPending index [] sel h = (tt, rw take-nil (ok_inj (sym h)))
  select_from-IsPending index (m ∷ ms) sel h = elim (Option-cases (lookup m.id rows)) [
    | inr (v, e) ↦ absurd (ground arith)
    | inl e ↦
        let (rest, later, same) =
          >>=-eq-ok (select_from rows limit (index + 1) true ms) _ (rw (e, select_from) at h) in
        let (pending, taken) = select_from-IsPending (index + 1) ms rest later in
        ((e, pending), ok_inj (sym same) ∙ rw taken (take_skip limit index m ms))
  ]

-- How a history stands to the sorted migrations when `selectApplies` does not refuse: all before a
-- point are recorded with their checksums and none after it is, and `selected` is what lies
-- between that point and `limit`.
pub record Resumes (rows : List Row) (ms : List PreparedMigration) (limit : ℕ)
    (selected : List PreparedMigration) : Type 0 where
  pub done : List PreparedMigration
  pub pending : List PreparedMigration
  pub splits : ms ≡ done ++ pending
  pub recorded : All (IsRecorded rows) done
  pub waiting : All (IsPending rows) pending
  pub chosen : selected ≡ take (limit - length done) pending

at_start : (n : ℕ) → n - 0 ≡ n
at_start n = omega arith

module _ (rows : List Row) (limit : ℕ) where
  recorded_step :
      (index : ℕ) (m : PreparedMigration) (ms sel : List PreparedMigration) (v : Bytes)
      → lookup m.id rows ≡ some v
      → select_from rows limit index false (m ∷ ms) ≡ ok sel
      → (v ≡ m.checksum) × (select_from rows limit (index + 1) false ms ≡ ok sel)
  unfolding select_from
  recorded_step index m ms sel v e h = ground (arith, equal_iff v m.checksum)

  Resumes-cons :
      (index : ℕ) (m : PreparedMigration) (ms sel : List PreparedMigration)
      → IsRecorded rows m
      → Resumes rows ms (limit - (index + 1)) sel
      → Resumes rows (m ∷ ms) (limit - index) sel
  Resumes-cons index m ms sel e r = record {
    done = m ∷ r.done;
    pending = r.pending;
    splits = ap (◌∷◌ m) r.splits;
    recorded = (e, r.recorded);
    waiting = r.waiting;
    chosen = r.chosen ∙ ap (λ n. take n r.pending) (omega arith);
  }

  select_from-Resumes :
      (index : ℕ) (ms sel : List PreparedMigration)
      → select_from rows limit index false ms ≡ ok sel
      → Resumes rows ms (limit - index) sel
  unfolding select_from
  select_from-Resumes index [] sel h = record {
    done = [];
    pending = [];
    splits = refl;
    recorded = tt;
    waiting = tt;
    chosen = rw take-nil (ok_inj (sym h));
  }
  select_from-Resumes index (m ∷ ms) sel h = elim (Option-cases (lookup m.id rows)) [
    | inl e ↦
        let (rest, later, same) =
          >>=-eq-ok (select_from rows limit (index + 1) true ms) _ (rw (e, select_from) at h) in
        let (pending, taken) = select_from-IsPending rows limit (index + 1) ms rest later in
        record {
          done = [];
          pending = m ∷ ms;
          splits = refl;
          recorded = tt;
          waiting = (e, pending);
          chosen =
              ok_inj (sym same) ∙ rw (taken, at_start (limit - index)) (take_skip limit index m ms);
        }
    | inr (v, e) ↦
        let (same, later) = recorded_step index m ms sel v e h in
        Resumes-cons index m ms sel (e ∙ ap some same)
          (select_from-Resumes (index + 1) ms sel later)
  ]

  select_from_pending_complete :
      (index : ℕ) (pending : Bool) (ms : List PreparedMigration)
      → All (IsPending rows) ms
      → select_from rows limit index pending ms ≡ ok (take (limit - index) ms)
  unfolding select_from
  select_from_pending_complete index p [] _ = rw take-nil
  select_from_pending_complete index p (m ∷ ms) (e, es) =
      rw (e, select_from, select_from_pending_complete (index + 1) true ms es)
        (ap ok (take_skip limit index m ms))

  select_from_complete :
      (index : ℕ) (done pending : List PreparedMigration)
      → All (IsRecorded rows) done
      → All (IsPending rows) pending
      → select_from rows limit index false (done ++ pending)
        ≡ ok (take (limit - index - length done) pending)
  unfolding select_from
  select_from_complete index [] pending _ h =
      rw at_start (select_from_pending_complete index false pending h)
  select_from_complete index (m ∷ done) pending (e, es) h =
      let shift : limit - index - suc (length done) ≡ limit - (index + 1) - length done =
        omega arith in
      rw (e, select_from, equal_self m.checksum, shift)
        (select_from_complete (index + 1) done pending es h)

-- A run that is not refused: the target is reached, no row is of a migration that was not
-- supplied, the supplied migrations are the recorded ones (with their checksums) followed by the
-- unrecorded ones, and the selection is the unrecorded ones up to the target, in order.
pub select_applies_sound :
    (rows : List Row) (ms : List PreparedMigration) (target : ApplyTarget)
    {sel : List PreparedMigration}
    → select_applies rows ms target ≡ ok sel
    → (limit : ℕ) × (apply_limit ms target ≡ ok limit)
      × AreSupplied ms rows
      × Resumes rows ms limit sel
unfolding select_applies
select_applies_sound rows ms target {sel} h =
    let (u, supplied, h1) = >>=-eq-ok (check_supplied rows ms) _ h in
    let (limit, reached, h2) = >>=-eq-ok (apply_limit ms target) _ h1 in
    (
      limit,
      reached,
      check_supplied_ok rows ms supplied,
      rw at_start at (select_from-Resumes rows limit 0 ms sel h2),
    )

-- Where the rows are of supplied migrations, the recorded migrations (with
-- their checksums) stand before the unrecorded ones and the target is reached, the run selects the
-- unrecorded migrations up to the target.
pub select_applies_complete :
    (rows : List Row) (done pending : List PreparedMigration) (target : ApplyTarget) {limit : ℕ}
    → AreSupplied (done ++ pending) rows
    → All (IsRecorded rows) done
    → All (IsPending rows) pending
    → apply_limit (done ++ pending) target ≡ ok limit
    → select_applies rows (done ++ pending) target ≡ ok (take (limit - length done) pending)
unfolding select_applies
select_applies_complete rows done pending target {limit} supplied recorded waiting reached =
    rw (check_supplied_complete rows (done ++ pending) supplied, reached)
      (rw at_start at (select_from_complete rows limit 0 done pending recorded waiting))
