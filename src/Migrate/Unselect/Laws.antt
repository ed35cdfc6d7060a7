-- ===== src/Migrate/Unselect/Laws.antt =====
-- What `selectReverts` selects, and when it refuses.
use mathlib.Core.List.{reverse}
use mathlib.Core.Path.{subst}
use rasql.Prelude.{
  ℕ, zero, suc, ◌≡◌, refl, sym, ap, ◌∙◌, Bool, true, false, not, some, List, [], ◌∷◌, ◌++◌, inl,
  inr, ◌==◌, length, take, All, All-reverse, arith, Bytes, equal, equal_iff, equal_self, Result, ok,
  >>=-eq-ok, Option-cases, guard,
}
use rasql.Migrate.Prepare.{PreparedMigration}
use rasql.Migrate.Reason.{Reason, checksum_mismatch, no_reverse_source}
use rasql.Migrate.History.{
  Row, lookup, check_supplied, IsRecorded, IsPending, AreSupplied, check_supplied_ok,
  check_supplied_complete,
}
use rasql.Migrate.Unselect.{
  RevertTarget, revert_count, applied_in_order, recorded_checksum, pick_reverts, select_reverts,
}

-- `m` is recorded, with whatever checksum.
abbrev pub IsListed : List Row → PreparedMigration → Type 0
IsListed rows m = (v : Bytes) × (lookup m.id rows ≡ some v)

abbrev pub IsReversible : PreparedMigration → Type 0
IsReversible m = (length m.down == 0) ≡ false

ok_inj :
    {ps qs : List PreparedMigration}
    → ◌≡◌ {A = Result Reason (List PreparedMigration)} (ok ps) (ok qs)
    → ps ≡ qs
ok_inj h = cc

-- How a history stands to the sorted migrations when `selectReverts` does not refuse.
pub record Undoes (rows : List Row) (ms : List PreparedMigration) (target : RevertTarget)
    (selected : List PreparedMigration) : Type 0 where
  pub applied : List PreparedMigration
  pub pending : List PreparedMigration
  pub count : ℕ
  pub splits : ms ≡ applied ++ pending
  pub listed : All (IsListed rows) applied
  pub waiting : All (IsPending rows) pending
  pub counted : revert_count applied target ≡ ok count
  pub chosen : selected ≡ take count (reverse applied)
  pub recorded : All (IsRecorded rows) selected
  pub reversible : All IsReversible selected

module _ (rows : List Row) where
  in_order-IsPending :
      (ms ps : List PreparedMigration)
      → applied_in_order rows true ms ≡ ok ps
      → All (IsPending rows) ms × (ps ≡ [])
  unfolding applied_in_order
  in_order-IsPending [] ps h = (tt, ok_inj (sym h))
  in_order-IsPending (m ∷ ms) ps h = elim (Option-cases (lookup m.id rows)) [
    | inr (v, e) ↦ absurd (ground arith)
    | inl e ↦
        let (waiting, same) = in_order-IsPending ms ps (rw (e, applied_in_order) at h) in
        ((e, waiting), same)
  ]

  record Splits (ms ps : List PreparedMigration) : Type 0 where
    pending : List PreparedMigration
    splits : ms ≡ ps ++ pending
    listed : All (IsListed rows) ps
    waiting : All (IsPending rows) pending

  Splits-nil : (ms : List PreparedMigration) → All (IsPending rows) ms → Splits ms []
  Splits-nil ms h = record { pending = ms; splits = refl; listed = tt; waiting = h }

  Splits-cons :
      (m : PreparedMigration) (ms ps : List PreparedMigration)
      → IsListed rows m
      → Splits ms ps
      → Splits (m ∷ ms) (m ∷ ps)
  Splits-cons m ms ps e s = record {
    pending = s.pending;
    splits = ap (◌∷◌ m) s.splits;
    listed = (e, s.listed);
    waiting = s.waiting;
  }

  in_order-Splits :
      (ms ps : List PreparedMigration) → applied_in_order rows false ms ≡ ok ps → Splits ms ps
  unfolding applied_in_order
  in_order-Splits [] ps h = subst (λ qs. Splits [] qs) (ok_inj h) (Splits-nil [] tt)
  in_order-Splits (m ∷ ms) ps h = elim (Option-cases (lookup m.id rows)) [
    | inl e ↦
        let (waiting, same) = in_order-IsPending ms ps (rw (e, applied_in_order) at h) in
        rw same (Splits-nil (m ∷ ms) (e, waiting))
    | inr (v, e) ↦
        let (rest, later, same) =
          >>=-eq-ok (applied_in_order rows false ms) _ (rw (e, applied_in_order) at h) in
        subst (λ qs. Splits (m ∷ ms) qs) (ok_inj same)
          (Splits-cons m ms rest (v, e) (in_order-Splits ms rest later))
  ]

  in_order_pending_complete :
      (p : Bool) (ms : List PreparedMigration)
      → All (IsPending rows) ms
      → applied_in_order rows p ms ≡ ok []
  unfolding applied_in_order
  in_order_pending_complete p [] _ = refl
  in_order_pending_complete p (m ∷ ms) (e, es) =
      rw (e, applied_in_order) (in_order_pending_complete true ms es)

  in_order_complete :
      (ps pending : List PreparedMigration)
      → All (IsListed rows) ps
      → All (IsPending rows) pending
      → applied_in_order rows false (ps ++ pending) ≡ ok ps
  unfolding applied_in_order
  in_order_complete [] pending _ h = in_order_pending_complete false pending h
  in_order_complete (m ∷ ps) pending ((v, e), es) h =
      rw (e, applied_in_order, in_order_complete ps pending es h)

  -- Each round needs the very row of its migration, and a reverse source.
  pick_sound :
      (n : ℕ) (ms : List PreparedMigration)
      → All (IsListed rows) ms
      → (sel : List PreparedMigration) → pick_reverts rows n ms ≡ ok sel
      → (sel ≡ take n ms) × All (IsRecorded rows) (take n ms) × All IsReversible (take n ms)
  unfolding pick_reverts
  pick_sound zero ms l sel h = (ok_inj (sym h), tt, tt)
  pick_sound (suc n) [] l sel h = (ok_inj (sym h), tt, tt)
  pick_sound (suc n) (m ∷ ms) ((v, e), ls) sel h =
      let (u, same, h1) =
        >>=-eq-ok
          (guard (equal (recorded_checksum (lookup m.id rows)) m.checksum) (checksum_mismatch m.id))
          _ h in
      let (w, some_down, h2) =
        >>=-eq-ok (guard (not (length m.down == 0)) (no_reverse_source m.id)) _ h1 in
      let (rest, later, h3) = >>=-eq-ok (pick_reverts rows n ms) _ h2 in
      let (taken, recorded, reversible) = pick_sound n ms ls rest later in
      let own : v ≡ m.checksum = ground (arith, equal_iff v m.checksum) in
      (ok_inj (sym h3) ∙ ap (◌∷◌ m) taken, (e ∙ ap some own, recorded), (ground arith, reversible))

  pick_complete :
      (n : ℕ) (ms : List PreparedMigration)
      → All (IsRecorded rows) (take n ms)
      → All IsReversible (take n ms)
      → pick_reverts rows n ms ≡ ok (take n ms)
  unfolding pick_reverts
  pick_complete zero ms _ _ = refl
  pick_complete (suc n) [] _ _ = refl
  pick_complete (suc n) (m ∷ ms) (e, es) (r, rs) =
      rw (e, equal_self m.checksum, r, pick_complete n ms es rs)

module _ (rows : List Row) where
  -- A revert that is not refused: no row is of a migration that was not supplied; the supplied
  -- migrations are the recorded ones followed by the unrecorded ones; the target fixes a count of
  -- the recorded ones; and the selection is that many of them, newest first, each recorded with
  -- its own checksum and each with a reverse source.
  pub select_reverts_sound :
      (ms : List PreparedMigration) (target : RevertTarget) {sel : List PreparedMigration}
      → select_reverts rows ms target ≡ ok sel
      → AreSupplied ms rows × Undoes rows ms target sel
  unfolding select_reverts
  select_reverts_sound ms target {sel} h =
      let (u, supplied, h1) = >>=-eq-ok (check_supplied rows ms) _ h in
      let (in_order, collected, h2) = >>=-eq-ok (applied_in_order rows false ms) _ h1 in
      let (count, counted, h3) = >>=-eq-ok (revert_count in_order target) _ h2 in
      let s = in_order-Splits rows ms in_order collected in
      let (taken, recorded, reversible) =
        pick_sound rows count (reverse in_order) (All-reverse (IsListed rows) in_order s.listed) sel
          h3 in
      (
        check_supplied_ok rows ms supplied,
        record {
          applied = in_order;
          pending = s.pending;
          count = count;
          splits = s.splits;
          listed = s.listed;
          waiting = s.waiting;
          counted = counted;
          chosen = taken;
          recorded = subst (λ qs. All (IsRecorded rows) qs) (sym taken) recorded;
          reversible = subst (λ qs. All IsReversible qs) (sym taken) reversible;
        },
      )

  -- A revert is not refused, and selects the newest recorded migrations, where the rows are of
  -- supplied migrations, these are the ones with a row followed by the ones without, the target
  -- fixes a count of the former, and each of that many, counted from the newest, has its own
  -- checksum in its row and a reverse source.
  pub select_reverts_complete :
      (applied pending : List PreparedMigration) (target : RevertTarget) {count : ℕ}
      → AreSupplied (applied ++ pending) rows
      → All (IsListed rows) applied
      → All (IsPending rows) pending
      → revert_count applied target ≡ ok count
      → All (IsRecorded rows) (take count (reverse applied))
      → All IsReversible (take count (reverse applied))
      → select_reverts rows (applied ++ pending) target ≡ ok (take count (reverse applied))
  unfolding select_reverts
  select_reverts_complete applied pending target {count} supplied listed waiting counted recorded
        rev =
      rw (
        check_supplied_complete rows (applied ++ pending) supplied,
        in_order_complete rows applied pending listed waiting,
        counted,
        pick_complete rows count (reverse applied) recorded rev,
      )
