-- ===== src/Migrate/Status/Agreement.antt =====
-- `Status` and `Apply` read a history alike: a run to the newest migration is refused exactly where
-- some entry is neither applied nor pending, and it selects the entries that are pending.
use rasql.Prelude.{
  ℕ, ◌+◌, ◌≤◌, ◌≡◌, refl, sym, ◌∙◌, ap, Bool, true, false, some, ◌↔◌, List, [], ◌∷◌, map, inl, inr,
  length, All, All-append_left, All-append_right, arith, Bytes, equal, Result, ok, ok_inj,
  >>=-eq-ok, Option-cases, leb,
}
use rasql.Migrate.Prepare.{PreparedMigration}
use rasql.Migrate.Reason.{Reason}
use rasql.Migrate.History.{
  Row, lookup, check_supplied, AreSupplied, check_supplied_ok, check_supplied_complete,
}
use rasql.Migrate.Select.{all_pending, apply_limit, select_from, select_applies}
use rasql.Migrate.Status.{
  StatusState, StatusEntry, applied, pending, unknown_ids, insert_text, sort_texts, unknown_entry,
  recorded_state, status_from, status_entries,
}

-- Nothing stands in the way of an apply.
abbrev pub is_settled : StatusState → Bool
is_settled applied = true
is_settled pending = true
is_settled _ = false

abbrev pub AreSettled : List StatusEntry → Type 0
AreSettled es = All (λ e. is_settled e.state ≡ true) es

-- The IDs of the pending entries, in order.
abbrev pub pending_ids : List StatusEntry → List Bytes
pending_ids [] = []
pending_ids (e ∷ es) = elim e.state [ pending ↦ e.id ∷ pending_ids es | _ ↦ pending_ids es ]

abbrev pub ids : List PreparedMigration → List Bytes
ids = map (λ m. m.id)

abbrev pub Succeeds : Result Reason (List PreparedMigration) → Type 0
Succeeds r = (sel : List PreparedMigration) × (r ≡ ok sel)

abbrev Selects : Result Reason (List PreparedMigration) → List StatusEntry → Type 0
Selects r es = (sel : List PreparedMigration) × (r ≡ ok sel) × (ids sel ≡ pending_ids es)

settled_recorded :
    (v : Bytes) (m : PreparedMigration) (missing : Bool)
    → is_settled (recorded_state v m missing) ≡ true
    → (equal v m.checksum ≡ true) × (missing ≡ false)
settled_recorded v m missing h = ground arith

recorded_settled :
    (v : Bytes) (m : PreparedMigration) (missing : Bool)
    → equal v m.checksum ≡ true
    → missing ≡ false
    → is_settled (recorded_state v m missing) ≡ true
recorded_settled v m missing h k = ground arith

module _ (rows : List Row) (limit : ℕ) where
  recorded_step :
      (index : ℕ) (missing : Bool) (m : PreparedMigration) (ms sel : List PreparedMigration)
      (v : Bytes)
      → lookup m.id rows ≡ some v
      → select_from rows limit index missing (m ∷ ms) ≡ ok sel
      → (equal v m.checksum ≡ true)
        × (missing ≡ false)
        × (select_from rows limit (index + 1) missing ms ≡ ok sel)
  unfolding select_from
  recorded_step index missing m ms sel v e h = ground arith

  status_from-select :
      (index : ℕ) (missing : Bool) (ms : List PreparedMigration)
      → index + length ms ≤ limit
      → AreSettled (status_from rows missing ms)
      → Selects (select_from rows limit index missing ms) (status_from rows missing ms)
  unfolding select_from status_from
  status_from-select index missing [] room h = ([], refl, refl)
  status_from-select index missing (m ∷ ms) room h = elim (Option-cases (lookup m.id rows)) [
    | inl e ↦
        let (sel, found, same) =
          status_from-select (index + 1) true ms (omega arith) (rw (e, status_from) at h).1 in
        let below : leb limit index ≡ false = ground arith in
        (m ∷ sel, rw (e, select_from, found, below), rw (e, status_from) (ap (◌∷◌ m.id) same))
    | inr (v, e) ↦
        let (head, tail) = rw (e, status_from) at h in
        let (own, first) = settled_recorded v m missing head in
        let (sel, found, same) = status_from-select (index + 1) missing ms (omega arith) tail in
        (
          sel,
          rw (e, select_from, own, first) (rw first at found),
          rw (e, status_from, own, first) (rw first at same),
        )
  ]

  select-status_from :
      (index : ℕ) (missing : Bool) (ms sel : List PreparedMigration)
      → select_from rows limit index missing ms ≡ ok sel
      → AreSettled (status_from rows missing ms)
  unfolding select_from status_from
  select-status_from index missing [] sel h = tt
  select-status_from index missing (m ∷ ms) sel h = elim (Option-cases (lookup m.id rows)) [
    | inl e ↦
        let (rest, later, same) =
          >>=-eq-ok (select_from rows limit (index + 1) true ms) _ (rw (e, select_from) at h) in
        rw (e, status_from) (refl, select-status_from (index + 1) true ms rest later)
    | inr (v, e) ↦
        let (own, first, later) = recorded_step index missing m ms sel v e h in
        rw (e, status_from)
          (
            recorded_settled v m missing own first,
            select-status_from (index + 1) missing ms sel later,
          )
  ]

insert_unsettled :
    (t : Bytes) (us : List Bytes) → AreSettled (map unknown_entry (insert_text t us)) → ⊥
unfolding insert_text
insert_unsettled t [] h = ground arith
insert_unsettled t (u ∷ us) h = ground arith

sort_none : (ts : List Bytes) → AreSettled (map unknown_entry (sort_texts ts)) → ts ≡ []
unfolding sort_texts
sort_none [] h = refl
sort_none (t ∷ ts) h = absurd (insert_unsettled t (sort_texts ts) h)

supplied_unknown :
    (rows : List Row) (ms : List PreparedMigration)
    → AreSupplied ms rows ↔ (unknown_ids rows ms ≡ [])
unfolding unknown_ids
supplied_unknown [] ms = ((λ _. refl), (λ _. tt))
supplied_unknown ((k, v) ∷ rows) ms = ground (arith, supplied_unknown rows ms)

-- An apply of every pending migration is refused exactly where some entry of the status is neither
-- applied nor pending; and where it is not refused, it selects the migrations whose entries are
-- pending.
pub status_entries-select_applies :
    (rows : List Row) (ms : List PreparedMigration)
    → (AreSettled (status_entries rows ms) ↔ Succeeds (select_applies rows ms all_pending))
      × ((sel : List PreparedMigration)
          → select_applies rows ms all_pending ≡ ok sel
          → ids sel ≡ pending_ids (status_entries rows ms))
unfolding status_entries select_applies apply_limit
status_entries-select_applies rows ms =
    (((λ h. let (sel, found, _) = forth h in (sel, found)), (λ r. back r.0 r.1)), selected)
  where
    forth :
        AreSettled (status_entries rows ms)
        → Selects (select_applies rows ms all_pending) (status_entries rows ms)
    forth h =
        let none_unknown = sort_none (unknown_ids rows ms) (
          All-append_left _ (map unknown_entry (sort_texts (unknown_ids rows ms)))
            (status_from rows false ms) h) in
        let (sel, found, same) = status_from-select rows (length ms) 0 false ms (omega arith) (
          All-append_right _ (map unknown_entry (sort_texts (unknown_ids rows ms)))
            (status_from rows false ms) h) in
        (
          sel,
          rw (check_supplied_complete rows ms ((supplied_unknown rows ms).1 none_unknown)) found,
          rw none_unknown same,
        )

    back :
        (sel : List PreparedMigration)
        → select_applies rows ms all_pending ≡ ok sel
        → AreSettled (status_entries rows ms)
    back sel found =
        let (u, supplied, later) = >>=-eq-ok (check_supplied rows ms) _ found in
        rw ((supplied_unknown rows ms).0 (check_supplied_ok rows ms supplied))
          (select-status_from rows (length ms) 0 false ms sel later)

    selected :
        (sel : List PreparedMigration)
        → select_applies rows ms all_pending ≡ ok sel
        → ids sel ≡ pending_ids (status_entries rows ms)
    selected sel found =
        let (other, again, same) = forth (back sel found) in
        ap ids (ok_inj (sym found ∙ again)) ∙ same
