-- ===== src/Migrate/RoundTrip/Rows.antt =====
-- Rows that an apply (migrate/apply.go) adds to a history, and what they say of sorted migrations.
use rasql.Prelude.{
  ◌≡◌, refl, sym, ap, ◌∙◌, true, false, Option, none, some, List, [], ◌∷◌, ◌++◌, append_assoc,
  append-nil, map, inl, inr, All, All-append_left, All-append_right, All-imp, All-both, All-of,
  arith, Bytes, equal, equal_iff, equal_self, text_lt, text_lt_irrefl, Bool-cases,
}
use rasql.Migrate.Prepare.{PreparedMigration}
use rasql.Migrate.Prepare.Sorted.{IsSorted}
use rasql.Migrate.History.{Row, lookup, row_of, IsRecorded, IsPending}
use rasql.Migrate.Run.Direction.{up}
use rasql.Migrate.Run.Direction.{write_all}

abbrev pub rows_of : List PreparedMigration → List Row
rows_of = map row_of

pub write_all-up :
    (ms : List PreparedMigration) (rows : List Row) → write_all up ms rows ≡ rows ++ rows_of ms
write_all-up [] rows = sym (append-nil rows)
write_all-up (m ∷ ms) rows =
    write_all-up ms (rows ++ row_of m ∷ []) ∙ append_assoc rows (row_of m ∷ []) (rows_of ms)

lookup-append_some :
    (id v : Bytes) (rows more : List Row)
    → lookup id rows ≡ some v
    → lookup id (rows ++ more) ≡ some v
unfolding lookup
lookup-append_some id v [] more h = absurd (ground arith)
lookup-append_some id v ((k, w) ∷ rows) more h = ground (arith, lookup-append_some id v rows more)

pub lookup-append_none :
    (id : Bytes) (rows more : List Row)
    → lookup id rows ≡ none
    → lookup id (rows ++ more) ≡ lookup id more
unfolding lookup
lookup-append_none id [] more h = refl
lookup-append_none id ((k, w) ∷ rows) more h = ground (arith, lookup-append_none id rows more)

-- An ID below another is another.
pub lt-ne : (a b : Bytes) → text_lt a b ≡ true → equal a b ≡ false
lt-ne a b h = elim (Bool-cases (equal a b)) [
  | inr e ↦ e
  | inl e ↦
      let same : text_lt a b ≡ text_lt b b = ap (λ t. text_lt t b) ((equal_iff a b).0 e) in
      cc (same, text_lt_irrefl b)
]

pub lookup_step :
    (p m : PreparedMigration) (rows : List Row) (r : Option Bytes)
    → text_lt p.id m.id ≡ true
    → lookup m.id rows ≡ r
    → lookup m.id (row_of p ∷ rows) ≡ r
unfolding lookup
lookup_step p m rows r lt e = rw (lt-ne p.id m.id lt) e

-- The sorted migrations `before`, then `after`: no row of the one has an ID of the other.
lookup_later :
    (before after : List PreparedMigration)
    → IsSorted (before ++ after)
    → All (λ m. lookup m.id (rows_of before) ≡ none) after
unfolding lookup
lookup_later [] after s = All-of (λ m. lookup m.id [] ≡ none) (λ m. refl) after
lookup_later (p ∷ before) after (a, s) =
    All-imp (λ m. (text_lt p.id m.id ≡ true) × (lookup m.id (rows_of before) ≡ none))
      (λ m. lookup m.id (rows_of (p ∷ before)) ≡ none)
      (λ m h. lookup_step p m (rows_of before) none h.0 h.1) after
      (All-both (λ m. text_lt p.id m.id ≡ true) (λ m. lookup m.id (rows_of before) ≡ none) after
        (All-append_right _ before after a) (lookup_later before after s))

lookup_head :
    (m : PreparedMigration) (rows : List Row) → lookup m.id (row_of m ∷ rows) ≡ some m.checksum
unfolding lookup
lookup_head m rows = rw equal_self

lookup_own :
    (ms : List PreparedMigration)
    → IsSorted ms
    → All (λ m. lookup m.id (rows_of ms) ≡ some m.checksum) ms
lookup_own [] s = tt
lookup_own (m ∷ ms) (a, s) = (
  lookup_head m (rows_of ms),
  All-imp (λ n. (text_lt m.id n.id ≡ true) × (lookup n.id (rows_of ms) ≡ some n.checksum))
      (λ n. lookup n.id (rows_of (m ∷ ms)) ≡ some n.checksum)
      (λ n h. lookup_step m n (rows_of ms) (some n.checksum) h.0 h.1) ms
      (All-both (λ n. text_lt m.id n.id ≡ true) (λ n. lookup n.id (rows_of ms) ≡ some n.checksum) ms
        a (lookup_own ms s)),
)

pub IsSorted-right :
    (before after : List PreparedMigration) → IsSorted (before ++ after) → IsSorted after
IsSorted-right [] after s = s
IsSorted-right (m ∷ before) after (a, s) = IsSorted-right before after s

pub IsSorted-left :
    (before after : List PreparedMigration) → IsSorted (before ++ after) → IsSorted before
IsSorted-left [] after s = tt
IsSorted-left (m ∷ before) after (a, s) =
    (All-append_left _ before after a, IsSorted-left before after s)

-- What the applied rows say of the migrations, where `done`, `sel` and `later` are all of them.
module _ (rows : List Row) (done sel later : List PreparedMigration)
    (sorted : IsSorted (done ++ (sel ++ later))) (recorded : All (IsRecorded rows) done)
    (waiting : All (IsPending rows) (sel ++ later)) where
  abbrev pub applied_rows : List Row
  applied_rows = rows ++ rows_of sel

  pub done-IsRecorded : All (IsRecorded applied_rows) done
  done-IsRecorded =
      All-imp (IsRecorded rows) (IsRecorded applied_rows)
        (λ m h. lookup-append_some m.id m.checksum rows (rows_of sel) h) done recorded

  pub sel-IsRecorded : All (IsRecorded applied_rows) sel
  sel-IsRecorded =
      All-imp (λ m. IsPending rows m × (lookup m.id (rows_of sel) ≡ some m.checksum))
        (IsRecorded applied_rows) (λ m h. lookup-append_none m.id rows (rows_of sel) h.0 ∙ h.1) sel
        (All-both (IsPending rows) (λ m. lookup m.id (rows_of sel) ≡ some m.checksum) sel
          (All-append_left _ sel later waiting)
          (lookup_own sel (IsSorted-left sel later (IsSorted-right done (sel ++ later) sorted))))

  pub later-IsPending : All (IsPending applied_rows) later
  later-IsPending =
      All-imp (λ m. IsPending rows m × (lookup m.id (rows_of sel) ≡ none)) (IsPending applied_rows)
        (λ m h. lookup-append_none m.id rows (rows_of sel) h.0 ∙ h.1) later
        (All-both (IsPending rows) (λ m. lookup m.id (rows_of sel) ≡ none) later
          (All-append_right _ sel later waiting)
          (lookup_later sel later (IsSorted-right done (sel ++ later) sorted)))
