-- ===== src/Migrate/Prepare/Sorted.antt =====
-- `prepareMigrations` gives the supplied migrations, each with its checksum, strictly ordered by ID.
use mathlib.Core.List.{Perm}
use mathlib.Core.List.Perm
use mathlib.Core.Path.{subst}
use rasql.Prelude.{
  ◌≡◌, refl, ap, true, false, inl, inr, List, [], ◌∷◌, map, arith, Bool-cases, All, Bytes, equal,
  text_lt, text_lt_trans, text_lt_total, Result, ok, >>=-eq-ok, guard, not,
}
use rasql.Migrate.Migration.{Migration, contains, validate}
use rasql.Migrate.Reason.{Reason, duplicate_id}
use rasql.Migrate.Prepare.{
  PreparedMigration, prepare, blame, prepare_each, insert_by_id, sort_by_id, prepare_migrations,
}

-- Every ID of `ms` lies above `id`.
abbrev pub Above : Bytes → List PreparedMigration → Type 0
Above id ms = All (λ m. text_lt id m.id ≡ true) ms

-- Strictly ordered by ID.
abbrev pub IsSorted : List PreparedMigration → Type 0
IsSorted [] = Unit
IsSorted (m ∷ ms) = Above m.id ms × IsSorted ms

abbrev Misses : Bytes → List PreparedMigration → Type 0
Misses id ms = All (λ m. equal id m.id ≡ false) ms

Above-trans :
    (a b : Bytes) (ms : List PreparedMigration) → text_lt a b ≡ true → Above b ms → Above a ms
Above-trans a b [] h _ = tt
Above-trans a b (m ∷ ms) h (k, ks) = (text_lt_trans a b m.id h k, Above-trans a b ms h ks)

insert-Above :
    (id : Bytes) (m : PreparedMigration) (ms : List PreparedMigration)
    → text_lt id m.id ≡ true
    → Above id ms
    → Above id (insert_by_id m ms)
unfolding insert_by_id
insert-Above id m [] h _ = (h, tt)
insert-Above id m (p ∷ ps) h (k, ks) = ground (arith, insert-Above id m ps h ks)

insert-IsSorted :
    (m : PreparedMigration) (ms : List PreparedMigration)
    → Misses m.id ms
    → IsSorted ms
    → IsSorted (insert_by_id m ms)
unfolding insert_by_id
insert-IsSorted m [] _ _ = (tt, tt)
insert-IsSorted m (p ∷ ps) (n, ns) (a, s) = elim (Bool-cases (text_lt m.id p.id)) [
  | inl e ↦ rw e ((e, Above-trans m.id p.id ps e a), (a, s))
  | inr e ↦ rw e (insert-Above p.id m ps (text_lt_total m.id p.id e n) a, insert-IsSorted m ps ns s)
]

insert-Misses :
    (id : Bytes) (m : PreparedMigration) (ms : List PreparedMigration)
    → equal id m.id ≡ false
    → Misses id ms
    → Misses id (insert_by_id m ms)
unfolding insert_by_id
insert-Misses id m [] h _ = (h, tt)
insert-Misses id m (p ∷ ps) h (k, ks) = ground (arith, insert-Misses id m ps h ks)

sort-Misses : (id : Bytes) (ms : List PreparedMigration) → Misses id ms → Misses id (sort_by_id ms)
unfolding sort_by_id
sort-Misses id [] _ = tt
sort-Misses id (m ∷ ms) (h, hs) = insert-Misses id m (sort_by_id ms) h (sort-Misses id ms hs)

insert-perm :
    (m : PreparedMigration) (ms : List PreparedMigration) → Perm (insert_by_id m ms) (m ∷ ms)
unfolding insert_by_id
insert-perm m [] = Perm.refl (m ∷ [])
insert-perm m (p ∷ ps) = elim (Bool-cases (text_lt m.id p.id)) [
  | inl e ↦ rw e (Perm.refl (m ∷ p ∷ ps))
  | inr e ↦ rw e (Perm.trans (Perm.cons p (insert-perm m ps)) (Perm.swap m p ps))
]

sort-perm : (ms : List PreparedMigration) → Perm (sort_by_id ms) ms
unfolding sort_by_id
sort-perm [] = Perm.refl []
sort-perm (m ∷ ms) = Perm.trans (insert-perm m (sort_by_id ms)) (Perm.cons m (sort-perm ms))

abbrev Distinct : List PreparedMigration → Type 0
Distinct [] = Unit
Distinct (m ∷ ms) = Misses m.id ms × Distinct ms

sort-IsSorted : (ms : List PreparedMigration) → Distinct ms → IsSorted (sort_by_id ms)
unfolding sort_by_id
sort-IsSorted [] _ = tt
sort-IsSorted (m ∷ ms) (n, d) =
    insert-IsSorted m (sort_by_id ms) (sort-Misses m.id ms n) (sort-IsSorted ms d)

abbrev Unseen : List Bytes → List PreparedMigration → Type 0
Unseen ids ms = All (λ p. contains ids p.id ≡ false) ms

Unseen-cons :
    (id : Bytes) (ids : List Bytes) (ps : List PreparedMigration)
    → Unseen (id ∷ ids) ps
    → Misses id ps × Unseen ids ps
unfolding contains
Unseen-cons id ids [] _ = (tt, tt)
Unseen-cons id ids (p ∷ ps) (h, hs) = ground (arith, Unseen-cons id ids ps hs)

ok_inj :
    {ps qs : List PreparedMigration}
    → ◌≡◌ {A = Result Reason (List PreparedMigration)} (ok ps) (ok qs)
    → ps ≡ qs
ok_inj h = cc

module _ (digest : Bytes → Bytes) where
  record Prepared (ids : List Bytes) (ms : List Migration) (ps : List PreparedMigration)
      : Type 0 where
    mapped : ps ≡ map (prepare digest) ms
    valid : All (λ m. validate m ≡ ok tt) ms
    distinct : Distinct ps
    unseen : Unseen ids ps

  blame_ok :
      (id : Bytes) (m : Migration) (u : Unit {0})
      → blame id (validate m) ≡ ok u
      → validate m ≡ ok tt
  blame_ok id m u h = ground arith

  Prepared-cons :
      (ids : List Bytes) (m : Migration) (ms : List Migration) (ps : List PreparedMigration)
      → contains ids m.id ≡ false
      → validate m ≡ ok tt
      → Prepared (m.id ∷ ids) ms ps
      → Prepared ids (m ∷ ms) (prepare digest m ∷ ps)
  unfolding prepare
  Prepared-cons ids m ms ps fresh valid rest =
      let (apart, unseen) = Unseen-cons m.id ids ps rest.unseen in
      record {
        mapped = ap (◌∷◌ (prepare digest m)) rest.mapped;
        valid = (valid, rest.valid);
        distinct = (apart, rest.distinct);
        unseen = (fresh, unseen);
      }

  prepare_each-Prepared :
      (ids : List Bytes) (ms : List Migration) (ps : List PreparedMigration)
      → prepare_each digest ids ms ≡ ok ps
      → Prepared ids ms ps
  unfolding prepare_each
  prepare_each-Prepared ids [] ps h =
      subst (λ qs. Prepared ids [] qs) (ok_inj h)
        (record { mapped = refl; valid = tt; distinct = tt; unseen = tt })
  prepare_each-Prepared ids (m ∷ ms) ps h =
      let (u, fresh, h1) = >>=-eq-ok (guard (not (contains ids m.id)) (duplicate_id m.id)) _ h in
      let (v, good, h2) = >>=-eq-ok (blame m.id (validate m)) _ h1 in
      let (rest, each, h3) = >>=-eq-ok (prepare_each digest (m.id ∷ ids) ms) _ h2 in
      let ih = prepare_each-Prepared (m.id ∷ ids) ms rest each in
      subst (λ qs. Prepared ids (m ∷ ms) qs) (ok_inj h3)
        (Prepared-cons ids m ms rest (ground arith) (blame_ok m.id m v good) ih)

  -- What `prepareMigrations` returns is the supplied migrations with their checksums, in another
  -- order: strictly ordered by ID; and each supplied migration passed its validation.
  pub prepare_migrations_lem :
      (ms : List Migration) {ps : List PreparedMigration}
      → prepare_migrations digest ms ≡ ok ps
      → IsSorted ps × Perm ps (map (prepare digest) ms) × All (λ m. validate m ≡ ok tt) ms
  unfolding prepare_migrations
  prepare_migrations_lem ms {ps} h =
      let (each, e, h1) = >>=-eq-ok (prepare_each digest [] ms) _ h in
      let p = prepare_each-Prepared [] ms each e in
      rw (← ok_inj h1) (
        sort-IsSorted each p.distinct,
        subst (λ qs. Perm (sort_by_id each) qs) p.mapped (sort-perm each),
        p.valid,
      )
