-- ===== src/TableOrder/Order.antt =====
-- What `OrderTables` of internal/migrationorder/tables.go gives back.
use rasql.Prelude.{
  ◌≡◌, ◌⊎◌, refl, sym, ap, ◌∙◌, ℕ, suc, ◌≤◌, true, false, some, List, [], ◌∷◌, ◌==◌, if◌then◌else◌,
  length, get_elem?, Bytes, equal, equal_iff, equal_self, Bool-cases, All, subst, some_inj, zero,
  inl, inr, Result, ok, err, ok_inj, >>=-eq-ok, arith,
}
use rasql.Migrate.Status.{sort_texts}
use rasql.TableOrder.{
  TableDependency, OrderError, mem_text, check_keys, keys_of, dependencies, free_keys, order_from,
  remaining, order_tables, cycle,
}
use rasql.TableOrder.Count.{times, mem_text-eq}
use rasql.TableOrder.Degrees.{mem_text-dependencies}
use rasql.TableOrder.Release.{degrees, indegrees-eq}
use rasql.TableOrder.Free.{free, get-times, free_full}
use rasql.TableOrder.Loop.{Before, Inv, Inv-start, order_from_lem}

module _ {A : Type 0} (P : A → Type 0) where
  pub All_get : (xs : List A) (i : ℕ) (x : A) → All P xs → get_elem? xs i ≡ some x → P x
  All_get [] i x _ e = absurd cc
  All_get (y ∷ ys) zero x (p, _) e = subst P (some_inj e) p
  All_get (y ∷ ys) (suc i) x (_, ps) e = All_get ys i x ps e

  pub get_All : (xs : List A) → ((i : ℕ) (x : A) → get_elem? xs i ≡ some x → P x) → All P xs
  get_All [] _ = tt
  get_All (x ∷ xs) h = (h 0 x refl, get_All xs (λ i y e. h (suc i) y e))

module _ (P : Bytes → Type 0) where
  pub All_mem : (xs : List Bytes) (x : Bytes) → All P xs → mem_text x xs ≡ true → P x
  unfolding mem_text
  All_mem [] x _ m = absurd cc
  All_mem (y ∷ ys) x (p, ps) m = elim (Bool-cases (equal y x)) [
    | inl same ↦ subst P ((equal_iff y x).0 same) p
    | inr other ↦ All_mem ys x ps (rw other at m)
  ]

  pub mem_All : (xs : List Bytes) → ((x : Bytes) → mem_text x xs ≡ true → P x) → All P xs
  unfolding mem_text
  mem_All [] _ = tt
  mem_All (x ∷ xs) h =
      (h x (let self = equal_self x in ground arith), mem_All xs (λ y m. h y (ground arith)))

check_keys_next :
    (seen : List Bytes) (t : TableDependency) (ts : List TableDependency)
    → check_keys seen (t ∷ ts) ≡ ok tt
    → (mem_text t.key seen ≡ false) × (check_keys (t.key ∷ seen) ts ≡ ok tt)
unfolding check_keys
check_keys_next seen t ts h = elim (Bool-cases (equal t.key [])) [
  | inl no_key ↦ let bad = rw no_key at h in absurd cc
  | inr keyed ↦ elim (Bool-cases (mem_text t.key seen)) [
    | inl twice ↦ let bad = rw (keyed, twice) at h in absurd cc
    | inr new ↦ (new, rw (keyed, new) at h)
  ]
]

check_keys_fresh :
    (seen : List Bytes) (ts : List TableDependency) (x : Bytes)
    → check_keys seen ts ≡ ok tt
    → mem_text x seen ≡ true
    → times x (keys_of ts) ≡ 0
unfolding times mem_text
check_keys_fresh seen [] x h m = refl
check_keys_fresh seen (t ∷ ts) x h m =
    let (new, rest) = check_keys_next seen t ts h in
    let later = check_keys_fresh (t.key ∷ seen) ts x rest (ground arith) in
    elim (Bool-cases (equal t.key x)) [
      | inl same ↦
          let both : mem_text t.key seen ≡ mem_text x seen =
            ap (λ z. mem_text z seen) ((equal_iff t.key x).0 same) in
          absurd (ground arith)
      | inr other ↦ rw other later
    ]

pub check_keys-once :
    (seen : List Bytes) (ts : List TableDependency) (x : Bytes)
    → check_keys seen ts ≡ ok tt
    → times x (keys_of ts) ≤ 1
unfolding times mem_text
check_keys-once seen [] x h = omega arith
check_keys-once seen (t ∷ ts) x h =
    let (new, rest) = check_keys_next seen t ts h in
    let few = check_keys-once (t.key ∷ seen) ts x rest in
    elim (Bool-cases (equal t.key x)) [
      | inl same ↦
          let none = check_keys_fresh (t.key ∷ seen) ts x rest (ground arith) in ground arith
      | inr other ↦ rw other few
    ]

-- The loop's result, and what the code gives back for it.
module _ (tables : List TableDependency) (valid : check_keys [] tables ≡ ok tt) where
  unfoldable pub answer : List Bytes × List (Bytes × ℕ) → Result OrderError (List Bytes)
  answer (final, left) =
      if length final == length tables
      then ok final
      else err (cycle (sort_texts (remaining tables left)))

  abbrev pub result_of : List Bytes → Result OrderError (List Bytes)
  result_of final = answer (final, degrees (keys_of tables) final tables)

  pub order_tables-loop :
      (final : List Bytes) × ((order_tables tables ≡ result_of final) × Inv tables final [])
  unfolding order_tables answer
  order_tables-loop =
      let start = Inv-start tables in
      let once = λ (x : Bytes). check_keys-once [] tables x valid in
      let (final, (runs, done)) =
        order_from_lem tables once (length tables) [] _ (omega arith) start in
      let same = indegrees-eq (keys_of tables) tables in
      let full =
        ap
          (λ (z : List (Bytes × ℕ)).
            order_from (length tables) tables z [] (sort_texts (free_keys z)))
          same
        ∙ runs in
      let shown : order_tables tables ≡ result_of final =
        let told = ap answer full in rw valid told in
      (final, (shown, done))

  answer_ok :
      (final ordered : List Bytes) (left : List (Bytes × ℕ))
      → answer (final, left) ≡ ok ordered
      → (length final ≡ length tables) × (final ≡ ordered)
  unfolding answer
  answer_ok final ordered left h = elim (Bool-cases (length final == length tables)) [
    | inl full ↦ (ground arith, ok_inj (rw full at h))
    | inr short ↦ let bad = rw short at h in absurd cc
  ]

-- An order and what it came from.
pub record Found (tables : List TableDependency) (ordered : List Bytes) : Type 0 where
  pub valid : check_keys [] tables ≡ ok tt
  pub same : (x : Bytes) → times x ordered ≡ times x (keys_of tables)
  pub inv : Inv tables ordered []

pub order_tables-Found :
    (tables : List TableDependency) (ordered : List Bytes)
    → order_tables tables ≡ ok ordered
    → Found tables ordered
unfolding order_tables times
order_tables-Found tables ordered h =
    let (_, valid, _) = >>=-eq-ok (check_keys [] tables) _ h in
    let (final, (shown, inv)) = order_tables-loop tables valid in
    let (full, e) = answer_ok tables valid final ordered _ (sym shown ∙ h) in
    let all = free_full (keys_of tables) final tables (omega (arith, inv.lengths)) in
    record {
      valid = valid;
      same = λ x.
          let one : times x final ≡ times x ordered = ap (times x) e in
          let two : times x (free (keys_of tables) final tables) ≡ times x (keys_of tables) =
            ap (times x) all in
          omega (arith, inv.counts x);
      inv = subst (λ o. Inv tables o []) e inv;
    }

-- In an order each dependency of a table is the table itself, or is not among the tables, or stands
-- in front of it.
abbrev pub IsLaid : List Bytes → List Bytes → TableDependency → Type 0
IsLaid keys ordered t =
    All (λ d. (d ≡ t.key) ⊎ (mem_text d keys ≡ false) ⊎ Before d t.key ordered) t.depends_on

-- Where `OrderTables` gives an order, no key is there twice, the order has the keys of the tables and
-- no others, each as often, and every dependency of every table is the table itself, or is not among
-- the tables, or stands in front of the table.
pub order_tables_sound :
    (tables : List TableDependency) (ordered : List Bytes)
    → order_tables tables ≡ ok ordered
    → ((x : Bytes) → (times x (keys_of tables) ≤ 1) × (times x ordered ≡ times x (keys_of tables)))
      × All (IsLaid (keys_of tables) ordered) tables
order_tables_sound tables ordered h =
    let found = order_tables-Found tables ordered h in
    (
      λ x. (check_keys-once [] tables x found.valid, found.same x),
      get_All (IsLaid (keys_of tables) ordered) tables λ i t e.
          mem_All
            (λ d. (d ≡ t.key) ⊎ (mem_text d (keys_of tables) ≡ false) ⊎ Before d t.key ordered)
            t.depends_on
            λ d on. elim (Bool-cases (equal d t.key)) [
              | inl own ↦ inl ((equal_iff d t.key).0 own)
              | inr apart ↦ elim (Bool-cases (mem_text d (keys_of tables))) [
                | inr away ↦ inr (inl away)
                | inl here ↦
                    let shown = mem_text-dependencies (keys_of tables) d t in
                    let counts : mem_text d (dependencies (keys_of tables) t) ≡ true =
                      ground arith in
                    let among = get-times tables i t e in
                    let same = found.same t.key in
                    let there = mem_text-eq t.key ordered in
                    inr (inr (found.inv.first i t d e counts (ground arith)))
              ]
            ],
    )
