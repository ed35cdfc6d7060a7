-- ===== src/TableOrder/Degrees.antt =====
-- The degrees in internal/migrationorder/tables.go: each counts the dependencies that are not yet
-- in the order.
use rasql.Prelude.{
  ◌≡◌, refl, ap, ℕ, suc, ◌+◌, ◌≤◌, Bool, true, false, not, ◌&&◌, List, [], ◌∷◌, ◌++◌, if◌then◌else◌,
  length, Bytes, equal, equal_iff, equal_self, Bool-cases, inl, inr, arith,
}
use rasql.TableOrder.{TableDependency, mem_text, counted, dependencies}
use rasql.TableOrder.Count.{equal_comm, times, mem_text-eq, mem_text-append}

-- How many of the keys are not in the order.
unfoldable pub missing : List Bytes → List Bytes → ℕ
missing done [] = 0
missing done (d ∷ ds) = let rest = missing done ds in if mem_text d done then rest else suc rest

abbrev bit : Bool → ℕ
bit true = 1
bit false = 0

bit-le : {n : ℕ} (b : Bool) → n ≡ bit b → n ≤ 1
bit-le true e = omega arith
bit-le false e = omega arith

times-counted :
    (keys : List Bytes) (key x : Bytes) (seen ds : List Bytes)
    → times x (counted keys key seen ds)
      ≡ bit (mem_text x ds && (not (equal x key) && (mem_text x keys && not (mem_text x seen))))
unfolding times counted mem_text
times-counted keys key x seen [] = refl
times-counted keys key x seen (d ∷ ds) = elim (Bool-cases (equal d x)) [
  | inl same ↦
      let e = (equal_iff d x).0 same in
      let key_too : equal d key ≡ equal x key = ap (λ z. equal z key) e in
      let keys_too : mem_text d keys ≡ mem_text x keys = ap (λ z. mem_text z keys) e in
      let seen_too : mem_text d seen ≡ mem_text x seen = ap (λ z. mem_text z seen) e in
      ground (arith, times-counted keys key x seen ds, times-counted keys key x (d ∷ seen) ds)
  | inr other ↦
      ground (arith, times-counted keys key x seen ds, times-counted keys key x (d ∷ seen) ds)
]

pub missing-next :
    (key : Bytes) (done ds : List Bytes)
    → mem_text key done ≡ false
    → missing (done ++ key ∷ []) ds + times key ds ≡ missing done ds
unfolding missing times mem_text
missing-next key done [] h = refl
missing-next key done (d ∷ ds) h = elim (Bool-cases (equal d key)) [
  | inl same ↦
      let e = (equal_iff d key).0 same in
      let done_too : mem_text d done ≡ mem_text key done = ap (λ z. mem_text z done) e in
      let back = equal_comm key d in
      ground (arith, mem_text-append d done (key ∷ []), missing-next key done ds h)
  | inr other ↦
      let back = equal_comm key d in
      ground (arith, mem_text-append d done (key ∷ []), missing-next key done ds h)
]

pub missing-zero :
    (done ds : List Bytes) (d : Bytes)
    → missing done ds ≡ 0
    → mem_text d ds ≡ true
    → mem_text d done ≡ true
unfolding missing mem_text
missing-zero done [] d h m = absurd cc
missing-zero done (e ∷ ds) d h m = elim (Bool-cases (equal e d)) [
  | inl same ↦
      let done_too : mem_text e done ≡ mem_text d done =
        ap (λ z. mem_text z done) ((equal_iff e d).0 same) in
      ground arith
  | inr other ↦ ground (arith, missing-zero done ds d)
]

pub missing-eq-zero :
    (done ds : List Bytes)
    → ((d : Bytes) → mem_text d ds ≡ true → mem_text d done ≡ true)
    → missing done ds ≡ 0
unfolding missing mem_text
missing-eq-zero done [] h = refl
missing-eq-zero done (d ∷ ds) h =
    let rest = missing-eq-zero done ds (λ e m. h e (ground arith)) in
    let first : mem_text d done ≡ true = h d (let self = equal_self d in ground arith) in
    rw first rest

pub missing-nil : (ds : List Bytes) → missing [] ds ≡ length ds
unfolding missing mem_text
missing-nil [] = refl
missing-nil (d ∷ ds) = omega (arith, missing-nil ds)

-- A table has each of its dependencies once.
pub times-dependencies :
    (keys : List Bytes) (x : Bytes) (t : TableDependency)
    → (mem_text x (dependencies keys t) ≡ true → times x (dependencies keys t) ≡ 1)
      × (mem_text x (dependencies keys t) ≡ false → times x (dependencies keys t) ≡ 0)
times-dependencies keys x t =
    let once : times x (dependencies keys t) ≤ 1 =
      bit-le _ (times-counted keys t.key x [] t.depends_on) in
    let shown = mem_text-eq x (dependencies keys t) in ((λ m. ground arith), (λ m. ground arith))

-- The dependencies that count are those on other tables that are among the keys.
pub mem_text-dependencies :
    (keys : List Bytes) (x : Bytes) (t : TableDependency)
    → mem_text x (dependencies keys t)
      ≡ (mem_text x t.depends_on && (not (equal x t.key) && mem_text x keys))
unfolding mem_text
mem_text-dependencies keys x t =
    let shown = mem_text-eq x (dependencies keys t) in
    ground (arith, times-counted keys t.key x [] t.depends_on)
