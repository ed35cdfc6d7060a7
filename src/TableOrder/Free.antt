-- ===== src/TableOrder/Free.antt =====
-- The keys whose dependencies are all in the order, in internal/migrationorder/tables.go.
use rasql.Prelude.{
  ◌≡◌, refl, ap, ℕ, zero, suc, ◌+◌, ◌≤◌, ◌<◌, true, false, some, some_inj, List, [], ◌∷◌, ◌++◌,
  ◌==◌, length, get_elem?, Bytes, equal, equal_iff, Bool-cases, inl, inr, arith,
}
use rasql.TableOrder.{TableDependency, mem_text, keys_of, dependencies, free_keys}
use rasql.TableOrder.Count.{times}
use rasql.TableOrder.Degrees.{missing}
use rasql.TableOrder.Release.{degrees, released, missing-depends, missing-other}

-- The key of a table that is there is among the keys.
pub get-times :
    (ts : List TableDependency) (i : ℕ) (t : TableDependency)
    → get_elem? ts i ≡ some t
    → 0 < times t.key (keys_of ts)
unfolding times
get-times [] i t e = absurd cc
get-times (u ∷ ts) zero t e =
    let same : u.key ≡ t.key = ap (λ x. x.key) (some_inj e) in
    let self : equal u.key t.key ≡ true = (equal_iff u.key t.key).1 same in ground arith
get-times (u ∷ ts) (suc i) t e = ground (arith, get-times ts i t e)

-- A table that is behind another one has another key.
pub behind_other :
    (u : TableDependency) (ts : List TableDependency) (i : ℕ) (t : TableDependency)
    → ((x : Bytes) → times x (keys_of (u ∷ ts)) ≤ 1)
    → get_elem? ts i ≡ some t
    → equal u.key t.key ≡ false
unfolding times
behind_other u ts i t once e =
    let all = once t.key in let there = get-times ts i t e in ground arith

module _ (keys : List Bytes) where
  abbrev pub free : List Bytes → List TableDependency → List Bytes
  free done ts = free_keys (degrees keys done ts)

  pub times-free :
      (key x : Bytes) (done : List Bytes) (ts : List TableDependency)
      → mem_text key done ≡ false
      → times x (free (done ++ key ∷ []) ts)
        ≡ times x (free done ts) + times x (released keys key done ts)
  unfolding times free_keys degrees released
  times-free key x done [] h = refl
  times-free key x done (t ∷ ts) h =
      let rest = times-free key x done ts h in
      elim (Bool-cases (mem_text key (dependencies keys t))) [
        | inl depends ↦ let fewer = missing-depends keys key done t h depends in ground arith
        | inr other ↦ let same = missing-other keys key done t h other in ground arith
      ]

  pub length-free :
      (key : Bytes) (done : List Bytes) (ts : List TableDependency)
      → mem_text key done ≡ false
      → length (free (done ++ key ∷ []) ts)
        ≡ length (free done ts) + length (released keys key done ts)
  unfolding free_keys degrees released
  length-free key done [] h = refl
  length-free key done (t ∷ ts) h =
      let rest = length-free key done ts h in
      elim (Bool-cases (mem_text key (dependencies keys t))) [
        | inl depends ↦ let fewer = missing-depends keys key done t h depends in ground arith
        | inr other ↦ let same = missing-other keys key done t h other in ground arith
      ]

  pub times-free-le :
      (x : Bytes) (done : List Bytes) (ts : List TableDependency)
      → times x (free done ts) ≤ times x (keys_of ts)
  unfolding times free_keys degrees
  times-free-le x done [] = omega arith
  times-free-le x done (t ∷ ts) = ground (arith, times-free-le x done ts)

  pub length-free-le :
      (done : List Bytes) (ts : List TableDependency) → length (free done ts) ≤ length ts
  unfolding free_keys degrees
  length-free-le done [] = omega arith
  length-free-le done (t ∷ ts) = ground (arith, length-free-le done ts)

  pub free-missing :
      (done : List Bytes) (ts : List TableDependency) (i : ℕ) (t : TableDependency)
      → ((x : Bytes) → times x (keys_of ts) ≤ 1)
      → get_elem? ts i ≡ some t
      → 0 < times t.key (free done ts)
      → missing done (dependencies keys t) ≡ 0
  unfolding times free_keys degrees
  free-missing done [] i t once e h = absurd cc
  free-missing done (u ∷ ts) zero t once e h =
      let same : missing done (dependencies keys u) ≡ missing done (dependencies keys t) =
        ap (λ x. missing done (dependencies keys x)) (some_inj e) in
      let self : equal u.key t.key ≡ true =
        (equal_iff u.key t.key).1 (ap (λ x. x.key) (some_inj e)) in
      let few = times-free-le t.key done ts in let all = once t.key in ground arith
  free-missing done (u ∷ ts) (suc i) t once e h =
      let other = behind_other u ts i t once e in
      free-missing done ts i t (λ x. let all = once x in ground arith) e (ground arith)

  pub missing-free :
      (done : List Bytes) (ts : List TableDependency) (i : ℕ) (t : TableDependency)
      → get_elem? ts i ≡ some t
      → missing done (dependencies keys t) ≡ 0
      → 0 < times t.key (free done ts)
  unfolding times free_keys degrees
  missing-free done [] i t e h = absurd cc
  missing-free done (u ∷ ts) zero t e h =
      let same : missing done (dependencies keys u) ≡ missing done (dependencies keys t) =
        ap (λ x. missing done (dependencies keys x)) (some_inj e) in
      let self : equal u.key t.key ≡ true =
        (equal_iff u.key t.key).1 (ap (λ x. x.key) (some_inj e)) in
      ground arith
  missing-free done (u ∷ ts) (suc i) t e h = ground (arith, missing-free done ts i t e h)

  pub free_full :
      (done : List Bytes) (ts : List TableDependency)
      → length (free done ts) ≡ length ts
      → free done ts ≡ keys_of ts
  unfolding free_keys degrees
  free_full done [] h = refl
  free_full done (t ∷ ts) h =
      let le = length-free-le done ts in
      elim (Bool-cases (missing done (dependencies keys t) == 0)) [
        | inl met ↦ rw met (ap (◌∷◌ t.key) (free_full done ts (ground arith)))
        | inr unmet ↦ absurd (ground arith)
      ]

  pub free_all :
      (done : List Bytes) (ts : List TableDependency)
      → ((i : ℕ) (t : TableDependency)
          → get_elem? ts i ≡ some t
          → missing done (dependencies keys t) ≡ 0)
      → free done ts ≡ keys_of ts
  unfolding free_keys degrees
  free_all done [] h = refl
  free_all done (t ∷ ts) h =
      let met : (missing done (dependencies keys t) == 0) ≡ true =
        let none = h 0 t refl in ground arith in
      rw met (ap (◌∷◌ t.key) (free_all done ts (λ i u e. h (suc i) u e)))
