-- ===== src/TableOrder/Release.antt =====
-- What internal/migrationorder/tables.go does to the degrees when a key is taken out: the degrees
-- are those behind the longer order, and the keys that become ready are new ones.
use rasql.Prelude.{
  ◌≡◌, refl, sym, ap, ◌∙◌, ℕ, suc, ◌+◌, ◌-◌, ◌≤◌, true, false, ◌&&◌, List, [], ◌∷◌, ◌++◌, ◌==◌,
  if◌then◌else◌, Bytes, equal, equal_self, Bool-cases, inl, inr, arith,
}
use mathlib.Core.List.{append_assoc, append-nil}
use rasql.TableOrder.{
  TableDependency, mem_text, keys_of, dependencies, indegrees, dependents_of, decrement,
  release_all,
}
use rasql.TableOrder.Count.{times, times-append}
use rasql.TableOrder.Degrees.{missing, missing-next, missing-nil, times-dependencies}

keys_of-append :
    (front rest : List TableDependency) → keys_of (front ++ rest) ≡ keys_of front ++ keys_of rest
keys_of-append [] rest = refl
keys_of-append (t ∷ ts) rest = ap (◌∷◌ t.key) (keys_of-append ts rest)

once_shifted :
    (front : List TableDependency) (t : TableDependency) (ts : List TableDependency)
    → ((x : Bytes) → times x (keys_of front) + times x (keys_of (t ∷ ts)) ≤ 1)
    → (x : Bytes) → times x (keys_of (front ++ t ∷ [])) + times x (keys_of ts) ≤ 1
unfolding times
once_shifted front t ts once x =
    let all = once x in
    let here = times-append x (keys_of front) (t.key ∷ []) in
    rw (keys_of-append front (t ∷ [])) (ground arith)

once_before :
    (front : List TableDependency) (t : TableDependency) (ts : List TableDependency)
    → ((x : Bytes) → times x (keys_of front) + times x (keys_of (t ∷ ts)) ≤ 1)
    → times t.key (keys_of front) ≡ 0
unfolding times
once_before front t ts once = let all = once t.key in let self = equal_self t.key in ground arith

release_all-cons :
    (d : Bytes) (ds : List Bytes) (entries : List (Bytes × ℕ)) (ready : List Bytes) (left : ℕ)
    (entries' : List (Bytes × ℕ))
    → decrement d entries ≡ (left, entries')
    → release_all (d ∷ ds) entries ready
      ≡ release_all ds entries' (if left == 0 then ready ++ d ∷ [] else ready)
unfolding release_all
release_all-cons d ds entries ready left entries' e = rw e refl

module _ (keys : List Bytes) where
  unfoldable pub degrees : List Bytes → List TableDependency → List (Bytes × ℕ)
  degrees done [] = []
  degrees done (t ∷ ts) = (t.key, missing done (dependencies keys t)) ∷ degrees done ts

  pub indegrees-eq : (ts : List TableDependency) → indegrees keys ts ≡ degrees [] ts
  unfolding indegrees degrees
  indegrees-eq [] = refl
  indegrees-eq (t ∷ ts) =
      λ i. (t.key, sym (missing-nil (dependencies keys t)) i) ∷ indegrees-eq ts i

  -- The keys that depend on this one and on no other that is not in the order.
  unfoldable pub released : Bytes → List Bytes → List TableDependency → List Bytes
  released key done [] = []
  released key done (t ∷ ts) =
      let rest = released key done ts in
      if mem_text key (dependencies keys t) && missing (done ++ key ∷ []) (dependencies keys t) == 0
      then t.key ∷ rest
      else rest

  decrement-degrees :
      (done : List Bytes) (front : List TableDependency) (key : Bytes) (n : ℕ)
      (rest : List (Bytes × ℕ))
      → times key (keys_of front) ≡ 0
      → decrement key (degrees done front ++ (key, n) ∷ rest)
        ≡ (n - 1, degrees done front ++ (key, n - 1) ∷ rest)
  unfolding decrement degrees times
  decrement-degrees done [] key n rest h = rw (equal_self key) refl
  decrement-degrees done (t ∷ ts) key n rest h =
      let other : equal t.key key ≡ false = ground arith in
      let later : times key (keys_of ts) ≡ 0 = ground arith in
      rw (decrement-degrees done ts key n rest later, other) refl

  pub missing-depends :
      (key : Bytes) (done : List Bytes) (t : TableDependency)
      → mem_text key done ≡ false
      → mem_text key (dependencies keys t) ≡ true
      → missing done (dependencies keys t) ≡ suc (missing (done ++ key ∷ []) (dependencies keys t))
  missing-depends key done t h m =
      omega
        (arith, missing-next key done (dependencies keys t) h, (times-dependencies keys key t).0 m)

  pub missing-other :
      (key : Bytes) (done : List Bytes) (t : TableDependency)
      → mem_text key done ≡ false
      → mem_text key (dependencies keys t) ≡ false
      → missing done (dependencies keys t) ≡ missing (done ++ key ∷ []) (dependencies keys t)
  missing-other key done t h m =
      omega
        (arith, missing-next key done (dependencies keys t) h, (times-dependencies keys key t).1 m)

  degrees-append :
      (done : List Bytes) (front rest : List TableDependency)
      → degrees done (front ++ rest) ≡ degrees done front ++ degrees done rest
  unfolding degrees
  degrees-append done [] rest = refl
  degrees-append done (t ∷ ts) rest =
      ap (◌∷◌ (t.key, missing done (dependencies keys t))) (degrees-append done ts rest)

  -- The degrees while the dependents of a key are gone through.
  abbrev halfway :
      Bytes → List Bytes → List TableDependency → List TableDependency → List (Bytes × ℕ)
  halfway key done front rest = degrees (done ++ key ∷ []) front ++ degrees done rest

  halfway_next :
      (key : Bytes) (done : List Bytes) (front : List TableDependency) (t : TableDependency)
      (ts : List TableDependency)
      → degrees (done ++ key ∷ []) front
          ++ (t.key, missing (done ++ key ∷ []) (dependencies keys t)) ∷ degrees done ts
        ≡ halfway key done (front ++ t ∷ []) ts
  unfolding degrees
  halfway_next key done front t ts =
      let done' = done ++ key ∷ [] in
      sym (append_assoc (degrees done' front) (degrees done' (t ∷ [])) (degrees done ts))
      ∙ ap (λ z. z ++ degrees done ts) (sym (degrees-append done' front (t ∷ [])))

  pub release_all-degrees :
      (key : Bytes) (done : List Bytes) (front rest : List TableDependency) (ready : List Bytes)
      → mem_text key done ≡ false
      → ((x : Bytes) → times x (keys_of front) + times x (keys_of rest) ≤ 1)
      → release_all (dependents_of keys key rest) (halfway key done front rest) ready
        ≡ (degrees (done ++ key ∷ []) (front ++ rest), ready ++ released key done rest)
  unfolding release_all dependents_of degrees released
  release_all-degrees key done front [] ready fresh once = λ i. (
    (append-nil (degrees (done ++ key ∷ []) front)
          ∙ ap (degrees (done ++ key ∷ [])) (sym (append-nil front)))
        i,
    sym (append-nil ready) i,
  )
  release_all-degrees key done front (t ∷ ts) ready fresh once =
      let done' = done ++ key ∷ [] in
      let deps = dependencies keys t in
      let next : (ready' : List Bytes)
          → release_all (dependents_of keys key ts)
              (degrees done' front ++ (t.key, missing done' deps) ∷ degrees done ts) ready'
            ≡ (degrees done' (front ++ t ∷ ts), ready' ++ released key done ts) =
        λ ready'.
          ap (λ z. release_all (dependents_of keys key ts) z ready')
            (halfway_next key done front t ts)
          ∙ release_all-degrees key done (front ++ t ∷ []) ts ready' fresh
              (once_shifted front t ts once)
          ∙ λ i.
              (degrees done' (append_assoc front (t ∷ []) ts i), ready' ++ released key done ts) in
      elim (Bool-cases (mem_text key deps)) [
        | inl depends ↦
            let fewer : missing done deps - 1 ≡ missing done' deps =
              omega (arith, missing-depends key done t fresh depends) in
            let step : decrement t.key
                  (degrees done' front ++ (t.key, missing done deps) ∷ degrees done ts)
                ≡ (
                  missing done' deps,
                  degrees done' front ++ (t.key, missing done' deps) ∷ degrees done ts,
                ) =
              decrement-degrees done' front t.key (missing done deps) (degrees done ts)
                (once_before front t ts once)
              ∙ λ i. (fewer i, degrees done' front ++ (t.key, fewer i) ∷ degrees done ts) in
            let first : dependents_of keys key (t ∷ ts) ≡ t.key ∷ dependents_of keys key ts =
              rw depends refl in
            let begun =
              ap (λ z. release_all z (halfway key done front (t ∷ ts)) ready) first
              ∙ release_all-cons t.key (dependents_of keys key ts) _ ready _ _ step in
            begun ∙ elim (Bool-cases (missing done' deps == 0)) [
              | inl free ↦
                  rw (free, depends)
                    (next (ready ++ t.key ∷ []) ∙ λ i. (
                      degrees done' (front ++ t ∷ ts),
                      append_assoc ready (t.key ∷ []) (released key done ts) i,
                    ))
              | inr busy ↦ rw (busy, depends) (next ready)
            ]
        | inr other ↦
            let same = missing-other key done t fresh other in rw (other, same) (next ready)
      ]
