-- ===== src/TableOrder/Loop.antt =====
-- The loop of `OrderTables` in internal/migrationorder/tables.go, by an invariant.
use rasql.Prelude.{
  ◌≡◌, refl, ap, ◌∙◌, ℕ, zero, suc, ◌+◌, ◌≤◌, ◌<◌, true, false, some, List, [], ◌∷◌, ◌++◌, length,
  length-append, get_elem?, Bytes, equal, equal_iff, equal_self, Bool-cases, inl, inr, arith,
}
use mathlib.Core.List.{append_assoc}
use rasql.Migrate.Status.{sort_texts}
use rasql.TableOrder.{
  TableDependency, mem_text, keys_of, dependencies, release_all, dependents_of, order_from,
}
use rasql.TableOrder.Count.{
  times, mem_text-eq, mem_text-append, times-append, times-sort_texts, length-sort_texts,
}
use rasql.TableOrder.Degrees.{missing-zero}
use rasql.TableOrder.Release.{degrees, released, release_all-degrees}
use rasql.TableOrder.Free.{
  free, times-free, length-free, times-free-le, length-free-le, free-missing,
}

-- One key stands in front of another.
abbrev pub Before : Bytes → Bytes → List Bytes → Type 0
Before d k ordered =
    (front : List Bytes) × ((back : List Bytes) × ((ordered ≡ front ++ k ∷ back)
        × (mem_text d front ≡ true)))

Before-append :
    (d k : Bytes) (ordered more : List Bytes) → Before d k ordered → Before d k (ordered ++ more)
Before-append d k ordered more (front, (back, (same, there))) =
    (front, (back ++ more, (ap (λ z. z ++ more) same ∙ append_assoc front (k ∷ back) more, there)))

module _ (tables : List TableDependency) where
  abbrev pub deps_of : TableDependency → List Bytes
  deps_of = dependencies (keys_of tables)

  abbrev pub free_of : List Bytes → List Bytes
  free_of ordered = free (keys_of tables) ordered tables

  -- Between two keys, the order and the ready keys are those that have all of their dependencies in
  -- the order.
  pub record Inv (ordered ready : List Bytes) : Type 0 where
    pub counts : (x : Bytes) → times x ordered + times x ready ≡ times x (free_of ordered)
    pub lengths : length ordered + length ready ≡ length (free_of ordered)
    pub first :
        (i : ℕ) (t : TableDependency) (d : Bytes)
        → get_elem? tables i ≡ some t
        → mem_text d (deps_of t) ≡ true
        → mem_text t.key ordered ≡ true
        → Before d t.key ordered

  pub Inv-start : Inv [] (sort_texts (free_of []))
  unfolding times mem_text
  Inv-start = record {
    counts = λ x. omega (arith, times-sort_texts x (free_of []));
    lengths = omega (arith, length-sort_texts (free_of []));
    first = λ i t d e m h. absurd cc;
  }

  order_from_next :
      (fuel : ℕ) (ordered ready : List Bytes) (key : Bytes) (entries : List (Bytes × ℕ))
      (next : List (Bytes × ℕ) × List Bytes)
      → release_all (dependents_of (keys_of tables) key tables) entries ready ≡ next
      → order_from (suc fuel) tables entries ordered (key ∷ ready)
        ≡ order_from fuel tables next.0 (ordered ++ key ∷ []) (sort_texts next.1)
  unfolding order_from
  order_from_next fuel ordered ready key entries next e =
      λ i. order_from fuel tables (e i).0 (ordered ++ key ∷ []) (sort_texts (e i).1)

  module _ (once : (x : Bytes) → times x (keys_of tables) ≤ 1) where
    ready-fresh :
        (ordered ready : List Bytes) (key : Bytes)
        → Inv ordered (key ∷ ready)
        → mem_text key ordered ≡ false
    unfolding times
    ready-fresh ordered ready key inv =
        let all = counts key in
        let le = times-free-le (keys_of tables) key ordered tables in
        let few = once key in
        let self = equal_self key in let shown = mem_text-eq key ordered in ground arith
      where
        open inv use {counts}

    -- The key that is taken has all of its dependencies in front of it.
    taken_first :
        (ordered ready : List Bytes) (key : Bytes) (i : ℕ) (t : TableDependency) (d : Bytes)
        → Inv ordered (key ∷ ready)
        → get_elem? tables i ≡ some t
        → mem_text d (deps_of t) ≡ true
        → mem_text t.key (ordered ++ key ∷ []) ≡ true
        → Before d t.key (ordered ++ key ∷ [])
    unfolding times mem_text
    taken_first ordered ready key i t d inv e m h = elim (Bool-cases (mem_text t.key ordered)) [
      | inl before ↦ Before-append d t.key ordered (key ∷ []) (inv.first i t d e m before)
      | inr new ↦
          let shown = mem_text-append t.key ordered (key ∷ []) in
          let named : equal key t.key ≡ true = ground arith in
          let same : key ≡ t.key = (equal_iff key t.key).0 named in
          let all = inv.counts t.key in
          let some_free : 0 < times t.key (free_of ordered) = ground arith in
          let met = free-missing (keys_of tables) ordered tables i t once e some_free in
          (ordered, ([], ((λ j. ordered ++ same j ∷ []), missing-zero ordered (deps_of t) d met m)))
    ]

    Inv-step :
        (ordered ready : List Bytes) (key : Bytes)
        → Inv ordered (key ∷ ready)
        → Inv
            (ordered ++ key ∷ [])
            (sort_texts (ready ++ released (keys_of tables) key ordered tables))
    unfolding times
    Inv-step ordered ready key inv =
        let fresh = ready-fresh ordered ready key inv in
        let new = released (keys_of tables) key ordered tables in
        record {
          counts = λ x.
              let before = inv.counts x in
              let more = times-free (keys_of tables) key x ordered tables fresh in
              let a = times-append x ordered (key ∷ []) in
              let b = times-append x ready new in
              let c = times-sort_texts x (ready ++ new) in ground arith;
          lengths =
              let before = inv.lengths in
              let more = length-free (keys_of tables) key ordered tables fresh in
              let a = length-append ordered (key ∷ []) in
              let b = length-append ready new in
              let c = length-sort_texts (ready ++ new) in omega arith;
          first = λ i t d e m h. taken_first ordered ready key i t d inv e m h;
        }

    -- The loop ends with no key ready.
    pub order_from_lem :
        (fuel : ℕ) (ordered ready : List Bytes)
        → fuel + length ordered ≡ length tables
        → Inv ordered ready
        → (final : List Bytes) × ((order_from fuel tables
                (degrees (keys_of tables) ordered tables)
                ordered
                ready
              ≡ (final, degrees (keys_of tables) final tables))
            × Inv final [])
    unfolding order_from degrees times
    order_from_lem fuel ordered [] enough inv = (ordered, (refl, inv))
    order_from_lem zero ordered (key ∷ ready) enough inv =
        absurd (omega (arith, inv.lengths, length-free-le (keys_of tables) ordered tables))
    order_from_lem (suc fuel) ordered (key ∷ ready) enough inv =
        let step =
          release_all-degrees (keys_of tables) key ordered [] tables ready
            (ready-fresh ordered ready key inv) (λ x. omega (arith, once x)) in
        let (final, (runs, done)) =
          order_from_lem fuel (ordered ++ key ∷ []) _
            (omega (arith, length-append ordered (key ∷ []))) (Inv-step ordered ready key inv) in
        (final, (order_from_next fuel ordered ready key _ _ step ∙ runs, done))
