-- ===== src/Page/After/Rows.antt =====
-- Rows in the order of a page's keys, and what is behind one of them.
use rasql.Prelude.{
  ◌≡◌, refl, sym, ap, ℕ, zero, suc, ◌+◌, ◌≤◌, Bool, true, false, if◌then◌else◌, some, List, [], ◌∷◌,
  ◌++◌, length, take, take-nil, ltb, drop, get_elem?, All, All-imp, All-append_right, arith,
}
use rasql.Cursorcodec.Value.{GoValue}
use rasql.Page.{PageKey}
use rasql.Page.Keyset.{DecodedCursor}
use rasql.Page.Keyset.Reading.{row_after}

module _ {R : Type 0} where
  -- The rows that pass a test.
  unfoldable pub kept : (R → Bool) → List R → List R
  kept test [] = []
  kept test (row ∷ rows) = let rest = kept test rows in if test row then row ∷ rest else rest

  -- What the database reads in a row for the keys.
  abbrev pub node_values : List (PageKey R) → R → List DecodedCursor
  node_values [] row = []
  node_values (key ∷ keys) row = key.node row ∷ node_values keys row

  pub length-node_values :
      (keys : List (PageKey R)) (row : R) → length (node_values keys row) ≡ length keys
  length-node_values [] row = refl
  length-node_values (key ∷ keys) row = ap suc (length-node_values keys row)

  pub kept_cong :
      (f g : R → Bool) (rows : List R) → ((row : R) → f row ≡ g row) → kept f rows ≡ kept g rows
  unfolding kept
  kept_cong f g [] e = refl
  kept_cong f g (row ∷ rows) e = rw (e row, kept_cong f g rows e) refl

  pub kept_all :
      (f : R → Bool) (rows : List R) → All (λ row. f row ≡ true) rows → kept f rows ≡ rows
  unfolding kept
  kept_all f [] _ = refl
  kept_all f (row ∷ rows) (h, hs) = rw (h, kept_all f rows hs) refl

  pub kept_none : (rows : List R) → kept (λ _. false) rows ≡ []
  unfolding kept
  kept_none [] = refl
  kept_none (row ∷ rows) = kept_none rows

  -- The row that ends the first `n` rows.
  pub last_of :
      (n : ℕ) (rows : List R)
      → suc n ≤ length rows
      → (last : R) × (get_elem? (take (suc n) rows) n ≡ some last)
        × (rows ≡ (take n rows ++ (last ∷ drop (suc n) rows)))
  last_of n [] h = absurd (omega arith)
  last_of zero (row ∷ rows) h = (row, refl, refl)
  last_of (suc n) (row ∷ rows) h =
      let (last, got, parts) = last_of n rows (omega arith) in (last, got, ap (◌∷◌ row) parts)

module _ {R : Type 0} where
  take-take : (n m : ℕ) (rows : List R) → n ≤ m → take n (take m rows) ≡ take n rows
  take-take zero m rows h = refl
  take-take (suc n) zero rows h = absurd (omega arith)
  take-take (suc n) (suc m) [] h = refl
  take-take (suc n) (suc m) (row ∷ rows) h = ap (◌∷◌ row) (take-take n m rows (omega arith))

  ltb-take :
      (n m : ℕ) (rows : List R) → suc n ≤ m → ltb n (length (take m rows)) ≡ ltb n (length rows)
  ltb-take n zero rows h = absurd (omega arith)
  ltb-take n (suc m) [] h = refl
  ltb-take zero (suc m) (row ∷ rows) h = ground arith
  ltb-take (suc n) (suc m) (row ∷ rows) h = ground (arith, ltb-take n m rows (omega arith))

  -- One row more than the page holds tells whether there are more.
  pub one_more :
      (n : ℕ) (rows : List R)
      → ◌≡◌ {A = List R × Bool}
          (take n (take (n + 1) rows), ltb n (length (take (n + 1) rows)))
          (take n rows, ltb n (length rows))
  one_more n rows =
      λ i. (take-take n (n + 1) rows (omega arith) i, ltb-take n (n + 1) rows (omega arith) i)

  pub nothing : (n : ℕ) → ◌≡◌ {A = List R × Bool} ([], false) (take n [], ltb n 0)
  nothing n = λ i. (sym (take-nil n) i, never n i)
    where
      never : (n : ℕ) → false ≡ ltb n 0
      never n = ground arith

module _ {R : Type 0} (less same : GoValue → GoValue → Bool) (keys : List (PageKey R)) where
  -- No row is behind itself, and of two rows the later one alone is behind the other: what an
  -- `ORDER BY` with a unique suffix returns.
  abbrev pub IsOrdered : List R → Type 0
  IsOrdered [] = Unit
  IsOrdered (row ∷ rows) =
      row_after less same keys (node_values keys row) row ≡ false
      × All
          (λ later.
            (row_after less same keys (node_values keys row) later ≡ true)
            × (row_after less same keys (node_values keys later) row ≡ false))
          rows
      × IsOrdered rows

  pub kept_behind :
      (before rest : List R) (last : R)
      → IsOrdered (before ++ (last ∷ rest))
      → kept (row_after less same keys (node_values keys last)) (before ++ (last ∷ rest)) ≡ rest
  unfolding kept
  kept_behind [] rest last (itself, later, _) =
      rw itself (kept_all _ rest (All-imp _ _ (λ row p. p.0) rest later))
  kept_behind (row ∷ before) rest last (itself, later, ordered) =
      let (here, _) = All-append_right _ before (last ∷ rest) later in
      rw (here.1) (kept_behind before rest last ordered)
