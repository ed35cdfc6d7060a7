-- ===== src/TableOrder/Count.antt =====
-- How often a text occurs in the lists of internal/migrationorder/tables.go.
use rasql.Prelude.{
  ◌≡◌, refl, sym, ◌∙◌, ℕ, suc, ◌+◌, ◌||◌, List, [], ◌∷◌, ◌++◌, ltb, if◌then◌else◌, length, Bytes,
  equal, equal_iff, Bool-cases, inl, inr, arith,
}
use rasql.Migrate.Status.{insert_text, sort_texts}
use rasql.TableOrder.{mem_text}

pub equal_comm : (a b : Bytes) → equal a b ≡ equal b a
equal_comm a b = elim (Bool-cases (equal a b)) [
  | inl e ↦ rw ((equal_iff a b).0 e) refl
  | inr e ↦ elim (Bool-cases (equal b a)) [
    | inl f ↦ rw ((equal_iff b a).0 f) refl
    | inr f ↦ e ∙ sym f
  ]
]

unfoldable pub times : Bytes → List Bytes → ℕ
times x [] = 0
times x (y ∷ ys) = let rest = times x ys in if equal y x then suc rest else rest

pub mem_text-eq : (x : Bytes) (ys : List Bytes) → mem_text x ys ≡ ltb 0 (times x ys)
unfolding mem_text times
mem_text-eq x [] = ground arith
mem_text-eq x (y ∷ ys) = ground (arith, mem_text-eq x ys)

pub times-append : (x : Bytes) (ys zs : List Bytes) → times x (ys ++ zs) ≡ times x ys + times x zs
unfolding times
times-append x [] zs = omega arith
times-append x (y ∷ ys) zs = ground (arith, times-append x ys zs)

pub mem_text-append :
    (x : Bytes) (ys zs : List Bytes) → mem_text x (ys ++ zs) ≡ (mem_text x ys || mem_text x zs)
unfolding mem_text
mem_text-append x [] zs = refl
mem_text-append x (y ∷ ys) zs = ground (arith, mem_text-append x ys zs)

times-insert_text : (x y : Bytes) (ys : List Bytes) → times x (insert_text y ys) ≡ times x (y ∷ ys)
unfolding times insert_text
times-insert_text x y [] = refl
times-insert_text x y (z ∷ zs) = ground (arith, times-insert_text x y zs)

pub times-sort_texts : (x : Bytes) (ys : List Bytes) → times x (sort_texts ys) ≡ times x ys
unfolding times sort_texts
times-sort_texts x [] = refl
times-sort_texts x (y ∷ ys) =
    let front = times-insert_text x y (sort_texts ys) in ground (arith, times-sort_texts x ys)

length-insert_text : (y : Bytes) (ys : List Bytes) → length (insert_text y ys) ≡ suc (length ys)
unfolding insert_text
length-insert_text y [] = refl
length-insert_text y (z ∷ zs) = ground (arith, length-insert_text y zs)

pub length-sort_texts : (ys : List Bytes) → length (sort_texts ys) ≡ length ys
unfolding sort_texts
length-sort_texts [] = refl
length-sort_texts (y ∷ ys) =
    omega (arith, length-insert_text y (sort_texts ys), length-sort_texts ys)
