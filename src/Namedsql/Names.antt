-- ===== src/Namedsql/Names.antt =====
-- namedsql/namedsql.go: the bind parts and the names of a template that grows.
use rasql.Prelude.{
  ℕ, zero, suc, ◌+◌, ◌≡◌, refl, sym, ap, subst, ◌∙◌, true, false, none, some, List, [], ◌∷◌, ◌++◌,
  length, Bytes, equal, equal_self, equal_iff, All, All-imp, Bool-cases, inl, inr, arith,
}
use rasql.Namedsql.Parse.{ColumnRef, TemplatePart, text_part, bind_part, seen_ref}
use rasql.Namedsql.Compile.{contains_name}

-- The parameters that the bind parts of a template index, in the order of the parts.
abbrev pub bind_indices : List TemplatePart → List ℕ
bind_indices [] = []
bind_indices (text_part text ∷ parts) = bind_indices parts
bind_indices (bind_part index ∷ parts) = index ∷ bind_indices parts

abbrev pub count_up : ℕ → ℕ → List ℕ
count_up i zero = []
count_up i (suc n) = i ∷ count_up (i + 1) n

abbrev pub Distinct : List Bytes → Type 0
Distinct [] = Unit
Distinct (n ∷ names) = (contains_name names n ≡ false) × Distinct names

-- Every name of one list stands in another.
abbrev pub Within : List Bytes → List Bytes → Type 0
Within others = All λ n. contains_name others n ≡ true

pub bind_indices-append :
    (ps qs : List TemplatePart) → bind_indices (ps ++ qs) ≡ bind_indices ps ++ bind_indices qs
bind_indices-append [] qs = refl
bind_indices-append (text_part x ∷ ps) qs = bind_indices-append ps qs
bind_indices-append (bind_part i ∷ ps) qs = ap (◌∷◌ i) (bind_indices-append ps qs)

count_up_snoc :
    (i : ℕ) (xs : List Bytes) (x : Bytes)
    → count_up i (length xs) ++ (i + length xs) ∷ [] ≡ count_up i (length (xs ++ x ∷ []))
count_up_snoc i [] x = let e : i + 0 ≡ i = omega arith in ap (λ j. j ∷ []) e
count_up_snoc i (y ∷ xs) x =
    let e : i + suc (length xs) ≡ i + 1 + length xs = omega arith in
    ap (◌∷◌ i) (ap (λ j. count_up (i + 1) (length xs) ++ j ∷ []) e ∙ count_up_snoc (i + 1) xs x)

pub count_up_next :
    (xs : List Bytes) (x : Bytes)
    → count_up 0 (length xs) ++ length xs ∷ [] ≡ count_up 0 (length (xs ++ x ∷ []))
count_up_next xs x =
    let e : length xs ≡ 0 + length xs = omega arith in
    ap (λ j. count_up 0 (length xs) ++ j ∷ []) e ∙ count_up_snoc 0 xs x

pub length_snoc : {A : Type 0} (xs : List A) (x : A) → length (xs ++ x ∷ []) ≡ suc (length xs)
length_snoc [] x = refl
length_snoc (y ∷ xs) x = ap suc (length_snoc xs x)

pub contains_name_left :
    (xs ys : List Bytes) (n : Bytes) → contains_name xs n ≡ true → contains_name (xs ++ ys) n ≡ true
unfolding contains_name
contains_name_left [] ys n h = absurd cc
contains_name_left (x ∷ xs) ys n h = ground (arith, contains_name_left xs ys n)

pub contains_name_last : (xs : List Bytes) (n : Bytes) → contains_name (xs ++ n ∷ []) n ≡ true
unfolding contains_name
contains_name_last [] n = rw (equal_self n) refl
contains_name_last (x ∷ xs) n = let e = contains_name_last xs n in ground arith

equal_turned : (x y : Bytes) → equal x y ≡ false → equal y x ≡ false
equal_turned x y h = elim (Bool-cases (equal y x)) [
  | inl e ↦
      let same = (equal_iff y x).0 e in
      let never : true ≡ false =
        sym (subst (λ z. equal x z ≡ true) (sym same) (equal_self x)) ∙ h in
      absurd cc
  | inr e ↦ e
]

contains_name_snoc :
    (xs : List Bytes) (x n : Bytes)
    → contains_name xs n ≡ false
    → equal x n ≡ false
    → contains_name (xs ++ x ∷ []) n ≡ false
unfolding contains_name
contains_name_snoc [] x n h e = rw e refl
contains_name_snoc (y ∷ xs) x n h e = let rest = contains_name_snoc xs x n in ground (arith, rest)

pub Distinct-snoc :
    (xs : List Bytes) (x : Bytes)
    → Distinct xs
    → contains_name xs x ≡ false
    → Distinct (xs ++ x ∷ [])
unfolding contains_name
Distinct-snoc [] x d h = (refl, tt)
Distinct-snoc (y ∷ xs) x (fresh, d) h =
    let apart : equal y x ≡ false = ground arith in
    let rest : contains_name xs x ≡ false = ground arith in
    (contains_name_snoc xs x y fresh (equal_turned y x apart), Distinct-snoc xs x d rest)

-- A name with no reference is no name.
pub seen_ref-none :
    (n : Bytes) (names : List Bytes) (refs : List ColumnRef)
    → length names ≡ length refs
    → seen_ref n names refs ≡ none
    → contains_name names n ≡ false
unfolding seen_ref contains_name
seen_ref-none n [] refs same h = refl
seen_ref-none n (m ∷ names) [] same h = absurd (omega arith)
seen_ref-none n (m ∷ names) (r ∷ refs) same h = elim (Bool-cases (equal m n)) [
  | inl e ↦ let never : some r ≡ none = rw (e, seen_ref) at h in absurd cc
  | inr e ↦
      let rest = seen_ref-none n names refs (omega arith) (rw (e, seen_ref) at h) in
      rw (e, rest) refl
]

pub seen_ref-some :
    (n : Bytes) (names : List Bytes) (refs : List ColumnRef) (r : ColumnRef)
    → seen_ref n names refs ≡ some r
    → contains_name names n ≡ true
unfolding seen_ref contains_name
seen_ref-some n [] refs r h = absurd cc
seen_ref-some n (m ∷ names) [] r h = absurd cc
seen_ref-some n (m ∷ names) (q ∷ refs) r h = elim (Bool-cases (equal m n)) [
  | inl e ↦ rw e refl
  | inr e ↦ let rest = seen_ref-some n names refs r (rw (e, seen_ref) at h) in rw (e, rest) refl
]

pub Within-snoc :
    (others names : List Bytes) (n : Bytes) → Within others names → Within (others ++ n ∷ []) names
Within-snoc others names n = All-imp _ _ (λ m. contains_name_left others (n ∷ []) m) names
