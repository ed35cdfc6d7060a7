-- ===== src/Dberror/First.antt =====
-- Which answer `Classify` of dberror/classify.go gives, over any classifiers and over the drivers'.
use rasql.Prelude.{
  ◌≡◌, ◌≢◌, ◌⊎◌, ◌↔◌, refl, sym, ap, ◌∙◌, Bool, true, false, Option, none, some, List, [], ◌∷◌,
  ◌++◌, if◌then◌else◌, equal, ◌==◌, ℤ, Bool-cases, inl, inr, All, arith,
}
use rasql.Dberror.{
  Category, unknown, unique_violation, foreign_key_violation, not_null_violation, check_violation,
  transaction_conflict, Metadata, no_metadata, is_unknown, Classifier, is_answer, ask, classify,
  lookup, with_category, mysql_categories, mysql_classify, pg_categories, pg_classify,
  sqlite_categories, sqlite_classify, MySqlError, PgError,
}

is_answer-found : (answer : Metadata × Bool) → is_answer answer ≡ true → answer ≡ (answer.0, true)
is_answer-found (metadata, found) h =
    let same : found ≡ true = ground arith in λ i. (metadata, same i)

is_unknown-eq : (category : Category) → is_unknown category ≡ true → category ≡ unknown
is_unknown-eq unknown _ = refl
is_unknown-eq unique_violation h = absurd cc
is_unknown-eq foreign_key_violation h = absurd cc
is_unknown-eq not_null_violation h = absurd cc
is_unknown-eq check_violation h = absurd cc
is_unknown-eq transaction_conflict h = absurd cc

-- An error that was not found, or is of no known category.
abbrev pub IsUnanswered : Metadata × Bool → Type 0
IsUnanswered answer = (answer.1 ≡ false) ⊎ (answer.0.category ≡ unknown)

IsUnanswered-is_answer : (answer : Metadata × Bool) → IsUnanswered answer → is_answer answer ≡ false
IsUnanswered-is_answer (metadata, found) (inl lost) = ground arith
IsUnanswered-is_answer (metadata, found) (inr same) =
    let nothing : is_unknown metadata.category ≡ true = ap is_unknown same in ground arith

is_answer-IsUnanswered : (answer : Metadata × Bool) → is_answer answer ≡ false → IsUnanswered answer
is_answer-IsUnanswered (metadata, false) h = inl refl
is_answer-IsUnanswered (metadata, true) h = inr (is_unknown-eq metadata.category (ground arith))

is_answer-known : (answer : Metadata × Bool) → is_answer answer ≡ true → answer.0.category ≢ unknown
is_answer-known (metadata, found) h same =
    let nothing : is_unknown metadata.category ≡ true = ap is_unknown same in ground arith

known-is_answer :
    (answer : Metadata × Bool) (metadata : Metadata)
    → answer ≡ (metadata, true)
    → metadata.category ≢ unknown
    → is_answer answer ≡ true
known-is_answer answer metadata same known = elim (Bool-cases (is_answer answer)) [
  | inl answers ↦ answers
  | inr passes ↦ elim (is_answer-IsUnanswered answer passes) [
    | inl lost ↦ let never : true ≡ false = sym (ap (λ p. p.1) same) ∙ lost in absurd cc
    | inr nothing ↦ absurd (known (sym (ap (λ p. p.0.category) same) ∙ nothing))
  ]
]

module _ {E : Type 0} where
  -- A classifier that is nil, does not recognize the error, or calls it unknown.
  abbrev pub Passes : E → Option (Classifier E) → Type 0
  Passes e none = Unit
  Passes e (some classifier) = IsUnanswered (classifier e)

  -- The first classifier that recognizes the error with a known category gives this.
  abbrev pub FirstAnswer : E → List (Option (Classifier E)) → Metadata → Type 0
  FirstAnswer e classifiers metadata =
      (before : List (Option (Classifier E))) × ((classifier : Classifier E) × ((after : List
            (Option (Classifier E)))
          × ((classifiers ≡ before ++ some classifier ∷ after)
              × All (Passes e) before
              × (classifier e ≡ (metadata, true))
              × (metadata.category ≢ unknown))))

  FirstAnswer-cons :
      (e : E) (item : Option (Classifier E)) (items : List (Option (Classifier E)))
      (metadata : Metadata)
      → Passes e item
      → FirstAnswer e items metadata
      → FirstAnswer e (item ∷ items) metadata
  FirstAnswer-cons e item items metadata passes (before, (c, (after, (same, all, gives, known)))) =
      (item ∷ before, (c, (after, (ap (λ x. item ∷ x) same, (passes, all), gives, known))))

  ask-FirstAnswer :
      (e : E) (items : List (Option (Classifier E))) (metadata : Metadata)
      → ask e items ≡ (metadata, true)
      → FirstAnswer e items metadata
  unfolding ask
  ask-FirstAnswer e [] metadata h = let same : false ≡ true = ap (λ p. p.1) h in absurd cc
  ask-FirstAnswer e (none ∷ items) metadata h =
      FirstAnswer-cons e none items metadata tt (ask-FirstAnswer e items metadata h)
  ask-FirstAnswer e (some c ∷ items) metadata h = elim (Bool-cases (is_answer (c e))) [
    | inl answers ↦
        let found : ((c e).0, true) ≡ (metadata, true) = rw answers at h in
        let same : (c e).0 ≡ metadata = ap (λ (p : Metadata × Bool). p.0) found in
        let known : metadata.category ≢ unknown = λ nothing.
          is_answer-known (c e) answers (ap (λ (m : Metadata). m.category) same ∙ nothing) in
        ([], (c, (items, (refl, tt, is_answer-found (c e) answers ∙ found, known))))
    | inr passes ↦
        let later : ask e items ≡ (metadata, true) = rw passes at h in
        FirstAnswer-cons e (some c) items metadata (is_answer-IsUnanswered (c e) passes)
          (ask-FirstAnswer e items metadata later)
  ]

  ask_passed :
      (e : E) (before after : List (Option (Classifier E)))
      → All (Passes e) before
      → ask e (before ++ after) ≡ ask e after
  unfolding ask
  ask_passed e [] after _ = refl
  ask_passed e (none ∷ before) after (_, all) = ask_passed e before after all
  ask_passed e (some c ∷ before) after (passes, all) =
      rw (IsUnanswered-is_answer (c e) passes) (ask_passed e before after all)

  FirstAnswer-ask :
      (e : E) (items : List (Option (Classifier E))) (metadata : Metadata)
      → FirstAnswer e items metadata
      → ask e items ≡ (metadata, true)
  unfolding ask
  FirstAnswer-ask e items metadata (before, (c, (after, (same, all, gives, known)))) =
      let answers = known-is_answer (c e) metadata gives known in
      let found : ask e (some c ∷ after) ≡ (metadata, true) =
        rw answers (λ i. ((gives i).0, true)) in
      ap (ask e) same ∙ ask_passed e before (some c ∷ after) all ∙ found

  ask-Passes :
      (e : E) (items : List (Option (Classifier E)))
      → ask e items ≡ (no_metadata, false)
      → All (Passes e) items
  unfolding ask
  ask-Passes e [] h = tt
  ask-Passes e (none ∷ items) h = (tt, ask-Passes e items h)
  ask-Passes e (some c ∷ items) h = elim (Bool-cases (is_answer (c e))) [
    | inl answers ↦
        let found : ((c e).0, true) ≡ (no_metadata, false) = rw answers at h in
        let same : true ≡ false = ap (λ p. p.1) found in absurd cc
    | inr passes ↦
        let later : ask e items ≡ (no_metadata, false) = rw passes at h in
        (is_answer-IsUnanswered (c e) passes, ask-Passes e items later)
  ]

  Passes-ask :
      (e : E) (items : List (Option (Classifier E)))
      → All (Passes e) items
      → ask e items ≡ (no_metadata, false)
  unfolding ask
  Passes-ask e [] _ = refl
  Passes-ask e (none ∷ items) (_, all) = Passes-ask e items all
  Passes-ask e (some c ∷ items) (passes, all) =
      rw (IsUnanswered-is_answer (c e) passes) (Passes-ask e items all)

  -- `Classify` gives an answer for an error exactly where it is that of the first classifier, nil ones
  -- left aside, that recognizes the error with another category than unknown; it gives none exactly where every
  -- classifier is nil, does not recognize the error, or calls it unknown.
  pub classify_iff :
      (e : E) (items : List (Option (Classifier E))) (metadata : Metadata)
      → ((classify (some e) items ≡ (metadata, true)) ↔ FirstAnswer e items metadata)
        × ((classify (some e) items ≡ (no_metadata, false)) ↔ All (Passes e) items)
  unfolding classify
  classify_iff e items metadata = (
    (ask-FirstAnswer e items metadata, FirstAnswer-ask e items metadata),
    (ask-Passes e items, Passes-ask e items),
  )

-- An answer, or else a later one.
abbrev pub or_answer : Metadata × Bool → Metadata × Bool → Metadata × Bool
or_answer (metadata, true) later = (metadata, true)
or_answer (metadata, false) later = later

abbrev IsKnown : {K : Type 0} → K × Category → Type 0
IsKnown (_, category) = is_unknown category ≡ false

-- What a driver's classifier finds is an answer to `Classify`.
abbrev AnswersFound : Metadata × Bool → Type 0
AnswersFound answer = is_answer answer ≡ answer.1

lookup-IsKnown :
    {K : Type 0} (same : K → K → Bool) (key : K) (entries : List (K × Category))
    (metadata : Category → Metadata)
    → ((category : Category) → (metadata category).category ≡ category)
    → All IsKnown entries
    → AnswersFound (with_category (lookup same key entries) metadata)
unfolding lookup
lookup-IsKnown same key [] metadata keeps _ = refl
lookup-IsKnown same key ((k, category) ∷ entries) metadata keeps (known, all) =
    elim (Bool-cases (same k key)) [
      | inl hit ↦ rw (hit, keeps category, known) refl
      | inr miss ↦ rw miss (lookup-IsKnown same key entries metadata keeps all)
    ]

mysql_found : (native : Option MySqlError) → AnswersFound (mysql_classify native)
unfolding mysql_classify
mysql_found none = refl
mysql_found (some native) =
    lookup-IsKnown ◌==◌ native.number mysql_categories _ (λ c. refl)
      (refl, (refl, (refl, (refl, (refl, (refl, (refl, tt)))))))

pg_found : (native : Option PgError) → AnswersFound (pg_classify native)
unfolding pg_classify
pg_found none = refl
pg_found (some native) =
    lookup-IsKnown equal native.code pg_categories _ (λ c. refl)
      (refl, (refl, (refl, (refl, (refl, (refl, (refl, tt)))))))

sqlite_found : (code : Option ℤ) → AnswersFound (sqlite_classify code)
unfolding sqlite_classify
sqlite_found none = refl
sqlite_found (some code) =
    lookup-IsKnown _ code sqlite_categories _ (λ c. refl)
      (refl, (refl, (refl, (refl, (refl, (refl, (refl, (refl, tt))))))))

or_found :
    (answer later : Metadata × Bool)
    → AnswersFound answer
    → (if is_answer answer then (answer.0, true) else later) ≡ or_answer answer later
or_found (metadata, true) later kept = rw kept refl
or_found (metadata, false) later kept = refl

ask_nil : {E : Type 0} (e : E) → ask e [] ≡ (no_metadata, false)
unfolding ask
ask_nil e = refl

ask-AnswersFound :
    {E : Type 0} (e : E) (classifier : Classifier E) (later : List (Option (Classifier E)))
    → AnswersFound (classifier e)
    → ask e (some classifier ∷ later) ≡ or_answer (classifier e) (ask e later)
unfolding ask
ask-AnswersFound e classifier later kept = or_found (classifier e) (ask e later) kept

-- `Classify` over the classifiers of the three drivers gives what the first of them that finds its
-- driver's error in the chain, with a number or state in its table, says of it: none of them finds
-- an error that it then calls unknown.
pub classify_drivers :
    {E : Type 0} (as_mysql : E → Option MySqlError) (as_pg : E → Option PgError)
    (as_sqlite : E → Option ℤ) (e : E)
    → classify (some e) (
        some (λ x. mysql_classify (as_mysql x))
        ∷ some (λ x. pg_classify (as_pg x))
        ∷ some (λ x. sqlite_classify (as_sqlite x))
        ∷ [])
      ≡ or_answer (mysql_classify (as_mysql e)) (
          or_answer
            (pg_classify (as_pg e))
            (or_answer (sqlite_classify (as_sqlite e)) (no_metadata, false)))
unfolding classify
classify_drivers as_mysql as_pg as_sqlite e =
    let m = ask-AnswersFound e (λ x. mysql_classify (as_mysql x)) _ (mysql_found (as_mysql e)) in
    let p = ask-AnswersFound e (λ x. pg_classify (as_pg x)) _ (pg_found (as_pg e)) in
    let s =
      ask-AnswersFound e (λ x. sqlite_classify (as_sqlite x)) [] (sqlite_found (as_sqlite e)) in
    let none_left : ask e [] ≡ (no_metadata, false) = ask_nil e in
    m ∙ (λ i. or_answer (mysql_classify (as_mysql e)) (
      (p ∙ (λ j.
          or_answer (pg_classify (as_pg e))
            ((s ∙ (λ k. or_answer (sqlite_classify (as_sqlite e)) (none_left k))) j)))
        i))
