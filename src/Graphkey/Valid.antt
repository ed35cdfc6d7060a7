-- ===== src/Graphkey/Valid.antt =====
-- Which parts `ValidateParts` of internal/graphkey/spec.go takes for a key.
use rasql.Prelude.{
  ◌≡◌, ◌≢◌, ◌↔◌, refl, sym, suc, true, false, not, ◌||◌, Option, some, List, [], ◌∷◌, ◌==◌, length,
  Bytes, equal, equal_iff, equal_self, equal-false, All, All-imp, All-both, Result, ok, err, guard,
  guard-eq-ok, >>=-eq-ok, Bool-cases, inl, inr, arith,
}
use rasql.TableOrder.{mem_text}
use rasql.Graphkey.Column.{
  ColumnRef, ColumnError, validate_column, qualified_name, IsColumn, validate_column_iff,
}
use rasql.Graphkey.{PartSpec, malformed_codec, mixed_sources, duplicate_column}
use rasql.Graphkey.Parts.{is_codec, column_in_key, check_parts, validate_parts}

abbrev Lacks : List Bytes → Bytes → Type 0
Lacks columns c = All (λ d. c ≢ d) columns

-- No two are the same.
abbrev pub Distinct : List Bytes → Type 0
Distinct [] = Unit
Distinct (c ∷ cs) = Lacks cs c × Distinct cs

mem_text-Lacks : (c : Bytes) (cs : List Bytes) → mem_text c cs ≡ false → Lacks cs c
unfolding mem_text
mem_text-Lacks c [] h = tt
mem_text-Lacks c (d ∷ cs) h =
    let rest : mem_text c cs ≡ false = ground arith in
    (
      λ e. let same = equal_self d in let hit : equal d c ≡ true = rw e same in ground arith,
      mem_text-Lacks c cs rest,
    )

Lacks-mem_text : (c : Bytes) (cs : List Bytes) → Lacks cs c → mem_text c cs ≡ false
unfolding mem_text
Lacks-mem_text c [] _ = refl
Lacks-mem_text c (d ∷ cs) (other, rest) = elim (Bool-cases (equal d c)) [
  | inl e ↦ absurd (other (sym ((equal_iff d c).0 e)))
  | inr e ↦ rw (e, Lacks-mem_text c cs rest) refl
]

IsColumn-key : (c : ColumnRef) → column_in_key (validate_column c) ≡ ok tt → IsColumn c
IsColumn-key c h = (validate_column_iff c).0 (taken (validate_column c) h)
  where
    taken : (r : Result ColumnError (Unit {0})) → column_in_key r ≡ ok tt → r ≡ ok tt
    taken (ok u) h = refl
    taken (err reason) h = absurd cc

key-IsColumn : (c : ColumnRef) → IsColumn c → column_in_key (validate_column c) ≡ ok tt
key-IsColumn c h = rw ((validate_column_iff c).1 h) refl

module _ {R V : Type 0} where
  abbrev pub relation_of : PartSpec R V → Bytes
  relation_of part = qualified_name part.column.source

  abbrev pub IsPart : PartSpec R V → Type 0
  IsPart part = (IsColumn part.column) × ((equal part.codec [] || is_codec part.codec) ≡ true)

  abbrev pub OfRelation : Bytes → PartSpec R V → Type 0
  OfRelation source part = relation_of part ≡ source

  abbrev pub columns_of : List (PartSpec R V) → List Bytes
  columns_of [] = []
  columns_of (part ∷ parts) = part.column.name ∷ columns_of parts

  abbrev pub given : List (PartSpec R V) → List (Option (PartSpec R V))
  given [] = []
  given (part ∷ parts) = some part ∷ given parts

  -- The parts that the loop takes behind these columns.
  abbrev Taken : Bytes → List Bytes → List (PartSpec R V) → Type 0
  Taken source columns parts =
      All IsPart parts
      × All (OfRelation source) parts
      × All (Lacks columns) (columns_of parts)
      × Distinct (columns_of parts)

  next-Taken :
      (source : Bytes) (columns : List Bytes) (part : PartSpec R V) (parts : List (PartSpec R V))
      → IsPart part
      → OfRelation source part
      → Lacks columns part.column.name
      → Taken source (part.column.name ∷ columns) parts
      → Taken source columns (part ∷ parts)
  next-Taken source columns part parts is of lacks (are, same, fresh, distinct) = (
    (is, are),
    (of, same),
    (lacks, All-imp (Lacks (part.column.name ∷ columns)) (Lacks columns) (λ c p. p.1) _ fresh),
    (
      All-imp (Lacks (part.column.name ∷ columns)) (λ d. part.column.name ≢ d)
          (λ c p e. p.0 (sym e)) _ fresh,
      distinct,
    ),
  )

  Taken-next :
      (source : Bytes) (columns : List Bytes) (part : PartSpec R V) (parts : List (PartSpec R V))
      → Taken source columns (part ∷ parts)
      → Taken source (part.column.name ∷ columns) parts
  Taken-next source columns part parts ((_, are), (_, same), (_, fresh), (others, distinct)) = (
    are,
    same,
    All-imp (λ c. (part.column.name ≢ c) × Lacks columns c) (Lacks (part.column.name ∷ columns))
        (λ c p. ((λ e. p.0 (sym e)), p.1)) _
        (All-both (λ d. part.column.name ≢ d) (Lacks columns) _ others fresh),
    distinct,
  )

  check_parts-Taken :
      (source : Bytes) (columns : List Bytes) (parts : List (PartSpec R V))
      → source ≢ []
      → check_parts source columns (given parts) ≡ ok tt
      → Taken source columns parts
  unfolding check_parts
  check_parts-Taken source columns [] _ h = (tt, tt, tt, tt)
  check_parts-Taken source columns (part ∷ parts) some_source h =
      let (_, g1, h1) = >>=-eq-ok (column_in_key (validate_column part.column)) _ h in
      let (_, g2, h2) =
        >>=-eq-ok (guard (equal part.codec [] || is_codec part.codec) malformed_codec) _ h1 in
      let (_, g3, h3) =
        >>=-eq-ok (guard (equal source [] || equal source (relation_of part)) mixed_sources) _ h2 in
      let (_, g4, h4) =
        >>=-eq-ok (guard (not (mem_text part.column.name columns)) duplicate_column) _ h3 in
      let stated = equal-false source [] some_source in
      let same : equal source (relation_of part) ≡ true =
        rw stated at
          (guard-eq-ok (equal source [] || equal source (relation_of part)) mixed_sources g3) in
      let fresh = guard-eq-ok (not (mem_text part.column.name columns)) duplicate_column g4 in
      let later : check_parts source (part.column.name ∷ columns) (given parts) ≡ ok tt =
        rw stated at h4 in
      next-Taken source columns part parts
        (IsColumn-key part.column g1, guard-eq-ok _ malformed_codec g2)
        (sym ((equal_iff source (relation_of part)).0 same))
        (mem_text-Lacks part.column.name columns (ground arith))
        (check_parts-Taken source (part.column.name ∷ columns) parts some_source later)

  Taken-check_parts :
      (source : Bytes) (columns : List Bytes) (parts : List (PartSpec R V))
      → source ≢ []
      → Taken source columns parts
      → check_parts source columns (given parts) ≡ ok tt
  unfolding check_parts
  Taken-check_parts source columns [] _ h = refl
  Taken-check_parts source columns (part ∷ parts) some_source h =
      let (((valid, codec), _), (of, _), (lacks, _), _) = h in
      let stated = equal-false source [] some_source in
      let same : equal source (relation_of part) ≡ true =
        (equal_iff source (relation_of part)).1 (sym of) in
      rw
        (
          key-IsColumn part.column valid,
          codec,
          stated,
          same,
          Lacks-mem_text part.column.name columns lacks,
        )
        (Taken-check_parts source (part.column.name ∷ columns) parts some_source
          (Taken-next source columns part parts h))

  abbrev ShareRelation : List (PartSpec R V) → Type 0
  ShareRelation [] = Unit
  ShareRelation (part ∷ parts) = All (OfRelation (relation_of part)) parts

  -- Parts that make a key: at least one, each right by itself, of one relation and different columns.
  abbrev pub MakeKey : List (PartSpec R V) → Type 0
  MakeKey parts =
      (parts ≢ []) × All IsPart parts × ShareRelation parts × Distinct (columns_of parts)

  abbrev pub IsNamed : PartSpec R V → Type 0
  IsNamed part = relation_of part ≢ []

  validate_parts-MakeKey :
      (parts : List (PartSpec R V))
      → All IsNamed parts
      → validate_parts (given parts) ≡ ok tt
      → MakeKey parts
  unfolding validate_parts check_parts mem_text equal
  validate_parts-MakeKey [] _ h = absurd cc
  validate_parts-MakeKey (part ∷ parts) (named, _) h =
      let stated : (suc (length (given parts)) == 0) ≡ false = ground arith in
      let begun : check_parts [] [] (some part ∷ given parts) ≡ ok tt = rw stated at h in
      let (_, g1, h1) = >>=-eq-ok (column_in_key (validate_column part.column)) _ begun in
      let (_, g2, h2) =
        >>=-eq-ok (guard (equal part.codec [] || is_codec part.codec) malformed_codec) _ h1 in
      let later : check_parts (relation_of part) (part.column.name ∷ []) (given parts) ≡ ok tt =
        h2 in
      let (are, same, fresh, distinct) =
        check_parts-Taken (relation_of part) (part.column.name ∷ []) parts named later in
      (
        (λ e. absurd cc),
        ((IsColumn-key part.column g1, guard-eq-ok _ malformed_codec g2), are),
        same,
        (
          All-imp (Lacks (part.column.name ∷ [])) (λ d. part.column.name ≢ d) (λ c p e. p.0 (sym e))
              _ fresh,
          distinct,
        ),
      )

  MakeKey-validate_parts :
      (parts : List (PartSpec R V))
      → All IsNamed parts
      → MakeKey parts
      → validate_parts (given parts) ≡ ok tt
  unfolding validate_parts check_parts mem_text equal
  MakeKey-validate_parts [] _ (some_part, _, _, _) = absurd (some_part refl)
  MakeKey-validate_parts (part ∷ parts) (named, _)
        (_, ((valid, codec), are), same, (others, distinct)) =
      let stated : (suc (length (given parts)) == 0) ≡ false = ground arith in
      rw (stated, key-IsColumn part.column valid, codec)
        (Taken-check_parts (relation_of part) (part.column.name ∷ []) parts named (
          are,
          same,
          All-imp (λ d. part.column.name ≢ d) (Lacks (part.column.name ∷ []))
              (λ c p. ((λ e. p (sym e)), tt)) _ others,
          distinct,
        ))

  -- `ValidateParts` takes parts whose relations have a qualified name exactly where there is at least
  -- one, every column is one that its source holds (a table with a descriptor, or a derived result or
  -- a CTE with an alias), every codec is empty or an identifier, all relations have the same qualified
  -- name and no two columns have the same name.
  pub validate_parts_iff :
      (parts : List (PartSpec R V))
      → All IsNamed parts
      → (validate_parts (given parts) ≡ ok tt) ↔ MakeKey parts
  validate_parts_iff parts named =
      (validate_parts-MakeKey parts named, MakeKey-validate_parts parts named)
