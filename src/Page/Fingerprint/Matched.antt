-- ===== src/Page/Fingerprint/Matched.antt =====
-- Every page of a query has the query's own fingerprint: `MatchBaseOccurrences` of
-- internal/bindplan/compiled.go finds the query's arguments among those of the page's statement.
use rasql.Prelude.{
  ◌≡◌, refl, sym, ap, ◌∙◌, ℕ, suc, true, false, some, List, [], ◌∷◌, ◌++◌, append_assoc, ◌==◌,
  length, length-append, get_elem?, map, Bytes, equal_self, All, Result, ok, ◌>>=◌, pos, arith,
}
use rasql.Graphkey.{TimeFormat}
use rasql.Pagekey.{
  ResultColumn, KeyField, BindValue, FingerprintError, write_value, write_arguments, preimage,
  fingerprint,
}
use rasql.Page.{PageError, PageKey}
use rasql.Page.Fingerprint.{
  Slot, CompiledQuery, find_slot, match_slots, match_base_occurrences, page_fingerprint,
}

-- The page's slots and arguments are the base's, in order, and others between them, whose IDs are
-- not those of base slots that are still to come.
pub data Extends : List Slot → List BindValue → List Slot → List BindValue → Type 0 where
  ended : (slots : List Slot) (arguments : List BindValue) → Extends [] [] slots arguments
  kept :
      (slot : Slot) (value : BindValue) (base : List Slot) (values : List BindValue)
      (slots : List Slot) (arguments : List BindValue)
      → (slot.bind_id == 0) ≡ false
      → Extends base values slots arguments
      → Extends (slot ∷ base) (value ∷ values) (slot ∷ slots) (value ∷ arguments)
  added :
      (slot : Slot) (value : BindValue) (base : List Slot) (values : List BindValue)
      (slots : List Slot) (arguments : List BindValue)
      → All (λ (s : Slot). (slot.bind_id == s.bind_id) ≡ false) base
      → Extends base values slots arguments
      → Extends base values (slot ∷ slots) (value ∷ arguments)

-- What is written of values one after another.
unfoldable argument_bytes : TimeFormat → List BindValue → Result FingerprintError Bytes
argument_bytes format [] = ok []
argument_bytes format (value ∷ values) = do
  bytes ← write_value format value
  rest ← argument_bytes format values
  ok (bytes ++ rest)

eq_self : (n : ℕ) → (n == n) ≡ true
eq_self n = ground arith

length-map : (xs : List ℕ) → length (map pos xs) ≡ length xs
length-map [] = refl
length-map (x ∷ xs) = ap suc (length-map xs)

get_behind :
    (front : List BindValue) (value : BindValue) (rest : List BindValue)
    → get_elem? (front ++ value ∷ rest) (length front) ≡ some value
get_behind [] value rest = refl
get_behind (v ∷ front) value rest = get_behind front value rest

module _ (format : TimeFormat) where
  -- Behind the arguments `front` the match finds as many indexes as there are values, and at them
  -- stand the values.
  abbrev Matched : List BindValue → List Slot → List BindValue → List Slot → List BindValue → Type 0
  Matched front base values slots arguments =
      (indexes : List ℕ) × (match_slots base (length front) slots ≡ ok indexes)
      × (length indexes ≡ length values)
      × (write_arguments format (front ++ arguments) (map pos indexes)
          ≡ argument_bytes format values)

  shifted :
      (front : List BindValue) (value : BindValue) (arguments : List BindValue)
      → ((front ++ value ∷ []) ++ arguments) ≡ (front ++ value ∷ arguments)
  shifted front value arguments = append_assoc front (value ∷ []) arguments

  grown :
      (front : List BindValue) (value : BindValue)
      → length (front ++ value ∷ []) ≡ suc (length front)
  grown front value = omega (arith, length-append front (value ∷ []))

  kept-Matched :
      (front : List BindValue) (slot : Slot) (value : BindValue) (base : List Slot)
      (values : List BindValue) (slots : List Slot) (arguments : List BindValue)
      → (slot.bind_id == 0) ≡ false
      → Matched (front ++ value ∷ []) base values slots arguments
      → Matched front (slot ∷ base) (value ∷ values) (slot ∷ slots) (value ∷ arguments)
  unfolding match_slots find_slot write_arguments argument_bytes
  kept-Matched front slot value base values slots arguments some_id
        (indexes, same, sizes, written) =
      let next : match_slots base (suc (length front)) slots ≡ ok indexes =
        ap (λ n. match_slots base n slots) (sym (grown front value)) ∙ same in
      let later : write_arguments format (front ++ value ∷ arguments) (map pos indexes)
          ≡ argument_bytes format values =
        ap (λ z. write_arguments format z (map pos indexes)) (sym (shifted front value arguments))
        ∙ written in
      (
        length front ∷ indexes,
        rw (some_id, eq_self slot.bind_id, equal_self slot.codec, next) refl,
        ap suc sizes,
        rw (get_behind front value arguments, later) refl,
      )

  added-Matched :
      (front : List BindValue) (slot : Slot) (value : BindValue) (base : List Slot)
      (values : List BindValue) (slots : List Slot) (arguments : List BindValue)
      → All (λ (s : Slot). (slot.bind_id == s.bind_id) ≡ false) base
      → Matched (front ++ value ∷ []) base values slots arguments
      → Matched front base values (slot ∷ slots) (value ∷ arguments)
  unfolding match_slots find_slot
  added-Matched front slot value [] values slots arguments fresh (indexes, same, sizes, written) = (
    indexes,
    same,
    sizes,
    ap (λ z. write_arguments format z (map pos indexes)) (sym (shifted front value arguments))
        ∙ written,
  )
  added-Matched front slot value (s ∷ base) values slots arguments (other, fresh)
        (indexes, same, sizes, written) =
      (
        indexes,
        rw other (ap (λ n. match_slots (s ∷ base) n slots) (sym (grown front value)) ∙ same),
        sizes,
        ap (λ z. write_arguments format z (map pos indexes)) (sym (shifted front value arguments))
            ∙ written,
      )

  Extends-Matched :
      (front : List BindValue) {base : List Slot} {values : List BindValue} {slots : List Slot}
      {arguments : List BindValue}
      → Extends base values slots arguments
      → Matched front base values slots arguments
  unfolding match_slots write_arguments argument_bytes
  Extends-Matched front (ended slots arguments) = ([], refl, refl, refl)
  Extends-Matched front (kept slot value base values slots arguments some_id rest) =
      kept-Matched front slot value base values slots arguments some_id
        (Extends-Matched (front ++ value ∷ []) rest)
  Extends-Matched front (added slot value base values slots arguments fresh rest) =
      added-Matched front slot value base values slots arguments fresh
        (Extends-Matched (front ++ value ∷ []) rest)

  -- Of the arguments the preimage has what is written of those at the indexes, and how many.
  preimage_cong :
      (engine sql : Bytes) (columns : List ResultColumn) (a b : List BindValue)
      (keys : List KeyField) (xs ys : List ℕ)
      → length xs ≡ length ys
      → write_arguments format a (map pos xs) ≡ write_arguments format b (map pos ys)
      → preimage format engine sql columns a keys (map pos xs)
        ≡ preimage format engine sql columns b keys (map pos ys)
  unfolding preimage
  preimage_cong engine sql columns a b keys xs ys sizes same =
      let count : length (map pos xs) ≡ length (map pos ys) =
        length-map xs ∙ sizes ∙ sym (length-map ys) in
      rw (same, count) refl

module _ {R : Type 0} (digest : Bytes → Bytes) (format : TimeFormat) (engine : Bytes)
    (columns : List ResultColumn) (keys : List (PageKey R)) (base : CompiledQuery)
    (values : List BindValue) where
  -- The fingerprint that the query itself has, whose statement is matched with itself.
  abbrev pub own_fingerprint : Result PageError Bytes
  own_fingerprint = match_base_occurrences base base >>= λ indexes.
      page_fingerprint digest format engine base.sql columns values keys indexes

  -- A statement of the query: one argument for each slot, and those of the base among them.
  pub record IsPaged (paged : CompiledQuery) (arguments : List BindValue) : Type 0 where
    pub counted : (length paged.slots == paged.argument_count) ≡ true
    pub extends : Extends base.slots values paged.slots arguments

  page_fingerprint_cong :
      (a b : List BindValue) (xs ys : List ℕ)
      → length xs ≡ length ys
      → write_arguments format a (map pos xs) ≡ write_arguments format b (map pos ys)
      → page_fingerprint digest format engine base.sql columns a keys xs
        ≡ page_fingerprint digest format engine base.sql columns b keys ys
  unfolding page_fingerprint fingerprint
  page_fingerprint_cong a b xs ys sizes same =
      rw (preimage_cong format engine base.sql columns a b _ xs ys sizes same) refl

  -- The match of a page's statement, and the fingerprint made with it.
  pub page_fingerprint-own :
      (paged : CompiledQuery) (arguments : List BindValue)
      → IsPaged base values
      → IsPaged paged arguments
      → (indexes : List ℕ) × (match_base_occurrences base paged ≡ ok indexes)
        × (page_fingerprint digest format engine base.sql columns arguments keys indexes
            ≡ own_fingerprint)
  unfolding match_base_occurrences
  page_fingerprint-own paged arguments is_base is_paged =
      let (xs, found, few, written) = Extends-Matched format [] is_paged.extends in
      let (ys, own, same, own_written) = Extends-Matched format [] is_base.extends in
      (
        xs,
        rw (is_base.counted, is_paged.counted) found,
        page_fingerprint_cong arguments values xs ys (few ∙ sym same) (written ∙ sym own_written)
            ∙ rw (is_base.counted, own) refl,
      )
