-- ===== src/Pagekey/Injective.antt =====
-- What the bytes that internal/pagekey/fingerprint.go hashes determine.
use rasql.Prelude.{
  ◌≡◌, refl, sym, ap, subst, ◌∙◌, Bool, true, false, Option, none, some, List, [], ◌∷◌, ◌++◌,
  append_assoc, length, get_elem?, All, Bytes, ok, or_else, or_else-eq-ok, ok_inj, >>=-eq-ok, ℤ,
  pos, negsuc, arith,
}
use rasql.Graphkey.{TimeFormat}
use rasql.Pagekey.{
  ResultColumn, KeyField, BindValue, invalid_index, write_field, nullable_word, write_column_type,
  write_value, write_columns, write_keys, write_arguments,
}
use rasql.Pagekey.Prefix.{IsText, write_field-Reads}
use rasql.Pagekey.Types.{IsColumnType, write_column_type-prefix}
use rasql.Pagekey.Words.{IsBindValue, TellsTimes}
use rasql.Pagekey.Values.{write_value-prefix}

abbrev pub IsColumn : ResultColumn → Type 0
IsColumn column = IsText column.name × IsColumnType column.column_type × IsText column.codec

abbrev pub IsKeyField : KeyField → Type 0
IsKeyField key = IsText key.codec × IsText key.source

-- The arguments that the indexes name.
abbrev pub named_by : List BindValue → List ℤ → List (Option BindValue)
named_by arguments [] = []
named_by arguments (pos i ∷ indexes) = get_elem? arguments i ∷ named_by arguments indexes
named_by arguments (negsuc i ∷ indexes) = none ∷ named_by arguments indexes

abbrev pub IsArgument : TimeFormat → Option BindValue → Type 0
IsArgument format none = Unit
IsArgument format (some v) = IsBindValue format v

-- A field in front of other bytes.
field_read :
    (a b x y : Bytes)
    → IsText a
    → IsText b
    → (write_field a ++ x) ≡ (write_field b ++ y)
    → (a ≡ b) × (x ≡ y)
field_read a b x y ha hb h = write_field-Reads a b x y ha hb h

nullable_word-IsText : (b : Bool) → IsText (nullable_word b)
nullable_word-IsText true = omega arith
nullable_word-IsText false = omega arith

nullable_word_inj : (a b : Bool) → nullable_word a ≡ nullable_word b → a ≡ b
nullable_word_inj true true e = refl
nullable_word_inj false false e = refl
nullable_word_inj true false e = absurd (ground arith)
nullable_word_inj false true e = absurd (ground arith)

-- A concatenation in front of other bytes, nested to the right.
front : (a b x : Bytes) {rest : Bytes} → rest ≡ (a ++ b) → (rest ++ x) ≡ (a ++ (b ++ x))
front a b x e = ap (λ bs. bs ++ x) e ∙ append_assoc a b x

pub write_columns-prefix :
    (cs ds : List ResultColumn) (x y : Bytes) {a b : Bytes}
    → All IsColumn cs
    → All IsColumn ds
    → length cs ≡ length ds
    → write_columns cs ≡ ok a
    → write_columns ds ≡ ok b
    → (a ++ x) ≡ (b ++ y)
    → (cs ≡ ds) × (x ≡ y)
unfolding write_columns
write_columns-prefix [] [] x y _ _ _ ea eb h =
    (refl, ap (λ bs. bs ++ x) (ok_inj ea) ∙ h ∙ sym (ap (λ bs. bs ++ y) (ok_inj eb)))
write_columns-prefix [] (d ∷ ds) x y _ _ sizes _ _ _ = absurd (omega arith)
write_columns-prefix (c ∷ cs) [] x y _ _ sizes _ _ _ = absurd (omega arith)
write_columns-prefix (c ∷ cs) (d ∷ ds) x y ((cn, ct, cc'), hcs) ((dn, dt, dc), hds) sizes ea eb h =
    let (ctype, ctyped, ea1) = >>=-eq-ok (write_column_type c.column_type) _ ea in
    let (crest, clooped, ea2) = >>=-eq-ok (write_columns cs) _ ea1 in
    let (dtype, dtyped, eb1) = >>=-eq-ok (write_column_type d.column_type) _ eb in
    let (drest, dlooped, eb2) = >>=-eq-ok (write_columns ds) _ eb1 in
    let (names, h1) =
      field_read c.name d.name _ _ cn dn
        (sym (front _ _ x (sym (ok_inj ea2))) ∙ h ∙ front _ _ y (sym (ok_inj eb2))) in
    let (types, h2) =
      write_column_type-prefix c.column_type d.column_type _ _ ct dt ctyped dtyped
        (sym (append_assoc ctype _ x) ∙ h1 ∙ append_assoc dtype _ y) in
    let (codecs, h3) = field_read c.codec d.codec _ _ cc' dc (
      sym (append_assoc (write_field c.codec) _ x) ∙ h2 ∙ append_assoc (write_field d.codec) _ y) in
    let (words, h4) =
      field_read (nullable_word c.nullable) (nullable_word d.nullable) _ _
        (nullable_word-IsText c.nullable) (nullable_word-IsText d.nullable)
        (sym (append_assoc (write_field (nullable_word c.nullable)) crest x)
          ∙ h3
          ∙ append_assoc (write_field (nullable_word d.nullable)) drest y) in
    let (columns, rest) = write_columns-prefix cs ds x y hcs hds (omega arith) clooped dlooped h4 in
    let flags = nullable_word_inj c.nullable d.nullable words in
    (
      λ i.
          (record { name = names i; column_type = types i; codec = codecs i; nullable = flags i })
          ∷ columns i,
      rest,
    )

pub write_keys-prefix :
    (ks ls : List KeyField) (x y : Bytes)
    → All IsKeyField ks
    → All IsKeyField ls
    → length ks ≡ length ls
    → (write_keys ks ++ x) ≡ (write_keys ls ++ y)
    → (ks ≡ ls) × (x ≡ y)
unfolding write_keys
write_keys-prefix [] [] x y _ _ _ h = (refl, h)
write_keys-prefix [] (l ∷ ls) x y _ _ sizes _ = absurd (omega arith)
write_keys-prefix (k ∷ ks) [] x y _ _ sizes _ = absurd (omega arith)
write_keys-prefix (k ∷ ks) (l ∷ ls) x y ((kc, kr), hks) ((lc, lr), hls) sizes h =
    let k_marks = k.direction ∷ k.nulls ∷ [] in
    let l_marks = l.direction ∷ l.nulls ∷ [] in
    let (marks, h1) =
      field_read k_marks l_marks _ _ (omega arith) (omega arith) (
        sym (append_assoc (write_field k_marks) _ x)
        ∙ h
        ∙ append_assoc (write_field l_marks) _ y) in
    let (codecs, h2) = field_read k.codec l.codec _ _ kc lc (
      sym (append_assoc (write_field k.codec) _ x) ∙ h1 ∙ append_assoc (write_field l.codec) _ y) in
    let (sources, h3) = field_read k.source l.source _ _ kr lr (
      sym (append_assoc (write_field k.source) (write_keys ks) x)
      ∙ h2
      ∙ append_assoc (write_field l.source) (write_keys ls) y) in
    let (keys, rest) = write_keys-prefix ks ls x y hks hls (omega arith) h3 in
    let directions : k.direction ≡ l.direction = cc in
    let nulls : k.nulls ≡ l.nulls = cc in
    (
      λ i.
          (record {
            direction = directions i;
            nulls = nulls i;
            codec = codecs i;
            source = sources i;
          })
          ∷ keys i,
      rest,
    )

pub write_arguments-prefix :
    (format : TimeFormat) (vs ws : List BindValue) (is js : List ℤ) (x y : Bytes) {a b : Bytes}
    → TellsTimes format
    → All (IsArgument format) (named_by vs is)
    → All (IsArgument format) (named_by ws js)
    → length is ≡ length js
    → write_arguments format vs is ≡ ok a
    → write_arguments format ws js ≡ ok b
    → (a ++ x) ≡ (b ++ y)
    → (named_by vs is ≡ named_by ws js) × (x ≡ y)
unfolding write_arguments
write_arguments-prefix format vs ws [] [] x y _ _ _ _ ea eb h =
    (refl, ap (λ bs. bs ++ x) (ok_inj ea) ∙ h ∙ sym (ap (λ bs. bs ++ y) (ok_inj eb)))
write_arguments-prefix format vs ws [] (j ∷ js) x y _ _ _ sizes _ _ _ = absurd (omega arith)
write_arguments-prefix format vs ws (i ∷ is) [] x y _ _ _ sizes _ _ _ = absurd (omega arith)
write_arguments-prefix format vs ws (negsuc i ∷ is) (j ∷ js) x y _ _ _ _ ea _ _ = absurd cc
write_arguments-prefix format vs ws (pos i ∷ is) (negsuc j ∷ js) x y _ _ _ _ _ eb _ = absurd cc
write_arguments-prefix format vs ws (pos i ∷ is) (pos j ∷ js) x y times (hv, hvs) (hw, hws) sizes ea
      eb h =
    let (v, found_v, ea1) = >>=-eq-ok (or_else invalid_index (get_elem? vs i)) _ ea in
    let (a1, written_v, ea2) = >>=-eq-ok (write_value format v) _ ea1 in
    let (a2, looped_v, ea3) = >>=-eq-ok (write_arguments format vs is) _ ea2 in
    let (w, found_w, eb1) = >>=-eq-ok (or_else invalid_index (get_elem? ws j)) _ eb in
    let (b1, written_w, eb2) = >>=-eq-ok (write_value format w) _ eb1 in
    let (b2, looped_w, eb3) = >>=-eq-ok (write_arguments format ws js) _ eb2 in
    let at_v = or_else-eq-ok invalid_index (get_elem? vs i) found_v in
    let at_w = or_else-eq-ok invalid_index (get_elem? ws j) found_w in
    let (same, h1) =
      write_value-prefix format v w (a2 ++ x) (b2 ++ y) times (subst (IsArgument format) at_v hv)
        (subst (IsArgument format) at_w hw) written_v written_w
        (sym (front a1 a2 x (sym (ok_inj ea3))) ∙ h ∙ front b1 b2 y (sym (ok_inj eb3))) in
    let (rest, end) =
      write_arguments-prefix format vs ws is js x y times hvs hws (omega arith) looped_v looped_w
        h1 in
    let heads : get_elem? vs i ≡ get_elem? ws j = at_v ∙ ap some same ∙ sym at_w in
    (λ k. heads k ∷ rest k, end)
