-- ===== src/Pagekey/Types.antt =====
-- What the bytes of a column type in internal/pagekey/fingerprint.go determine.
use rasql.Prelude.{
  ◌≡◌, refl, sym, ap, ◌∙◌, ℕ, ◌<◌, Bool, Option, [], ◌++◌, append_assoc, append-nil, Bytes, codes,
  equal, if◌then◌else◌, ok, ok_inj, ℤ, arith,
}
use rasql.Cursorcodec.Value.{w64}
use rasql.Cursorcodec.Value.RoundTrip.{InRange}
use rasql.Pagekey.{
  PlainKind, boolean_kind, float_kind, bytes_kind, time_kind, json_kind, uuid_kind, opaque_kind,
  ColumnType, plain_type, integer_type, text_type, decimal_type, other_type, write_field,
  write_bool_field, write_int_field, write_optional, plain_name, write_column_type,
}
use rasql.Pagekey.Prefix.{
  Reads, IsText, Any, IsStated, write_field-Reads, pair-Reads, write_bool_field-Reads,
  write_int_field-Reads, write_optional-Reads,
}

-- The types whose parameters are Go's integers, and that are supported.
abbrev pub IsColumnType : ColumnType → Type 0
IsColumnType (plain_type kind) = Unit
IsColumnType (integer_type unsigned width zerofill) = IsStated width
IsColumnType (text_type width fixed) = IsStated width
IsColumnType (decimal_type precision scale unsigned zerofill) =
    InRange w64 precision × IsStated scale
IsColumnType (other_type kind) = ⊥

abbrev plain_number : PlainKind → ℕ
plain_number boolean_kind = 0
plain_number float_kind = 1
plain_number bytes_kind = 2
plain_number time_kind = 3
plain_number json_kind = 4
plain_number uuid_kind = 5
plain_number opaque_kind = 6

-- The number of a type's kind, read from its name.
named_number : Bytes → ℕ
named_number name =
    if equal name (codes "boolean")
    then 0
    else if equal name (codes "float")
    then 1
    else if equal name (codes "bytes")
    then 2
    else if equal name (codes "time")
    then 3
    else if equal name (codes "json")
    then 4
    else if equal name (codes "uuid")
    then 5
    else if equal name (codes "native")
    then 6
    else if equal name (codes "integer")
    then 7
    else if equal name (codes "text")
    then 8
    else 9

abbrev kind_name : ColumnType → Bytes
kind_name (plain_type kind) = plain_name kind
kind_name (integer_type unsigned width zerofill) = codes "integer"
kind_name (text_type width fixed) = codes "text"
kind_name (decimal_type precision scale unsigned zerofill) = codes "decimal"
kind_name (other_type kind) = []

abbrev kind_number : ColumnType → ℕ
kind_number (plain_type kind) = plain_number kind
kind_number (integer_type unsigned width zerofill) = 7
kind_number (text_type width fixed) = 8
kind_number (decimal_type precision scale unsigned zerofill) = 9
kind_number (other_type kind) = 9

named_number-kind_name : (t : ColumnType) → named_number (kind_name t) ≡ kind_number t
unfolding named_number equal plain_name
named_number-kind_name (plain_type boolean_kind) = refl
named_number-kind_name (plain_type float_kind) = refl
named_number-kind_name (plain_type bytes_kind) = refl
named_number-kind_name (plain_type time_kind) = refl
named_number-kind_name (plain_type json_kind) = refl
named_number-kind_name (plain_type uuid_kind) = refl
named_number-kind_name (plain_type opaque_kind) = refl
named_number-kind_name (integer_type unsigned width zerofill) = refl
named_number-kind_name (text_type width fixed) = refl
named_number-kind_name (decimal_type precision scale unsigned zerofill) = refl
named_number-kind_name (other_type kind) = refl

plain_number_inj : (j k : PlainKind) → plain_number j ≡ plain_number k → j ≡ k
plain_number_inj boolean_kind boolean_kind e = refl
plain_number_inj float_kind float_kind e = refl
plain_number_inj bytes_kind bytes_kind e = refl
plain_number_inj time_kind time_kind e = refl
plain_number_inj json_kind json_kind e = refl
plain_number_inj uuid_kind uuid_kind e = refl
plain_number_inj opaque_kind opaque_kind e = refl
plain_number_inj _ _ e = absurd (omega arith)

kind_name-IsText : (t : ColumnType) → IsText (kind_name t)
unfolding plain_name
kind_name-IsText (plain_type boolean_kind) = omega arith
kind_name-IsText (plain_type float_kind) = omega arith
kind_name-IsText (plain_type bytes_kind) = omega arith
kind_name-IsText (plain_type time_kind) = omega arith
kind_name-IsText (plain_type json_kind) = omega arith
kind_name-IsText (plain_type uuid_kind) = omega arith
kind_name-IsText (plain_type opaque_kind) = omega arith
kind_name-IsText (integer_type unsigned width zerofill) = omega arith
kind_name-IsText (text_type width fixed) = omega arith
kind_name-IsText (decimal_type precision scale unsigned zerofill) = omega arith
kind_name-IsText (other_type kind) = omega arith

-- The bytes behind the name of the kind.
abbrev parameters : ColumnType → Bytes
parameters (plain_type kind) = []
parameters (integer_type unsigned width zerofill) =
    write_bool_field (codes "unsigned") unsigned
    ++ (write_optional (codes "display-width-stated") (codes "display-width") width
        ++ write_bool_field (codes "zerofill") zerofill)
parameters (text_type width fixed) =
    write_optional (codes "width-stated") (codes "width") width
    ++ write_bool_field (codes "fixed") fixed
parameters (decimal_type precision scale unsigned zerofill) =
    write_int_field (codes "precision") precision
    ++ (write_optional (codes "scale-stated") (codes "scale") scale
        ++ (write_bool_field (codes "unsigned") unsigned
            ++ write_bool_field (codes "zerofill") zerofill))
parameters (other_type kind) = []

abbrev whole : ColumnType → Bytes
whole t =
    write_field (codes "column-type")
    ++ (write_field (kind_name t) ++ (write_field (codes "parameters") ++ parameters t))

write_column_type-eq-ok :
    (t : ColumnType) {bytes : Bytes} → write_column_type t ≡ ok bytes → bytes ≡ whole t
unfolding write_column_type
write_column_type-eq-ok (plain_type kind) h =
    sym (ok_inj h)
    ∙ ap (λ bs. write_field (codes "column-type") ++ (write_field (plain_name kind) ++ bs))
        (sym (append-nil (write_field (codes "parameters"))))
write_column_type-eq-ok (integer_type unsigned width zerofill) h = sym (ok_inj h)
write_column_type-eq-ok (text_type width fixed) h = sym (ok_inj h)
write_column_type-eq-ok (decimal_type precision scale unsigned zerofill) h = sym (ok_inj h)
write_column_type-eq-ok (other_type kind) h = absurd cc

abbrev bool_reads : (tag : Bytes) → IsText tag → Reads {A = Bool} Any (write_bool_field tag)
bool_reads tag h = write_bool_field-Reads tag h

integer_read :
    Reads {A = Bool × (Option ℤ × Bool)}
      (λ p. Unit × (IsStated p.1.0 × Unit))
      (λ p.
        write_bool_field (codes "unsigned") p.0
        ++ (write_optional (codes "display-width-stated") (codes "display-width") p.1.0
            ++ write_bool_field (codes "zerofill") p.1.1))
integer_read =
    pair-Reads Any _ (write_bool_field (codes "unsigned")) _
      (bool_reads (codes "unsigned") (omega arith))
      (pair-Reads IsStated Any
        (write_optional (codes "display-width-stated") (codes "display-width"))
        (write_bool_field (codes "zerofill"))
        (write_optional-Reads (codes "display-width-stated") (codes "display-width") (omega arith)
          (omega arith))
        (bool_reads (codes "zerofill") (omega arith)))

text_read :
    Reads {A = Option ℤ × Bool}
      (λ p. IsStated p.0 × Unit)
      (λ p.
        write_optional (codes "width-stated") (codes "width") p.0
        ++ write_bool_field (codes "fixed") p.1)
text_read =
    pair-Reads IsStated Any (write_optional (codes "width-stated") (codes "width"))
      (write_bool_field (codes "fixed"))
      (write_optional-Reads (codes "width-stated") (codes "width") (omega arith) (omega arith))
      (bool_reads (codes "fixed") (omega arith))

decimal_read :
    Reads {A = ℤ × (Option ℤ × (Bool × Bool))}
      (λ p. InRange w64 p.0 × (IsStated p.1.0 × (Unit × Unit)))
      (λ p.
        write_int_field (codes "precision") p.0
        ++ (write_optional (codes "scale-stated") (codes "scale") p.1.0
            ++ (write_bool_field (codes "unsigned") p.1.1.0
                ++ write_bool_field (codes "zerofill") p.1.1.1)))
decimal_read =
    pair-Reads (InRange w64) _ (write_int_field (codes "precision")) _
      (write_int_field-Reads (codes "precision") (omega arith))
      (pair-Reads IsStated _ (write_optional (codes "scale-stated") (codes "scale")) _
        (write_optional-Reads (codes "scale-stated") (codes "scale") (omega arith) (omega arith))
        (pair-Reads Any Any (write_bool_field (codes "unsigned"))
          (write_bool_field (codes "zerofill")) (bool_reads (codes "unsigned") (omega arith))
          (bool_reads (codes "zerofill") (omega arith))))

plain_number_bound : (k : PlainKind) → plain_number k < 7
plain_number_bound boolean_kind = omega arith
plain_number_bound float_kind = omega arith
plain_number_bound bytes_kind = omega arith
plain_number_bound time_kind = omega arith
plain_number_bound json_kind = omega arith
plain_number_bound uuid_kind = omega arith
plain_number_bound opaque_kind = omega arith

parameters_read :
    (t u : ColumnType) (x y : Bytes)
    → IsColumnType t
    → IsColumnType u
    → kind_number t ≡ kind_number u
    → (parameters t ++ x) ≡ (parameters u ++ y)
    → (t ≡ u) × (x ≡ y)
parameters_read (plain_type j) (plain_type k) x y _ _ n h =
    (ap plain_type (plain_number_inj j k n), h)
parameters_read (integer_type a b c) (integer_type d e f) x y hb he n h =
    let (same, rest) = integer_read (a, (b, c)) (d, (e, f)) x y (tt, (hb, tt)) (tt, (he, tt)) h in
    (λ i. integer_type (same i).0 (same i).1.0 (same i).1.1, rest)
parameters_read (text_type a b) (text_type c d) x y ha hc n h =
    let (same, rest) = text_read (a, b) (c, d) x y (ha, tt) (hc, tt) h in
    (λ i. text_type (same i).0 (same i).1, rest)
parameters_read (decimal_type a b c d) (decimal_type e f g k) x y (ha, hb) (he, hf) n h =
    let (same, rest) =
      decimal_read (a, (b, (c, d))) (e, (f, (g, k))) x y (ha, (hb, (tt, tt))) (he, (hf, (tt, tt)))
        h in
    (λ i. decimal_type (same i).0 (same i).1.0 (same i).1.1.0 (same i).1.1.1, rest)
parameters_read (plain_type j) _ x y _ hu n h =
    absurd (let small = plain_number_bound j in ground arith)
parameters_read _ (plain_type k) x y ht _ n h =
    absurd (let small = plain_number_bound k in ground arith)
parameters_read _ _ x y ht hu n h = absurd (ground arith)

-- The bytes of a column type in front of other bytes determine the type.
pub write_column_type-prefix :
    (t u : ColumnType) (x y : Bytes) {a b : Bytes}
    → IsColumnType t
    → IsColumnType u
    → write_column_type t ≡ ok a
    → write_column_type u ≡ ok b
    → (a ++ x) ≡ (b ++ y)
    → (t ≡ u) × (x ≡ y)
write_column_type-prefix t u x y ht hu et eu h =
    let bytes_t = write_column_type-eq-ok t et in
    let bytes_u = write_column_type-eq-ok u eu in
    let both : (whole t ++ x) ≡ (whole u ++ y) =
      sym (ap (λ bs. bs ++ x) bytes_t) ∙ h ∙ ap (λ bs. bs ++ y) bytes_u in
    let (_, behind) =
      write_field-Reads (codes "column-type") (codes "column-type") _ _ (omega arith) (omega arith)
        (sym (append_assoc (write_field (codes "column-type")) _ x)
          ∙ both
          ∙ append_assoc (write_field (codes "column-type")) _ y) in
    let (names, behind') =
      write_field-Reads (kind_name t) (kind_name u) _ _ (kind_name-IsText t) (kind_name-IsText u) (
        sym (append_assoc (write_field (kind_name t)) _ x)
        ∙ behind
        ∙ append_assoc (write_field (kind_name u)) _ y) in
    let (_, behind'') =
      write_field-Reads (codes "parameters") (codes "parameters") _ _ (omega arith) (omega arith) (
        sym (append_assoc (write_field (codes "parameters")) _ x)
        ∙ behind'
        ∙ append_assoc (write_field (codes "parameters")) _ y) in
    let numbers : kind_number t ≡ kind_number u =
      sym (named_number-kind_name t) ∙ ap named_number names ∙ named_number-kind_name u in
    parameters_read t u x y ht hu numbers behind''
