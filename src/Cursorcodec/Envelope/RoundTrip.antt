-- ===== src/Cursorcodec/Envelope/RoundTrip.antt =====
-- An envelope of internal/cursorcodec/envelope.go that was written is read back.
use rasql.Prelude.{
  ◌≡◌, refl, ℕ, ◌+◌, ◌%◌, ◌^◌, ◌≤◌, Bool, true, false, not, ◌||◌, List, [], ◌∷◌, ◌++◌, ltb, leb,
  ◌==◌, length, take, drop, Bytes, ok, ◌>>=◌, guard, guard-eq-ok, >>=-eq-ok, ok_inj, arith,
  take_left, drop_left, length-append, le→leb, append_assoc, sym, ap, ◌∙◌,
}
use rasql.Cursorcodec.BigEndian.{
  IsByte, IsBytes, big_endian, from_big_endian, length-big_endian, from_big_endian-big_endian,
}
use rasql.Cursorcodec.Envelope.{
  Field, Value, marker, encode_field, encode_fields, decode_fields, field_too_large,
  absent_value_with_payload, slice, decode_value, decode_field, invalid_presence_marker,
  invalid_length,
}

-- What Go's types say of the bytes of a field and of a value.
abbrev pub IsField : Field → Type 0
IsField field = IsByte field.direction × IsByte field.nulls × IsBytes field.codec

abbrev pub IsValue : Value → Type 0
IsValue value = IsBytes value.data_bytes

-- The bytes of a field and its value.
abbrev pub wire : Field → Value → Bytes
wire field value =
    field.direction
    ∷ marker field.nullable
    ∷ field.nulls
    ∷ length field.codec % 256
    ∷ (field.codec
        ++ (marker value.present
            ∷ (big_endian 4 (length value.data_bytes % 2 ^ 32) ++ value.data_bytes)))

-- What the encoder lets pass.
abbrev pub Fits : Field → Value → Type 0
Fits field value =
    length field.codec ≤ 255
    × length value.data_bytes ≤ 65535
    × (value.present || length value.data_bytes == 0) ≡ true

pub encode_field-eq-ok :
    (field : Field) (value : Value) {bs : Bytes}
    → encode_field field value ≡ ok bs
    → Fits field value × bs ≡ wire field value
unfolding encode_field
encode_field-eq-ok field value h =
    let (_, sizes, h1) = >>=-eq-ok (guard _ field_too_large) _ h in
    let (_, payload, h2) = >>=-eq-ok (guard _ absent_value_with_payload) _ h1 in
    let small =
      guard-eq-ok (not (ltb 255 (length field.codec) || ltb 65535 (length value.data_bytes)))
        field_too_large sizes in
    ((ground arith, ground arith, guard-eq-ok _ _ payload), sym (ok_inj h2))

leb-marker : (b : Bool) → leb (marker b) 1 ≡ true
leb-marker true = refl
leb-marker false = refl

marker_read : (b : Bool) → (marker b == 1) ≡ b
marker_read true = refl
marker_read false = refl

pub slice_le : (n : ℕ) (bs : Bytes) → n ≤ length bs → slice n bs ≡ ok (take n bs)
unfolding slice
slice_le n bs h = rw (le→leb n (length bs) h) refl

decode_value_lem :
    (presence : ℕ) (size rest : Bytes)
    → length size ≡ 4
    → decode_value (presence ∷ (size ++ rest)) ≡ (
        guard (leb presence 1) invalid_presence_marker >>= λ _.
        guard (leb (from_big_endian size) (length rest)) invalid_length >>= λ _.
        guard (presence == 1 || from_big_endian size == 0) absent_value_with_payload >>= λ _.
        slice (from_big_endian size) rest >>= λ payload. ok (
          record { present = presence == 1; data_bytes = payload },
          drop (from_big_endian size) rest,
        ))
unfolding decode_value
decode_value_lem presence (a ∷ b ∷ c ∷ d ∷ []) rest h = refl
decode_value_lem presence _ rest h = absurd (omega arith)

decode_value-wire :
    (value : Value) (rest : Bytes)
    → length value.data_bytes ≤ 65535
    → (value.present || length value.data_bytes == 0) ≡ true
    → decode_value (
        marker value.present
        ∷ (big_endian 4 (length value.data_bytes % 2 ^ 32) ++ (value.data_bytes ++ rest)))
      ≡ ok (value, rest)
decode_value-wire value rest small payload =
    let size = length value.data_bytes in
    let narrow : (size % 2 ^ 32) ≡ size = omega arith in
    let read = from_big_endian-big_endian 4 size (omega arith) in
    let behind = length-append value.data_bytes rest in
    rw
      (
        decode_value_lem (marker value.present) (big_endian 4 (size % 2 ^ 32))
            (value.data_bytes ++ rest) (length-big_endian 4 _),
        narrow,
        read,
        leb-marker value.present,
        marker_read value.present,
        le→leb size (length (value.data_bytes ++ rest)) (omega arith),
        payload,
        slice_le size (value.data_bytes ++ rest) (omega arith),
        take_left value.data_bytes rest,
        drop_left value.data_bytes rest,
      )
      refl

decode_field-wire :
    (field : Field) (value : Value) (rest : Bytes)
    → Fits field value
    → decode_field (wire field value ++ rest) ≡ ok ((field, value), rest)
unfolding decode_field
decode_field-wire field value rest (codec_fits, data_fits, payload) =
    let narrow : (length field.codec % 256) ≡ length field.codec = omega arith in
    let tail =
      marker value.present
      ∷ (big_endian 4 (length value.data_bytes % 2 ^ 32) ++ (value.data_bytes ++ rest)) in
    let nested : (wire field value ++ rest) ≡ (
        field.direction
        ∷ marker field.nullable
        ∷ field.nulls
        ∷ length field.codec % 256
        ∷ (field.codec ++ tail)) =
      simp append_assoc in
    let sizes : (length field.codec + 5) ≤ length (field.codec ++ tail) = omega (
      arith,
      length-append field.codec tail,
      length-append (big_endian 4 (length value.data_bytes % 2 ^ 32)) (value.data_bytes ++ rest),
      length-big_endian 4 (length value.data_bytes % 2 ^ 32),
    ) in
    ap decode_field nested
    ∙ rw
        (
          narrow,
          leb-marker field.nullable,
          marker_read field.nullable,
          le→leb (length field.codec + 5) (length (field.codec ++ tail)) sizes,
          slice_le (length field.codec) (field.codec ++ tail) (omega arith),
          take_left field.codec tail,
          drop_left field.codec tail,
          decode_value-wire value rest data_fits payload,
        )
        refl

-- What the encoder's loop asks of the fields and values beside Go's types.
abbrev pub AreFields : List Field → List Value → Type 0
AreFields [] [] = Unit
AreFields [] (value ∷ values) = ⊥
AreFields (field ∷ fields) [] = ⊥
AreFields (field ∷ fields) (value ∷ values) =
    IsField field × (IsValue value × AreFields fields values)

pub decode_fields-encode_fields :
    (fields : List Field) (values : List Value) (rest : Bytes) {body : Bytes}
    → length values ≡ length fields
    → encode_fields fields values ≡ ok body
    → decode_fields (length fields) (body ++ rest) ≡ ok ((fields, values), rest)
unfolding encode_fields decode_fields
decode_fields-encode_fields [] [] rest e h = rw (sym (ok_inj h)) refl
decode_fields-encode_fields [] (value ∷ values) rest e h = absurd (omega arith)
decode_fields-encode_fields (field ∷ fields) [] rest e h = absurd (omega arith)
decode_fields-encode_fields (field ∷ fields) (value ∷ values) rest {body} e h =
    let (bytes, written, h1) = >>=-eq-ok (encode_field field value) _ h in
    let (behind, written_rest, h2) = >>=-eq-ok (encode_fields fields values) _ h1 in
    let (fits, spelled_out) = encode_field-eq-ok field value written in
    let nested : (body ++ rest) ≡ (wire field value ++ (behind ++ rest)) =
      rw (sym (ok_inj h2), spelled_out) (append_assoc (wire field value) behind rest) in
    let read = decode_field-wire field value (behind ++ rest) fits in
    rw (nested, read, decode_fields-encode_fields fields values rest (omega arith) written_rest)
      refl
