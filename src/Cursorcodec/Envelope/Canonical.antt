-- ===== src/Cursorcodec/Envelope/Canonical.antt =====
-- What internal/cursorcodec/envelope.go decodes, it encodes to the same bytes.
use rasql.Prelude.{
  ◌≡◌, refl, ℕ, zero, suc, ◌+◌, ◌%◌, ◌^◌, ◌≤◌, true, not, ◌||◌, List, [], ◌∷◌, ◌++◌, ltb, leb,
  leb→le, ◌==◌, length, length-append, length-drop, length-take_le, take, drop, take-append-drop,
  Bytes, ok, guard, guard-eq-ok, >>=-eq-ok, ok_inj, arith, append_assoc, sym, ap, subst, ◌∙◌,
  All-append_left, All-append_right,
}
use rasql.Cursorcodec.BigEndian.{
  IsByte, IsBytes, big_endian, from_big_endian, from_big_endian_bound, big_endian-from_big_endian,
}
use rasql.Cursorcodec.Envelope.{
  Field, Value, marker, encode_field, encode_fields, decode_value, decode_field, decode_fields,
  invalid_presence_marker, invalid_length, absent_value_with_payload, invalid_metadata_marker,
  truncated_metadata,
}
use rasql.Cursorcodec.Envelope.RoundTrip.{IsField, IsValue, AreFields, Fits, wire, slice_le}

marker_written : (b : ℕ) → b ≤ 1 → marker (b == 1) ≡ b
marker_written b h = ground arith

pub IsBytes-take : (n : ℕ) (bs : Bytes) → IsBytes bs → IsBytes (take n bs)
IsBytes-take n bs h =
    All-append_left IsByte (take n bs) (drop n bs) (subst IsBytes (sym (take-append-drop n bs)) h)

pub IsBytes-drop : (n : ℕ) (bs : Bytes) → IsBytes bs → IsBytes (drop n bs)
IsBytes-drop n bs h =
    All-append_right IsByte (take n bs) (drop n bs) (subst IsBytes (sym (take-append-drop n bs)) h)

-- The bytes of a value.
abbrev value_wire : Value → Bytes
value_wire value =
    marker value.present ∷ (big_endian 4 (length value.data_bytes % 2 ^ 32) ++ value.data_bytes)

-- A value, and the bytes behind it, that bytes are made of.
abbrev ValueRead : Bytes → Value × Bytes → Type 0
ValueRead bs (value, behind) =
    bs ≡ (value_wire value ++ behind)
    × length value.data_bytes ≤ 65535
    × (value.present || length value.data_bytes == 0) ≡ true
    × IsValue value

decode_value-eq-ok :
    (bs : Bytes) {value : Value} {behind : Bytes}
    → IsBytes bs
    → length bs ≤ 65535
    → decode_value bs ≡ ok (value, behind)
    → ValueRead bs (value, behind)
unfolding decode_value
decode_value-eq-ok (presence ∷ b3 ∷ b2 ∷ b1 ∷ b0 ∷ rest) {value} {behind}
      (hp, (h3, (h2, (h1, (h0, hr))))) small h =
    let header = b3 ∷ b2 ∷ b1 ∷ b0 ∷ [] in
    let header_bytes : IsBytes header = (h3, (h2, (h1, (h0, tt)))) in
    let size = from_big_endian header in
    let (_, g1, k1) = >>=-eq-ok (guard (leb presence 1) invalid_presence_marker) _ h in
    let (_, g2, k2) = >>=-eq-ok (guard (leb size (length rest)) invalid_length) _ k1 in
    let (_, g3, k3) =
      >>=-eq-ok (guard (presence == 1 || size == 0) absent_value_with_payload) _ k2 in
    let marked = leb→le presence 1 (guard-eq-ok _ invalid_presence_marker g1) in
    let fits = leb→le size (length rest) (guard-eq-ok _ invalid_length g2) in
    let data_size = length-take_le size rest fits in
    let k4 = rw (slice_le size rest fits) at k3 in
    let full : big_endian 4 size ≡ header = big_endian-from_big_endian header header_bytes in
    let narrow : (size % 2 ^ 32) ≡ size =
      omega (arith, from_big_endian_bound header header_bytes) in
    let parts : rest ≡ (take size rest ++ drop size rest) = sym (take-append-drop size rest) in
    let wired : (presence ∷ (header ++ rest)) ≡ (
        (marker (presence == 1)
          ∷ (big_endian 4 (length (take size rest) % 2 ^ 32) ++ take size rest))
        ++ drop size rest) =
      rw (data_size, narrow, full, marker_written presence marked)
        (ap (λ bs. presence ∷ (header ++ bs)) parts) in
    let payload : (presence == 1 || length (take size rest) == 0) ≡ true =
      rw data_size (guard-eq-ok _ absent_value_with_payload g3) in
    subst (ValueRead (presence ∷ (header ++ rest))) (ok_inj k4)
      (wired, omega arith, payload, IsBytes-take size rest hr)
decode_value-eq-ok _ _ _ h = absurd cc

abbrev FieldRead : Bytes → (Field × Value) × Bytes → Type 0
FieldRead bs ((field, value), behind) =
    bs ≡ (wire field value ++ behind) × Fits field value × IsField field × IsValue value

decode_field-eq-ok :
    (bs : Bytes) {read : (Field × Value) × Bytes}
    → IsBytes bs
    → length bs ≤ 65535
    → decode_field bs ≡ ok read
    → FieldRead bs read
unfolding decode_field
decode_field-eq-ok (direction ∷ nullable ∷ nulls ∷ codec_len ∷ rest) (hd, (_, (hn, (hc, hr)))) small
      h =
    let (_, g1, k1) = >>=-eq-ok (guard (leb nullable 1) invalid_metadata_marker) _ h in
    let (_, g2, k2) =
      >>=-eq-ok (guard (leb (codec_len + 5) (length rest)) truncated_metadata) _ k1 in
    let marked = leb→le nullable 1 (guard-eq-ok _ invalid_metadata_marker g1) in
    let fits = leb→le (codec_len + 5) (length rest) (guard-eq-ok _ truncated_metadata g2) in
    let sliced = rw (slice_le codec_len rest (omega arith)) at k2 in
    let ((value, behind), read_value, k3) =
      >>=-eq-ok (decode_value (drop codec_len rest)) _ sliced in
    let codec_size = length-take_le codec_len rest (omega arith) in
    let dropped = length-drop codec_len rest in
    let (bytes_value, data_fits, payload, data_bytes) =
      decode_value-eq-ok (drop codec_len rest) {value = value} {behind = behind}
        (IsBytes-drop codec_len rest hr) (omega arith) read_value in
    let narrow : (codec_len % 256) ≡ codec_len = omega arith in
    let parts : rest ≡ (take codec_len rest ++ (value_wire value ++ behind)) =
      sym (take-append-drop codec_len rest) ∙ ap (λ bs. take codec_len rest ++ bs) bytes_value in
    let wired : (direction ∷ nullable ∷ nulls ∷ codec_len ∷ rest) ≡ (
        (direction
          ∷ marker (nullable == 1)
          ∷ nulls
          ∷ length (take codec_len rest) % 256
          ∷ (take codec_len rest ++ value_wire value))
        ++ behind) =
      rw (codec_size, narrow, marker_written nullable marked)
        (ap (λ bs. direction ∷ nullable ∷ nulls ∷ codec_len ∷ bs)
          (parts ∙ sym (append_assoc (take codec_len rest) (value_wire value) behind))) in
    subst (FieldRead (direction ∷ nullable ∷ nulls ∷ codec_len ∷ rest)) (ok_inj k3) (
      wired,
      (omega arith, data_fits, payload),
      (hd, hn, IsBytes-take codec_len rest hr),
      data_bytes,
    )
decode_field-eq-ok _ _ _ h = absurd cc

encode_field-wire :
    (field : Field) (value : Value)
    → Fits field value
    → encode_field field value ≡ ok (wire field value)
unfolding encode_field
encode_field-wire field value (codec_fits, data_fits, payload) =
    let fits : (not (ltb 255 (length field.codec) || ltb 65535 (length value.data_bytes))) ≡ true =
      ground arith in
    rw (fits, payload) refl

abbrev FieldsRead : ℕ → Bytes → (List Field × List Value) × Bytes → Type 0
FieldsRead count bs ((fields, values), rest) =
    (body : Bytes) × encode_fields fields values ≡ ok body
    × bs ≡ (body ++ rest)
    × length fields ≡ count
    × length values ≡ count
    × AreFields fields values

pub decode_fields-eq-ok :
    (count : ℕ) (bs : Bytes) {read : (List Field × List Value) × Bytes}
    → IsBytes bs
    → length bs ≤ 65535
    → decode_fields count bs ≡ ok read
    → FieldsRead count bs read
unfolding decode_fields encode_fields
decode_fields-eq-ok zero bs hb small h =
    subst (FieldsRead zero bs) (ok_inj h) ([], refl, refl, refl, refl, tt)
decode_fields-eq-ok (suc count) bs hb small h =
    let (((field, value), behind), read_field, k1) = >>=-eq-ok (decode_field bs) _ h in
    let (((fields, values), rest), read_rest, k2) = >>=-eq-ok (decode_fields count behind) _ k1 in
    let (bytes_field, fits, is_field, is_value) = decode_field-eq-ok bs hb small read_field in
    let behind_bytes : IsBytes behind =
      All-append_right IsByte (wire field value) behind (subst IsBytes bytes_field hb) in
    let lengths : length bs ≡ length (wire field value) + length behind =
      ap length bytes_field ∙ length-append (wire field value) behind in
    let (body, written, bytes_rest, few, same, are) =
      decode_fields-eq-ok count behind behind_bytes (omega arith) read_rest in
    let bytes_all : bs ≡ ((wire field value ++ body) ++ rest) =
      bytes_field
      ∙ ap (λ cs. wire field value ++ cs) bytes_rest
      ∙ sym (append_assoc (wire field value) body rest) in
    let encoded : encode_fields (field ∷ fields) (value ∷ values) ≡ ok (wire field value ++ body) =
      rw (encode_field-wire field value fits, written) refl in
    subst (FieldsRead (suc count) bs) (ok_inj k2) (
      wire field value ++ body,
      encoded,
      bytes_all,
      omega arith,
      omega arith,
      (is_field, (is_value, are)),
    )
