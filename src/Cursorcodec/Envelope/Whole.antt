-- ===== src/Cursorcodec/Envelope/Whole.antt =====
-- Whole envelopes of internal/cursorcodec/envelope.go: written, and read back through base64.
use rasql.Prelude.{
  ◌≡◌, refl, suc, ◌%◌, ◌^◌, ◌≤◌, Bool, true, false, not, ◌||◌, List, [], ◌∷◌, ◌++◌, ltb, leb, ◌==◌,
  length, length-append, Bytes, ok, guard, guard-eq-ok, >>=-eq-ok, ok_inj, arith, All-append,
  take_append, drop_past, get_append, append-nil, le→leb, ◌∙◌, sym, ap, subst,
}
use rasql.Cursorcodec.BigEndian.{IsByte, IsBytes, big_endian-IsBytes}
use rasql.Cursorcodec.Base64.RoundTrip.{decode_string-encode_to_string}
use rasql.Cursorcodec.Envelope.{
  Field, Value, marker, version, max_envelope_bytes, header_bytes, encode_field, encode_fields,
  encode_bytes, encode_envelope, decode_fields, decode_bytes, decode_envelope,
  key_count_out_of_range, envelope_too_large,
}
use rasql.Cursorcodec.Envelope.RoundTrip.{
  IsField, IsValue, AreFields, wire, slice_le, encode_field-eq-ok, decode_fields-encode_fields,
}

marker-IsByte : (b : Bool) → IsByte (marker b)
marker-IsByte true = omega arith
marker-IsByte false = omega arith

wire-IsBytes :
    (field : Field) (value : Value) → IsField field → IsValue value → IsBytes (wire field value)
wire-IsBytes field value (hd, hn, hc) hv =
    let size = big_endian-IsBytes 4 (length value.data_bytes % 2 ^ 32) in
    let tail = All-append IsByte _ _ size hv in
    (
      hd,
      (
        marker-IsByte field.nullable,
        (hn, (omega arith, All-append IsByte _ _ hc (marker-IsByte value.present, tail))),
      ),
    )

encode_fields-IsBytes :
    (fields : List Field) (values : List Value) {body : Bytes}
    → AreFields fields values
    → encode_fields fields values ≡ ok body
    → IsBytes body
unfolding encode_fields
encode_fields-IsBytes [] [] _ h = subst IsBytes (ok_inj h) tt
encode_fields-IsBytes [] (value ∷ values) none_left _ = absurd none_left
encode_fields-IsBytes (field ∷ fields) [] none_left _ = absurd none_left
encode_fields-IsBytes (field ∷ fields) (value ∷ values) (hf, (hv, hs)) h =
    let (bytes, written, h1) = >>=-eq-ok (encode_field field value) _ h in
    let (behind, written_rest, h2) = >>=-eq-ok (encode_fields fields values) _ h1 in
    let (_, spelled_out) = encode_field-eq-ok field value written in
    let rest = encode_fields-IsBytes fields values hs written_rest in
    subst IsBytes (ok_inj h2) (
      All-append IsByte bytes behind
        (subst IsBytes (sym spelled_out) (wire-IsBytes field value hf hv)) rest)

abbrev pub IsFingerprint : Bytes → Type 0
IsFingerprint fingerprint = length fingerprint ≡ 32 × IsBytes fingerprint

pub encode_bytes-eq-ok :
    (fingerprint : Bytes) (fields : List Field) (values : List Value) {raw : Bytes}
    → encode_bytes fingerprint fields values ≡ ok raw
    → length fields ≤ 255
      × length values ≡ length fields
      × length raw ≤ max_envelope_bytes
      × ((body : Bytes) × encode_fields fields values ≡ ok body
          × raw ≡ (version ∷ (fingerprint ++ (length fields % 256 ∷ body))))
unfolding encode_bytes
encode_bytes-eq-ok fingerprint fields values {raw} h =
    let (_, counts, h1) = >>=-eq-ok (guard _ key_count_out_of_range) _ h in
    let (body, written, h2) = >>=-eq-ok (encode_fields fields values) _ h1 in
    let (_, sizes, h3) = >>=-eq-ok (guard _ envelope_too_large) _ h2 in
    let count =
      guard-eq-ok (not (ltb 255 (length fields) || not (length values == length fields)))
        key_count_out_of_range counts in
    let whole = version ∷ (fingerprint ++ (length fields % 256 ∷ body)) in
    let size = guard-eq-ok (leb (length whole) max_envelope_bytes) envelope_too_large sizes in
    let same : whole ≡ raw = ok_inj h3 in
    (
      ground arith,
      ground arith,
      subst (λ bs. length bs ≤ max_envelope_bytes) same (ground arith),
      (body, written, sym same),
    )

decode_bytes-encode_bytes :
    (fingerprint : Bytes) (fields : List Field) (values : List Value) {raw : Bytes}
    → length fingerprint ≡ 32
    → encode_bytes fingerprint fields values ≡ ok raw
    → decode_bytes raw ≡ ok (record { fingerprint = fingerprint; fields = fields; values = values })
unfolding decode_bytes
decode_bytes-encode_bytes fingerprint fields values {raw} hp h =
    let (few, same, small, (body, written, e)) = encode_bytes-eq-ok fingerprint fields values h in
    let narrow : (length fields % 256) ≡ length fields = omega arith in
    let read = decode_fields-encode_fields fields values [] same written in
    let tail = length fields % 256 ∷ body in
    let lengths = length-append fingerprint tail in
    let sizes : length raw ≡ suc (length (fingerprint ++ tail)) = ap length e in
    let enough : ltb (length (version ∷ (fingerprint ++ tail))) header_bytes ≡ false =
      ground arith in
    let fits = le→leb (length (version ∷ (fingerprint ++ tail))) max_envelope_bytes (omega arith) in
    let fields_read : decode_fields (length fields) body ≡ ok ((fields, values), []) =
      subst (λ bs. decode_fields (length fields) bs ≡ ok ((fields, values), [])) (append-nil body)
        read in
    ap decode_bytes e
    ∙ rw
        (
          fits,
          enough,
          slice_le 32 (fingerprint ++ tail) (omega arith),
          get_append 32 fingerprint body (length fields % 256) hp,
          narrow,
          drop_past 32 fingerprint body (length fields) hp,
          fields_read,
          take_append 32 fingerprint (length fields ∷ body) hp,
        )
        refl

encode_bytes-IsBytes :
    (fingerprint : Bytes) (fields : List Field) (values : List Value) {raw : Bytes}
    → IsBytes fingerprint
    → AreFields fields values
    → encode_bytes fingerprint fields values ≡ ok raw
    → IsBytes raw
encode_bytes-IsBytes fingerprint fields values hp hs h =
    let (_, _, _, (body, written, e)) = encode_bytes-eq-ok fingerprint fields values h in
    let tail : IsBytes (length fields % 256 ∷ body) =
      (omega arith, encode_fields-IsBytes fields values hs written) in
    subst IsBytes (sym e) (omega arith, All-append IsByte fingerprint _ hp tail)

-- A cursor that EncodeEnvelope returns is decoded, and to the fingerprint, the fields and the
-- values that it was made of, whatever they are in Go's types.
pub decode_envelope-encode_envelope :
    (fingerprint : Bytes) (fields : List Field) (values : List Value) {encoded : Bytes}
    → IsFingerprint fingerprint
    → AreFields fields values
    → encode_envelope fingerprint fields values ≡ ok encoded
    → decode_envelope encoded
      ≡ ok (record { fingerprint = fingerprint; fields = fields; values = values })
unfolding encode_envelope decode_envelope
decode_envelope-encode_envelope fingerprint fields values (hlen, hp) hs h =
    let (raw, written, h1) = >>=-eq-ok (encode_bytes fingerprint fields values) _ h in
    let text =
      decode_string-encode_to_string raw
        (encode_bytes-IsBytes fingerprint fields values hp hs written) in
    rw (sym (ok_inj h1), text) (decode_bytes-encode_bytes fingerprint fields values hlen written)
