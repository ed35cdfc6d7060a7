-- ===== src/Cursorcodec/Envelope/Safe.antt =====
-- The decoder of internal/cursorcodec/envelope.go never reads past its bytes.
use rasql.Prelude.{
  ◌≢◌, sym, ◌∙◌, ℕ, zero, suc, ◌+◌, ◌≤◌, not, ◌||◌, none, some, [], Option, ◌∷◌, ltb, leb, leb→le,
  ◌==◌, length, length-drop, drop, Bytes, err, or_else, guarded-ne-err, >>=-ne-err, arith,
}
use rasql.Cursorcodec.Envelope.RoundTrip.{slice_le}
use rasql.Cursorcodec.BigEndian.{from_big_endian}
use rasql.Cursorcodec.Base64.{decode_string}
use rasql.Cursorcodec.Envelope.{
  panic, invalid_presence_marker, invalid_length, absent_value_with_payload,
  invalid_metadata_marker, truncated_metadata, invalid_base64, invalid_version, trailing_data,
  version, header_bytes, max_envelope_bytes, byte_at, slice, decode_value, decode_field,
  decode_fields, decode_bytes, decode_envelope,
}

slice-ne-panic : (n : ℕ) (bs : Bytes) → n ≤ length bs → slice n bs ≢ err panic
slice-ne-panic n bs h e = let made = sym (slice_le n bs h) ∙ e in absurd cc

decode_value-ne-panic : (bs : Bytes) → 5 ≤ length bs → decode_value bs ≢ err panic
unfolding decode_value
decode_value-ne-panic (presence ∷ b3 ∷ b2 ∷ b1 ∷ b0 ∷ rest) h =
    guarded-ne-err (leb presence 1) invalid_presence_marker _ panic (λ e. cc)
      λ _.
        guarded-ne-err (leb (from_big_endian (b3 ∷ b2 ∷ b1 ∷ b0 ∷ [])) (length rest)) invalid_length
          _ panic (λ e. cc)
          λ fits.
            guarded-ne-err (presence == 1 || from_big_endian (b3 ∷ b2 ∷ b1 ∷ b0 ∷ []) == 0)
              absent_value_with_payload _ panic (λ e. cc)
              λ _.
                >>=-ne-err (slice (from_big_endian (b3 ∷ b2 ∷ b1 ∷ b0 ∷ [])) rest) _ panic
                  (slice-ne-panic _ rest (leb→le _ (length rest) fits)) λ _ _ e. cc
decode_value-ne-panic _ h = absurd (omega arith)

decode_field-ne-panic : (bs : Bytes) → decode_field bs ≢ err panic
unfolding decode_field
decode_field-ne-panic (direction ∷ nullable ∷ nulls ∷ codec_len ∷ rest) =
    guarded-ne-err (leb nullable 1) invalid_metadata_marker _ panic (λ e. cc)
      λ _.
        guarded-ne-err (leb (codec_len + 5) (length rest)) truncated_metadata _ panic (λ e. cc)
          λ enough.
            let fits = leb→le (codec_len + 5) (length rest) enough in
            >>=-ne-err (slice codec_len rest) _ panic (slice-ne-panic codec_len rest (omega arith))
              λ _ _.
                >>=-ne-err (decode_value (drop codec_len rest)) _ panic
                  (decode_value-ne-panic (drop codec_len rest)
                    (omega (arith, length-drop codec_len rest)))
                  λ _ _ e. cc
decode_field-ne-panic _ = λ e. cc

decode_fields-ne-panic : (count : ℕ) (bs : Bytes) → decode_fields count bs ≢ err panic
unfolding decode_fields
decode_fields-ne-panic zero bs = λ e. cc
decode_fields-ne-panic (suc count) bs =
    >>=-ne-err (decode_field bs) _ panic (decode_field-ne-panic bs) λ read _.
      >>=-ne-err (decode_fields count read.1) _ panic (decode_fields-ne-panic count read.1)
        λ _ _ e. cc

get_lt : (i : ℕ) (bs : Bytes) → suc i ≤ length bs → byte_at i bs ≢ err panic
get_lt i [] h = absurd (omega arith)
get_lt zero (b ∷ bs) h = λ e. cc
get_lt (suc i) (b ∷ bs) h = get_lt i bs (omega arith)

decode_bytes-ne-panic : (raw : Bytes) → decode_bytes raw ≢ err panic
unfolding decode_bytes
decode_bytes-ne-panic raw =
    guarded-ne-err (leb (length raw) max_envelope_bytes) invalid_base64 _ panic (λ e. cc)
      λ _.
        guarded-ne-err (not (ltb (length raw) header_bytes)) invalid_version _ panic (λ e. cc)
          λ enough.
            let long : 34 ≤ length raw = ground arith in
            >>=-ne-err (byte_at 0 raw) _ panic (get_lt 0 raw (omega arith)) λ first _.
              guarded-ne-err (first == version) invalid_version _ panic (λ e. cc)
                λ _.
                  >>=-ne-err (slice 32 (drop 1 raw)) _ panic
                    (slice-ne-panic 32 (drop 1 raw) (omega (arith, length-drop 1 raw)))
                    λ _ _.
                      >>=-ne-err (byte_at 33 raw) _ panic (get_lt 33 raw (omega arith)) λ count _.
                        >>=-ne-err (decode_fields count (drop header_bytes raw)) _ panic
                          (decode_fields-ne-panic count (drop header_bytes raw))
                          λ read _.
                            guarded-ne-err (length read.1 == 0) trailing_data _ panic (λ e. cc)
                              λ _ e. cc

or_else-ne-panic : (raw : Option Bytes) → or_else invalid_base64 raw ≢ err panic
or_else-ne-panic none = λ e. cc
or_else-ne-panic (some bs) = λ e. cc

-- DecodeEnvelope never reads a byte or a slice past the end of what it decodes, whatever the text is.
pub decode_envelope-ne-panic : (encoded : Bytes) → decode_envelope encoded ≢ err panic
unfolding decode_envelope
decode_envelope-ne-panic encoded =
    >>=-ne-err (or_else invalid_base64 (decode_string encoded)) decode_bytes panic
      (or_else-ne-panic (decode_string encoded)) λ raw _. decode_bytes-ne-panic raw
