-- ===== src/Cursorcodec/Tests.antt =====
-- internal/cursorcodec: runs of the model, and its theorems at concrete cursors.
use rasql.Prelude.{
  ◌≡◌, ◌≢◌, refl, ℕ, zero, suc, true, false, ◌++◌, List, [], ◌∷◌, some, Bytes, codes, Result, ok,
  err, ◌>>=◌, negsuc, arith,
}
use rasql.Cursorcodec.BigEndian.{IsBytes, big_endian, spelled}
use rasql.Cursorcodec.Base64.{
  encode_to_string, decode_string, char_of, digit_of, digits_of, bytes_of, is_line_end,
  without_line_ends,
}
use rasql.Cursorcodec.Envelope.{
  Field, Value, Envelope, EnvelopeError, invalid_version, panic, encode_envelope, encode_bytes,
  encode_fields, encode_field, decode_envelope, decode_bytes, slice,
}
use rasql.Cursorcodec.Envelope.RoundTrip.{AreFields}
use rasql.Cursorcodec.Envelope.Whole.{IsFingerprint, decode_envelope-encode_envelope}
use rasql.Cursorcodec.Envelope.Decoded.{encode_envelope-decode_envelope}
use rasql.Cursorcodec.Envelope.Safe.{decode_envelope-ne-panic}
use rasql.Cursorcodec.Value.{
  w8, int_type, float64_type, float_value, int_value, ValueError, nan_value, integer_overflow,
  encode_value, decode_value, bits, flip_top, to_uint64, to_int64, is_nan, overflows,
}
use rasql.Cursorcodec.Value.RoundTrip.{refused, negative_zero, decode_value-encode_value}

base64_test : encode_to_string (codes "rasql") ≡ codes "cmFzcWw"
unfolding encode_to_string char_of
base64_test = refl

-- The bits behind the last byte are passed over, and so are line ends.
base64_loose_test : decode_string (codes "cmFz" ++ 10 ∷ codes "cWx") ≡ some (codes "rasql")
unfolding decode_string digits_of bytes_of digit_of is_line_end without_line_ends
base64_loose_test = refl

abbrev zeros : ℕ → Bytes
zeros zero = []
zeros (suc n) = 0 ∷ zeros n

zeros-IsBytes : (n : ℕ) → IsBytes (zeros n)
zeros-IsBytes zero = tt
zeros-IsBytes (suc n) = (omega arith, zeros-IsBytes n)

abbrev fields : List Field
fields =
    (record { direction = 1; nullable = false; nulls = 0; codec = [] })
    ∷ (record { direction = 2; nullable = true; nulls = 2; codec = codes "m" })
    ∷ []

abbrev values : List Value
values =
    (record { present = true; data_bytes = 7 ∷ 255 ∷ [] })
    ∷ (record { present = false; data_bytes = [] })
    ∷ []

abbrev or_nothing : Result EnvelopeError Bytes → Bytes
or_nothing (err reason) = []
or_nothing (ok bytes) = bytes

abbrev cursor : Bytes
cursor = or_nothing (encode_envelope (zeros 32) fields values)

cursor_made : encode_envelope (zeros 32) fields values ≡ ok cursor
unfolding encode_envelope encode_bytes encode_fields encode_field encode_to_string char_of
    big_endian
cursor_made = refl

are_fields : AreFields fields values
are_fields = (
  (omega arith, omega arith, tt),
  ((omega arith, (omega arith, tt)), ((omega arith, omega arith, (omega arith, tt)), (tt, tt))),
)

abbrev envelope : Envelope
envelope = record { fingerprint = zeros 32; fields = fields; values = values }

decode_envelope-encode_envelope_example : decode_envelope cursor ≡ ok envelope
decode_envelope-encode_envelope_example =
    decode_envelope-encode_envelope (zeros 32) fields values (refl, zeros-IsBytes 32) are_fields
      cursor_made

encode_envelope-decode_envelope_example :
    (raw : Bytes) × decode_string cursor ≡ some raw
    × encode_envelope (zeros 32) fields values ≡ ok (encode_to_string raw)
    × IsFingerprint (zeros 32)
    × AreFields fields values
encode_envelope-decode_envelope_example =
    encode_envelope-decode_envelope cursor {envelope = envelope}
      decode_envelope-encode_envelope_example

decode_envelope-ne-panic_example : decode_envelope (codes "AQ") ≢ err panic
decode_envelope-ne-panic_example = decode_envelope-ne-panic (codes "AQ")

version_test : decode_envelope (codes "AQ") ≡ err invalid_version
unfolding decode_envelope decode_bytes slice decode_string digits_of bytes_of digit_of is_line_end
    without_line_ends
version_test = refl

decode_value-encode_value_example :
    (encode_value (float_value negative_zero) >>= decode_value float64_type) ≡ err nan_value
unfolding refused is_nan
decode_value-encode_value_example =
    decode_value-encode_value float64_type (float_value negative_zero) (omega arith)

overflow_test :
    (encode_value (int_value (negsuc 128)) >>= decode_value (int_type w8)) ≡ err integer_overflow
unfolding encode_value decode_value big_endian spelled flip_top to_uint64 to_int64 overflows bits
overflow_test = refl

int_test :
    (encode_value (int_value (negsuc 127)) >>= decode_value (int_type w8))
    ≡ ok (int_value (negsuc 127))
unfolding encode_value decode_value big_endian spelled flip_top to_uint64 to_int64 overflows bits
int_test = refl

abbrev value_bytes : Result ValueError Bytes → Bytes
value_bytes (err reason) = []
value_bytes (ok bytes) = bytes
