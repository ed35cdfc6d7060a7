-- ===== src/Cursorcodec/Envelope.antt =====
-- internal/cursorcodec/envelope.go. Where the source keeps an offset into the raw bytes, these
-- functions take the bytes from that offset on; the outcome `panic` is an index or a slice out of
-- range.
pub mod RoundTrip
pub mod Canonical
pub mod Whole
pub mod Decoded
pub mod Safe
use rasql.Prelude.{
  ℕ, zero, suc, ◌+◌, ◌*◌, ◌%◌, ◌^◌, Bool, true, false, not, ◌&&◌, ◌||◌, Option, none, some, List,
  [], ◌∷◌, ◌++◌, ltb, leb, ◌==◌, if◌then◌else◌, length, take, drop, get_elem?, Bytes, Result, ok,
  err, or_else, ◌>>=◌, ◌>>◌, guard,
}
use rasql.Cursorcodec.BigEndian.{big_endian, from_big_endian}
use rasql.Cursorcodec.Base64.{encode_to_string, decode_string}

pub data EnvelopeError : Type 0 where
  key_count_out_of_range : EnvelopeError
  field_too_large : EnvelopeError
  absent_value_with_payload : EnvelopeError
  envelope_too_large : EnvelopeError
  invalid_base64 : EnvelopeError
  invalid_version : EnvelopeError
  truncated_cursor : EnvelopeError
  invalid_metadata_marker : EnvelopeError
  truncated_metadata : EnvelopeError
  invalid_presence_marker : EnvelopeError
  invalid_length : EnvelopeError
  trailing_data : EnvelopeError
  panic : EnvelopeError

abbrev pub version : ℕ
version = 1

abbrev pub max_envelope_bytes : ℕ
max_envelope_bytes = 64 * 1024

abbrev pub header_bytes : ℕ
header_bytes = 1 + 32 + 1

pub record Field : Type 0 where
  pub direction : ℕ
  pub nullable : Bool
  pub nulls : ℕ
  pub codec : Bytes

pub record Value : Type 0 where
  pub present : Bool
  pub data_bytes : Bytes

pub record Envelope : Type 0 where
  pub fingerprint : Bytes
  pub fields : List Field
  pub values : List Value

-- The byte of a marker.
abbrev pub marker : Bool → ℕ
marker false = 0
marker true = 1

-- The body of the encoder's loop.
unfoldable pub encode_field : Field → Value → Result EnvelopeError Bytes
unfolding big_endian
encode_field field value = do
  guard (not (ltb 255 (length field.codec) || ltb 65535 (length value.data_bytes))) field_too_large
  guard (value.present || length value.data_bytes == 0) absent_value_with_payload
  ok (
      field.direction
      ∷ marker field.nullable
      ∷ field.nulls
      ∷ length field.codec % 256
      ∷ (field.codec
          ++ (marker value.present
              ∷ (big_endian 4 (length value.data_bytes % 2 ^ 32) ++ value.data_bytes))))

-- The encoder's loop.
unfoldable pub encode_fields : List Field → List Value → Result EnvelopeError Bytes
unfolding encode_field
encode_fields [] values = ok []
encode_fields (field ∷ fields) [] = err panic
encode_fields (field ∷ fields) (value ∷ values) = do
  bytes ← encode_field field value
  rest ← encode_fields fields values
  ok (bytes ++ rest)

-- The bytes in front of base64.
unfoldable pub encode_bytes : Bytes → List Field → List Value → Result EnvelopeError Bytes
unfolding encode_fields
encode_bytes fingerprint fields values = do
  guard (not (ltb 255 (length fields) || not (length values == length fields)))
      key_count_out_of_range
  body ← encode_fields fields values
  let raw = version ∷ (fingerprint ++ (length fields % 256 ∷ body))
  guard (leb (length raw) max_envelope_bytes) envelope_too_large
  ok raw

-- `EncodeEnvelope`
unfoldable pub encode_envelope : Bytes → List Field → List Value → Result EnvelopeError Bytes
unfolding encode_bytes encode_to_string
encode_envelope fingerprint fields values = do
  raw ← encode_bytes fingerprint fields values
  ok (encode_to_string raw)

-- `raw[offset : offset+n]`, of the bytes from the offset on.
unfoldable pub slice : ℕ → Bytes → Result EnvelopeError Bytes
slice n raw = do guard (leb n (length raw)) panic; ok (take n raw)

-- The decoder's loop body from the presence marker on: the value and the bytes behind it.
unfoldable pub decode_value : Bytes → Result EnvelopeError (Value × Bytes)
decode_value (presence ∷ b3 ∷ b2 ∷ b1 ∷ b0 ∷ rest) = do
  guard (leb presence 1) invalid_presence_marker
  let size = from_big_endian (b3 ∷ b2 ∷ b1 ∷ b0 ∷ [])
  guard (leb size (length rest)) invalid_length
  guard (presence == 1 || size == 0) absent_value_with_payload
  payload ← slice size rest
  ok (record { present = presence == 1; data_bytes = payload }, drop size rest)
decode_value _ = err panic

-- The decoder's loop body.
unfoldable pub decode_field : Bytes → Result EnvelopeError ((Field × Value) × Bytes)
unfolding decode_value
decode_field (direction ∷ nullable_marker ∷ nulls ∷ codec_len ∷ rest) = do
  guard (leb nullable_marker 1) invalid_metadata_marker
  guard (leb (codec_len + 5) (length rest)) truncated_metadata
  codec ← slice codec_len rest
  (value, behind) ← decode_value (drop codec_len rest)
  let field : Field = record {
    direction = direction;
    nullable = nullable_marker == 1;
    nulls = nulls;
    codec = codec;
  }
  ok ((field, value), behind)
decode_field _ = err truncated_cursor

-- The decoder's loop.
unfoldable pub decode_fields : ℕ → Bytes → Result EnvelopeError ((List Field × List Value) × Bytes)
unfolding decode_field
decode_fields zero raw = ok (([], []), raw)
decode_fields (suc count) raw = do
  ((field, value), behind) ← decode_field raw
  ((fields, values), rest) ← decode_fields count behind
  ok ((field ∷ fields, value ∷ values), rest)

-- `raw[i]`
abbrev pub byte_at : ℕ → Bytes → Result EnvelopeError ℕ
byte_at i raw = or_else panic (get_elem? raw i)

-- The decoder behind base64.
unfoldable pub decode_bytes : Bytes → Result EnvelopeError Envelope
unfolding decode_fields
decode_bytes raw = do
  guard (leb (length raw) max_envelope_bytes) invalid_base64
  guard (not (ltb (length raw) header_bytes)) invalid_version
  first ← byte_at 0 raw
  guard (first == version) invalid_version
  fingerprint ← slice 32 (drop 1 raw)
  count ← byte_at 33 raw
  ((fields, values), rest) ← decode_fields count (drop header_bytes raw)
  guard (length rest == 0) trailing_data
  ok (record { fingerprint = fingerprint; fields = fields; values = values })

-- `DecodeEnvelope`
unfoldable pub decode_envelope : Bytes → Result EnvelopeError Envelope
unfolding decode_string decode_bytes
decode_envelope encoded = or_else invalid_base64 (decode_string encoded) >>= decode_bytes
