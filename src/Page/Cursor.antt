-- ===== src/Page/Cursor.antt =====
-- cursor.go and page.go: the cursor of a row, and the values that it is decoded to. `codecs` is
-- what `executorCodecs` returns.
pub mod RoundTrip
use rasql.Prelude.{
  ℕ, Bool, true, false, not, ◌&&◌, ◌||◌, Option, none, some, List, [], ◌∷◌, ◌==◌, if◌then◌else◌,
  length, Bytes, equal, Result, ok, err, ◌>>=◌, ◌>>◌, guard, or_else,
}
use rasql.Cursorcodec.Envelope.{
  EnvelopeError, Field, Value, Envelope, encode_envelope, decode_envelope,
}
use rasql.Cursorcodec.Value.{GoValue, ValueError, nil_value, encode_value, decode_value}
use rasql.Page.{
  PageDirection, page_ascending, page_descending, NullOrder, null_order_default, nulls_first,
  nulls_last, PageError, codec_unavailable, codec_without_cursors, invalid_cursor_envelope,
  cursor_arity_mismatch, cursor_metadata_mismatch, invalid_absent_value, invalid_cursor_value,
  value_error, envelope_error, nil_value_refused, panic, PageKey,
}
use rasql.Page.Keyset.{DecodedCursor}

-- `CursorValueCodec`
pub record CursorValueCodec : Type 0 where
  pub encode_cursor : GoValue → Result PageError Bytes
  pub decode_cursor : Bytes → Result PageError GoValue

-- `CodecRegistry.Lookup`, with whether the codec that it finds supports cursors.
abbrev pub CodecRegistry : Type 0
CodecRegistry = Bytes → Option (Option CursorValueCodec)

abbrev pub with_reason {ℓ} : {E F A : Type ℓ} → (E → F) → Result E A → Result F A
with_reason wrap (err reason) = err (wrap reason)
with_reason wrap (ok value) = ok value

abbrev pub direction_byte : PageDirection → ℕ
direction_byte page_ascending = 1
direction_byte page_descending = 2

abbrev pub nulls_byte : NullOrder → ℕ
nulls_byte null_order_default = 0
nulls_byte nulls_first = 1
nulls_byte nulls_last = 2

-- `cursorCodecFrom`
unfoldable pub cursor_codec_from : CodecRegistry → Bytes → Result PageError CursorValueCodec
cursor_codec_from registry id =
    or_else codec_unavailable (registry id) >>= or_else codec_without_cursors

-- `cursorCodec`
unfoldable pub cursor_codec :
    Result PageError CodecRegistry → Bytes → Result PageError CursorValueCodec
cursor_codec codecs id = codecs >>= λ registry. cursor_codec_from registry id

abbrev pub is_nil : GoValue → Bool
is_nil nil_value = true
is_nil _ = false

abbrev pub same_flag : Bool → Bool → Bool
same_flag true b = b
same_flag false b = not b

-- `==` on fields.
unfoldable pub equal_field : Field → Field → Bool
equal_field f g =
    f.direction == g.direction
    && same_flag f.nullable g.nullable
    && f.nulls == g.nulls
    && equal f.codec g.codec

module _ {R : Type 0} where
  abbrev pub page_key_field : PageKey R → Field
  page_key_field key = record {
    direction = direction_byte key.direction;
    nullable = key.nullable;
    nulls = nulls_byte key.nulls;
    codec = key.codec;
  }

  -- `pageKeyFields`
  unfoldable pub page_key_fields : List (PageKey R) → List Field
  page_key_fields [] = []
  page_key_fields (key ∷ keys) = page_key_field key ∷ page_key_fields keys

  -- `encodePageValue`
  unfoldable pub encode_page_value :
      PageKey R → GoValue → Result PageError CodecRegistry → Result PageError Bytes
  encode_page_value key value codecs = do
    guard (not (not key.nullable && is_nil value)) nil_value_refused
    if equal key.codec []
        then with_reason value_error (encode_value value)
        else cursor_codec codecs key.codec >>= λ codec. codec.encode_cursor value

  -- `decodePageValue`
  unfoldable pub decode_page_value : PageKey R → Bytes → CodecRegistry → Result PageError GoValue
  decode_page_value key bytes registry =
      if equal key.codec []
      then with_reason value_error (decode_value key.typ bytes)
      else cursor_codec_from registry key.codec >>= λ codec. codec.decode_cursor bytes

  -- What is kept of a key's value: nothing of an absent one.
  abbrev pub cursor_value :
      PageKey R → Option GoValue → Result PageError CodecRegistry → Result PageError Value
  cursor_value key none codecs = ok (record { present = false; data_bytes = [] })
  cursor_value key (some value) codecs = do
    bytes ← encode_page_value key value codecs
    ok (record { present = true; data_bytes = bytes })

  -- The loop over the keys of the last row.
  unfoldable pub cursor_values :
      List (PageKey R) → R → Result PageError CodecRegistry → Result PageError (List Value)
  cursor_values [] row codecs = ok []
  cursor_values (key ∷ keys) row codecs = do
    extracted ← key.extract row
    value ← cursor_value key extracted codecs
    values ← cursor_values keys row codecs
    ok (value ∷ values)

  -- `consumePreparedPage`: the cursor behind a row.
  unfoldable pub next_cursor :
      Bytes → List (PageKey R) → R → Result PageError CodecRegistry → Result PageError Bytes
  next_cursor fingerprint keys row codecs = do
    values ← cursor_values keys row codecs
    with_reason envelope_error (encode_envelope fingerprint (page_key_fields keys) values)

  -- A decoded key: an absent value, or the decoded bytes.
  abbrev pub decoded_value : PageKey R → Value → CodecRegistry → Result PageError DecodedCursor
  decoded_value key value registry =
      if not value.present
      then (guard key.nullable invalid_absent_value >>= λ _. ok none)
      else (with_reason invalid_cursor_value (decode_page_value key value.data_bytes registry)
          >>= λ v. ok (some v))

  -- The loop of `decodePageCursor`.
  unfoldable pub decoded_values :
      List (PageKey R)
      → List Field
      → List Value
      → CodecRegistry
      → Result PageError (List DecodedCursor)
  decoded_values [] fields values registry = ok []
  decoded_values (key ∷ keys) (field ∷ fields) (value ∷ values) registry = do
    guard (equal_field field (page_key_field key)) cursor_metadata_mismatch
    decoded ← decoded_value key value registry
    rest ← decoded_values keys fields values registry
    ok (decoded ∷ rest)
  decoded_values (key ∷ keys) _ _ registry = err panic

  -- `decodePageCursor`
  unfoldable pub decode_page_cursor :
      Bytes
      → List (PageKey R)
      → Result PageError CodecRegistry
      → Result PageError (List DecodedCursor × Bytes)
  decode_page_cursor cursor keys codecs = do
    envelope ← with_reason invalid_cursor_envelope (decode_envelope cursor)
    guard (length envelope.fields == length keys) cursor_arity_mismatch
    registry ← codecs
    values ← decoded_values keys envelope.fields envelope.values registry
    ok (values, envelope.fingerprint)
