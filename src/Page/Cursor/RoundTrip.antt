-- ===== src/Page/Cursor/RoundTrip.antt =====
-- The cursor that a page of page.go ends with, decoded by the next page.
use rasql.Prelude.{
  ◌≡◌, refl, sym, ap, subst, ◌∙◌, suc, ◌%◌, ◌^◌, All-append, Bool, true, false, not, ◌&&◌, none,
  some, List, [], ◌∷◌, ==_iff, length, Bytes, equal, equal_self, equal_iff, Result, ok, err, guard,
  >>=-eq-ok, ok_inj, arith,
}
use rasql.Cursorcodec.BigEndian.{IsByte, IsBytes, big_endian-IsBytes}
use rasql.Cursorcodec.Envelope.{Field, Value, encode_envelope}
use rasql.Cursorcodec.Envelope.RoundTrip.{IsField, AreFields}
use rasql.Cursorcodec.Envelope.Whole.{IsFingerprint, decode_envelope-encode_envelope}
use rasql.Cursorcodec.Value.{
  GoValue, nil_value, time_value, float_value, bool_value, int_value, uint_value, string_value,
  bytes_value, other_value, nan_value, to_uint64, flip_top, is_nan, biased, encode_value,
  decode_value,
}
use rasql.Cursorcodec.Value.RoundTrip.{HasType, refused, decode_value-encode_value}
use rasql.Page.{
  PageDirection, page_ascending, page_descending, NullOrder, null_order_default, nulls_first,
  nulls_last, value_error, envelope_error, nil_value_refused, PageKey,
}
use rasql.Page.Keyset.{DecodedCursor}
use rasql.Page.Cursor.{
  CodecRegistry, with_reason, direction_byte, nulls_byte, page_key_field, page_key_fields,
  encode_page_value, decode_page_value, cursor_value, cursor_values, next_cursor, same_flag,
  equal_field, decoded_value, decoded_values, decode_page_cursor, is_nil,
}

with_reason-eq-ok {ℓ} :
    {E F A : Type ℓ} (wrap : E → F) (r : Result E A) {a : A} → with_reason wrap r ≡ ok a → r ≡ ok a
with_reason-eq-ok wrap (ok b) h = ap ok (ok_inj h)
with_reason-eq-ok wrap (err e) h = absurd cc

equal_field_self : (f : Field) → equal_field f f ≡ true
unfolding equal_field
equal_field_self f =
    rw
      (
        (==_iff f.direction f.direction).1 refl,
        same_self f.nullable,
        (==_iff f.nulls f.nulls).1 refl,
        equal_self f.codec,
      )
      refl
  where
    same_self : (b : Bool) → same_flag b b ≡ true
    same_self true = refl
    same_self false = refl

direction_byte-IsByte : (d : PageDirection) → IsByte (direction_byte d)
direction_byte-IsByte page_ascending = omega arith
direction_byte-IsByte page_descending = omega arith

nulls_byte-IsByte : (nulls : NullOrder) → IsByte (nulls_byte nulls)
nulls_byte-IsByte null_order_default = omega arith
nulls_byte-IsByte nulls_first = omega arith
nulls_byte-IsByte nulls_last = omega arith

module _ {R : Type 0} (registry : CodecRegistry) where
  -- What a key's value in a row has to do: it is extracted, a NULL only from a nullable key, and
  -- bytes that it is encoded to decode to it again.
  abbrev pub ReadsBack : PageKey R → DecodedCursor → Type 0
  ReadsBack key none = key.nullable ≡ true
  ReadsBack key (some v) =
      (bytes : Bytes)
      → encode_page_value key v (ok registry) ≡ ok bytes
      → (decode_page_value key bytes registry ≡ ok v) × IsBytes bytes

  -- The values of a row for the keys.
  abbrev pub KeyValues : List (PageKey R) → R → List DecodedCursor → Type 0
  KeyValues [] row [] = Unit
  KeyValues [] row (c ∷ cs) = ⊥
  KeyValues (key ∷ keys) row [] = ⊥
  KeyValues (key ∷ keys) row (c ∷ cs) =
      key.extract row ≡ ok c × IsBytes key.codec × ReadsBack key c × KeyValues keys row cs

  decoded_value-cursor_value :
      (key : PageKey R) (c : DecodedCursor) {value : Value}
      → ReadsBack key c
      → cursor_value key c (ok registry) ≡ ok value
      → (decoded_value key value registry ≡ ok c) × IsBytes value.data_bytes
  decoded_value-cursor_value key none back h =
      subst (λ value. (decoded_value key value registry ≡ ok none) × IsBytes value.data_bytes)
        (ok_inj h) (rw back refl, tt)
  decoded_value-cursor_value key (some v) back h =
      let (bytes, encoded, h1) = >>=-eq-ok (encode_page_value key v (ok registry)) _ h in
      let (decoded, are) = back bytes encoded in
      subst (λ value. (decoded_value key value registry ≡ ok (some v)) × IsBytes value.data_bytes)
        (ok_inj h1) (rw decoded refl, are)

  decoded_values-cursor_values :
      (keys : List (PageKey R)) (row : R) (cs : List DecodedCursor) {values : List Value}
      → KeyValues keys row cs
      → cursor_values keys row (ok registry) ≡ ok values
      → (decoded_values keys (page_key_fields keys) values registry ≡ ok cs)
        × AreFields (page_key_fields keys) values
  unfolding decoded_values cursor_values page_key_fields
  decoded_values-cursor_values [] row [] _ h =
      subst (λ values. (decoded_values {R = R} [] [] values registry ≡ ok []) × AreFields [] values)
        (ok_inj h) (refl, tt)
  decoded_values-cursor_values [] row (c ∷ cs) none_left h = absurd none_left
  decoded_values-cursor_values (key ∷ keys) row [] none_left h = absurd none_left
  decoded_values-cursor_values (key ∷ keys) row (c ∷ cs) (extracted, codec, back, rest) h =
      let (c', extracted', h1) = >>=-eq-ok (key.extract row) _ h in
      let same : c' ≡ c = ok_inj (sym extracted' ∙ extracted) in
      let (value, read, h2) = >>=-eq-ok (cursor_value key c' (ok registry)) _ h1 in
      let (values, looped, h3) = >>=-eq-ok (cursor_values keys row (ok registry)) _ h2 in
      let (decoded, are) =
        decoded_value-cursor_value key c back
          (subst (λ d. cursor_value key d (ok registry) ≡ ok value) same read) in
      let (later, all) = decoded_values-cursor_values keys row cs rest looped in
      let field : IsField (page_key_field key) =
        (direction_byte-IsByte key.direction, nulls_byte-IsByte key.nulls, codec) in
      subst
        (λ values'.
          (decoded_values (key ∷ keys) (page_key_fields (key ∷ keys)) values' registry
            ≡ ok (c ∷ cs))
          × AreFields (page_key_fields (key ∷ keys)) values')
        (ok_inj h3)
        (rw (equal_field_self (page_key_field key), decoded, later) refl, (field, (are, all)))

  length-page_key_fields : (keys : List (PageKey R)) → length (page_key_fields keys) ≡ length keys
  unfolding page_key_fields
  length-page_key_fields [] = refl
  length-page_key_fields (key ∷ keys) = ap suc (length-page_key_fields keys)

  -- The cursor that a page ends with is decoded, by the same keys and codecs, to the values that
  -- the page's last row has for the keys and to the fingerprint of the page's query, if what the
  -- codecs encode they decode.
  pub decode_page_cursor-next_cursor :
      (fingerprint : Bytes) (keys : List (PageKey R)) (row : R) (cs : List DecodedCursor)
      {cursor : Bytes}
      → IsFingerprint fingerprint
      → KeyValues keys row cs
      → next_cursor fingerprint keys row (ok registry) ≡ ok cursor
      → decode_page_cursor cursor keys (ok registry) ≡ ok (cs, fingerprint)
  unfolding decode_page_cursor next_cursor
  decode_page_cursor-next_cursor fingerprint keys row cs {cursor} prints are h =
      let (values, looped, h1) = >>=-eq-ok (cursor_values keys row (ok registry)) _ h in
      let encoded =
        with_reason-eq-ok envelope_error (encode_envelope fingerprint (page_key_fields keys) values)
          h1 in
      let (decoded, fields) = decoded_values-cursor_values keys row cs are looped in
      let envelope =
        decode_envelope-encode_envelope fingerprint (page_key_fields keys) values prints fields
          encoded in
      let count =
        (==_iff (length (page_key_fields keys)) (length keys)).1 (length-page_key_fields keys) in
      rw (envelope, count, decoded) refl

-- The bytes of a text are bytes.
abbrev pub HasBytes : GoValue → Type 0
HasBytes (string_value s) = IsBytes s
HasBytes (bytes_value s) = IsBytes s
HasBytes _ = Unit

encode_value-IsBytes :
    (v : GoValue) {bytes : Bytes} → HasBytes v → encode_value v ≡ ok bytes → IsBytes bytes
unfolding encode_value
encode_value-IsBytes nil_value _ h = absurd cc
encode_value-IsBytes (time_value seconds nanos) _ h = subst IsBytes (ok_inj h) (
    All-append IsByte _ _ (big_endian-IsBytes 8 (to_uint64 seconds))
      (big_endian-IsBytes 4 (nanos % 2 ^ 32)))
encode_value-IsBytes (float_value float) _ h =
    let (_, _, h1) = >>=-eq-ok (guard (not (is_nan float)) nan_value) _ h in
    subst IsBytes (ok_inj h1) (big_endian-IsBytes 8 (biased float))
encode_value-IsBytes (bool_value true) _ h = subst IsBytes (ok_inj h) (omega arith, tt)
encode_value-IsBytes (bool_value false) _ h = subst IsBytes (ok_inj h) (omega arith, tt)
encode_value-IsBytes (int_value v) _ h =
    subst IsBytes (ok_inj h) (big_endian-IsBytes 8 (flip_top (to_uint64 v)))
encode_value-IsBytes (uint_value v) _ h = subst IsBytes (ok_inj h) (big_endian-IsBytes 8 v)
encode_value-IsBytes (string_value s) are h = subst IsBytes (ok_inj h) are
encode_value-IsBytes (bytes_value s) are h = subst IsBytes (ok_inj h) are
encode_value-IsBytes other_value _ h = absurd cc

-- A key without a codec reads back the values of its type, other than a NaN or the negative zero.
pub ReadsBack-builtin :
    {R : Type 0} (registry : CodecRegistry) (key : PageKey R) (v : GoValue)
    → key.codec ≡ []
    → HasType key.typ v
    → refused v ≡ false
    → HasBytes v
    → ReadsBack registry key (some v)
unfolding encode_page_value decode_page_value
ReadsBack-builtin registry key v plain typed fine are = λ bytes h.
    let (_, checked, h1) =
      >>=-eq-ok (guard (not (not key.nullable && is_nil v)) nil_value_refused) _ h in
    let builtin : equal key.codec [] ≡ true = (equal_iff key.codec []).1 plain in
    let encoded = with_reason-eq-ok value_error (encode_value v) (rw builtin at h1) in
    let back = rw fine at (decode_value-encode_value key.typ v typed) in
    let decoded : decode_value key.typ bytes ≡ ok v = rw encoded at back in
    (rw (builtin, decoded) refl, encode_value-IsBytes v are encoded)
