-- ===== src/Cursorcodec/Envelope/Decoded.antt =====
-- Whole envelopes of internal/cursorcodec/envelope.go: decoded, and encoded again.
use rasql.Prelude.{
  ◌≡◌, refl, ℕ, zero, suc, ◌%◌, ◌≤◌, true, not, ◌||◌, some, List, [], ◌∷◌, ◌++◌, ltb, leb, leb→le,
  le→leb, ◌==◌, length, length-drop, length-take_le, take, drop, Bytes, ok, or_else, or_else-eq-ok,
  guard, guard-eq-ok, >>=-eq-ok, ok_inj, some_inj, ==_iff, arith, append-nil, sym, ap, subst, ◌∙◌,
  All-append_right, get_elem?,
}
use rasql.Cursorcodec.BigEndian.{IsByte, IsBytes}
use rasql.Cursorcodec.Base64.{encode_to_string, decode_string}
use rasql.Cursorcodec.Base64.RoundTrip.{decode_string-IsBytes}
use rasql.Cursorcodec.Envelope.{
  Field, Value, Envelope, panic, version, header_bytes, max_envelope_bytes, byte_at, slice,
  encode_fields, encode_bytes, encode_envelope, decode_fields, decode_bytes, decode_envelope,
  invalid_base64, invalid_version, trailing_data,
}
use rasql.Cursorcodec.Envelope.RoundTrip.{AreFields, slice_le}
use rasql.Cursorcodec.Envelope.Canonical.{IsBytes-take, IsBytes-drop, decode_fields-eq-ok}
use rasql.Cursorcodec.Envelope.Whole.{IsFingerprint}

split_at :
    (n : ℕ) (bs : Bytes) {b : ℕ}
    → get_elem? bs n ≡ some b
    → bs ≡ (take n bs ++ (b ∷ drop (suc n) bs))
split_at n [] h = absurd cc
split_at zero (c ∷ bs) h = ap (λ x. x ∷ bs) (some_inj h)
split_at (suc n) (c ∷ bs) h = ap (◌∷◌ c) (split_at n bs h)

encode_bytes_written :
    (fingerprint : Bytes) (fields : List Field) (values : List Value) (raw body : Bytes)
    → length fields ≤ 255
    → length values ≡ length fields
    → encode_fields fields values ≡ ok body
    → raw ≡ (version ∷ (fingerprint ++ (length fields ∷ body)))
    → length raw ≤ max_envelope_bytes
    → encode_bytes fingerprint fields values ≡ ok raw
unfolding encode_bytes
encode_bytes_written fingerprint fields values raw body few same written whole small =
    let counts : (not (ltb 255 (length fields) || not (length values == length fields))) ≡ true =
      ground arith in
    let narrow : (length fields % 256) ≡ length fields = omega arith in
    let fits = subst (λ bs. length bs ≤ max_envelope_bytes) whole small in
    rw
      (
        counts,
        written,
        narrow,
        le→leb (length (version ∷ (fingerprint ++ (length fields ∷ body)))) max_envelope_bytes fits,
      )
      (ap ok (sym whole))

empty : (bs : Bytes) → length bs ≡ 0 → bs ≡ []
empty [] h = refl
empty (b ∷ bs) h = absurd (omega arith)

header_parts :
    (first : ℕ) (bs : Bytes) {count : ℕ} (n : ℕ) {body : Bytes}
    → first ≡ version
    → n ≡ count
    → drop 33 bs ≡ body
    → bs ≡ (take 32 bs ++ (count ∷ drop 33 bs))
    → (first ∷ bs) ≡ (version ∷ (take 32 bs ++ (n ∷ body)))
header_parts first bs n versioned same behind parts =
    rw (versioned, same, sym behind) (ap (λ cs. version ∷ cs) parts)

-- What a decoded envelope says of the raw bytes.
abbrev Reads : Bytes → Envelope → Type 0
Reads raw envelope =
    encode_bytes envelope.fingerprint envelope.fields envelope.values ≡ ok raw
    × IsFingerprint envelope.fingerprint
    × AreFields envelope.fields envelope.values

decode_bytes-eq-ok :
    (raw : Bytes) {envelope : Envelope}
    → IsBytes raw
    → decode_bytes raw ≡ ok envelope
    → Reads raw envelope
unfolding decode_bytes encode_bytes
decode_bytes-eq-ok [] hb h = absurd cc
decode_bytes-eq-ok (first ∷ bs) (hf, hb) h =
    let raw = first ∷ bs in
    let (_, g1, k1) = >>=-eq-ok (guard (leb (length raw) max_envelope_bytes) invalid_base64) _ h in
    let (_, g2, k2) =
      >>=-eq-ok (guard (not (ltb (length raw) header_bytes)) invalid_version) _ k1 in
    let (_, g3, k3) = >>=-eq-ok (guard (first == version) invalid_version) _ k2 in
    let long = guard-eq-ok (not (ltb (length raw) header_bytes)) invalid_version g2 in
    let enough : 34 ≤ length raw = ground arith in
    let (fingerprint, sliced, k3b) = >>=-eq-ok (slice 32 bs) _ k3 in
    let cut : take 32 bs ≡ fingerprint = ok_inj (sym (slice_le 32 bs (omega arith)) ∙ sliced) in
    let (count, counted, k4) = >>=-eq-ok (byte_at 33 raw) _ k3b in
    let (((fields, values), rest), read, k5) = >>=-eq-ok (decode_fields count (drop 33 bs)) _ k4 in
    let (_, g4, k6) = >>=-eq-ok (guard (length rest == 0) trailing_data) _ k5 in
    let fits = leb→le (length raw) max_envelope_bytes (guard-eq-ok _ invalid_base64 g1) in
    let versioned : first ≡ version = (==_iff first version).0 (guard-eq-ok _ invalid_version g3) in
    let ended = (==_iff (length rest) 0).0 (guard-eq-ok _ trailing_data g4) in
    let parts = split_at 32 bs (or_else-eq-ok panic (get_elem? raw 33) counted) in
    let behind = length-drop 33 bs in
    let (body, written, bytes, few, same, are) =
      decode_fields-eq-ok count (drop 33 bs) (IsBytes-drop 33 bs hb) (omega arith) read in
    let (counted_byte, _) =
      All-append_right IsByte (take 32 bs) (count ∷ drop 33 bs) (subst IsBytes parts hb) in
    let body_only : drop 33 bs ≡ body =
      bytes ∙ ap (λ cs. body ++ cs) (empty rest ended) ∙ append-nil body in
    let whole : raw ≡ (version ∷ (take 32 bs ++ (length fields ∷ body))) =
      header_parts first bs (length fields) versioned few body_only parts in
    let is : Reads raw (record { fingerprint = take 32 bs; fields = fields; values = values }) = (
      encode_bytes_written (take 32 bs) fields values raw body (omega arith) (omega arith) written
          whole fits,
      (length-take_le 32 bs (omega arith), IsBytes-take 32 bs hb),
      are,
    ) in
    let read_back : Reads raw
        (record { fingerprint = fingerprint; fields = fields; values = values }) =
      subst (λ f. Reads raw (record { fingerprint = f; fields = fields; values = values })) cut
        is in
    subst (Reads raw) (ok_inj k6) read_back

-- A text that DecodeEnvelope accepts holds a fingerprint, fields and values of Go's types, which
-- EncodeEnvelope accepts, and from which it makes the base64 text of the bytes that were decoded.
pub encode_envelope-decode_envelope :
    (encoded : Bytes) {envelope : Envelope}
    → decode_envelope encoded ≡ ok envelope
    → (raw : Bytes) × decode_string encoded ≡ some raw
      × encode_envelope envelope.fingerprint envelope.fields envelope.values
        ≡ ok (encode_to_string raw)
      × IsFingerprint envelope.fingerprint
      × AreFields envelope.fields envelope.values
unfolding encode_envelope decode_envelope
encode_envelope-decode_envelope encoded {envelope} h =
    let (raw, decoded, h1) =
      >>=-eq-ok (or_else invalid_base64 (decode_string encoded)) decode_bytes h in
    let text = or_else-eq-ok invalid_base64 (decode_string encoded) decoded in
    let (written, prints, are) = decode_bytes-eq-ok raw (decode_string-IsBytes encoded text) h1 in
    (raw, text, rw written refl, prints, are)
