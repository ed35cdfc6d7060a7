-- ===== src/Cursorcodec/Base64/RoundTrip.antt =====
-- The base64 text of cursors read back.
use rasql.Prelude.{
  ◌≡◌, refl, ℕ, ◌+◌, ◌*◌, ◌/◌, ◌%◌, ◌<◌, false, some, List, [], ◌∷◌, arith, Bytes, All, subst,
  and_then-eq-some, some_inj,
}
use rasql.Cursorcodec.BigEndian.{IsBytes}
use rasql.Cursorcodec.Base64.{
  char_of, digit_of, encode_to_string, is_line_end, without_line_ends, digits_of, bytes_of,
  decode_string,
}

digit_of-char_of : (d : ℕ) → d < 64 → digit_of (char_of d) ≡ some d
unfolding digit_of char_of
digit_of-char_of d h = ground arith

is_line_end-char_of : (d : ℕ) → is_line_end (char_of d) ≡ false
unfolding is_line_end char_of
is_line_end-char_of d = ground arith

-- The digits that the bytes are written in.
unfoldable digits : Bytes → List ℕ
digits [] = []
digits (a ∷ []) = a / 4 ∷ (a % 4 * 16) ∷ []
digits (a ∷ b ∷ []) = a / 4 ∷ (a % 4 * 16 + b / 16) ∷ (b % 16 * 4) ∷ []
digits (a ∷ b ∷ c ∷ bs) =
    a / 4 ∷ (a % 4 * 16 + b / 16) ∷ (b % 16 * 4 + c / 64) ∷ (c % 64) ∷ digits bs

abbrev chars : List ℕ → Bytes
chars [] = []
chars (d ∷ ds) = char_of d ∷ chars ds

abbrev IsDigit : ℕ → Type 0
IsDigit d = d < 64

encode_to_string-chars : (bs : Bytes) → encode_to_string bs ≡ chars (digits bs)
unfolding encode_to_string digits
encode_to_string-chars [] = refl
encode_to_string-chars (a ∷ []) = refl
encode_to_string-chars (a ∷ b ∷ []) = refl
encode_to_string-chars (a ∷ b ∷ c ∷ bs) = rw (encode_to_string-chars bs) refl

digits-IsDigit : (bs : Bytes) → IsBytes bs → All IsDigit (digits bs)
unfolding digits
digits-IsDigit [] _ = tt
digits-IsDigit (a ∷ []) (ha, _) = (omega arith, (omega arith, tt))
digits-IsDigit (a ∷ b ∷ []) (ha, (hb, _)) = (omega arith, (omega arith, (omega arith, tt)))
digits-IsDigit (a ∷ b ∷ c ∷ bs) (ha, (hb, (hc, h))) =
    (omega arith, (omega arith, (omega arith, (omega arith, digits-IsDigit bs h))))

without_line_ends-chars : (ds : List ℕ) → without_line_ends (chars ds) ≡ chars ds
unfolding without_line_ends
without_line_ends-chars [] = refl
without_line_ends-chars (d ∷ ds) = rw (is_line_end-char_of d, without_line_ends-chars ds) refl

digits_of-chars : (ds : List ℕ) → All IsDigit ds → digits_of (chars ds) ≡ some ds
unfolding digits_of
digits_of-chars [] _ = refl
digits_of-chars (d ∷ ds) (h, hs) = rw (digit_of-char_of d h, digits_of-chars ds hs) refl

bytes_of-digits : (bs : Bytes) → IsBytes bs → bytes_of (digits bs) ≡ some bs
unfolding bytes_of digits
bytes_of-digits [] _ = refl
bytes_of-digits (a ∷ []) (ha, _) =
    let first : (a / 4 * 4 + a % 4 * 16 / 16) ≡ a = omega arith in rw first refl
bytes_of-digits (a ∷ b ∷ []) (ha, (hb, _)) =
    let first : (a / 4 * 4 + (a % 4 * 16 + b / 16) / 16) ≡ a = omega arith in
    let second : ((a % 4 * 16 + b / 16) % 16 * 16 + b % 16 * 4 / 4) ≡ b = omega arith in
    rw (first, second) refl
bytes_of-digits (a ∷ b ∷ c ∷ bs) (ha, (hb, (hc, h))) =
    let first : (a / 4 * 4 + (a % 4 * 16 + b / 16) / 16) ≡ a = omega arith in
    let second : ((a % 4 * 16 + b / 16) % 16 * 16 + (b % 16 * 4 + c / 64) / 4) ≡ b = omega arith in
    let third : ((b % 16 * 4 + c / 64) % 4 * 64 + c % 64) ≡ c = omega arith in
    rw (bytes_of-digits bs h, first, second, third) refl

pub decode_string-encode_to_string :
    (bs : Bytes) → IsBytes bs → decode_string (encode_to_string bs) ≡ some bs
unfolding decode_string
decode_string-encode_to_string bs h =
    rw
      (
        encode_to_string-chars bs,
        without_line_ends-chars (digits bs),
        digits_of-chars (digits bs) (digits-IsDigit bs h),
        bytes_of-digits bs h,
      )
      refl

digit_of-IsDigit : (c : ℕ) {d : ℕ} → digit_of c ≡ some d → d < 64
unfolding digit_of
digit_of-IsDigit c h = ground arith

digits_of-IsDigit : (text : Bytes) {ds : List ℕ} → digits_of text ≡ some ds → All IsDigit ds
unfolding digits_of
digits_of-IsDigit [] h = subst (All IsDigit) (some_inj h) tt
digits_of-IsDigit (c ∷ cs) h =
    let (d, h1, k1) = and_then-eq-some (digit_of c) _ h in
    let (ds, h2, k2) = and_then-eq-some (digits_of cs) _ k1 in
    subst (All IsDigit) (some_inj k2) (digit_of-IsDigit c h1, digits_of-IsDigit cs h2)

bytes_of-IsBytes : (ds : List ℕ) {bs : Bytes} → All IsDigit ds → bytes_of ds ≡ some bs → IsBytes bs
unfolding bytes_of
bytes_of-IsBytes [] _ h = subst IsBytes (some_inj h) tt
bytes_of-IsBytes (p ∷ []) _ h = absurd cc
bytes_of-IsBytes (p ∷ q ∷ []) (hp, (hq, _)) h = subst IsBytes (some_inj h) (omega arith, tt)
bytes_of-IsBytes (p ∷ q ∷ r ∷ []) (hp, (hq, (hr, _))) h =
    subst IsBytes (some_inj h) (omega arith, (omega arith, tt))
bytes_of-IsBytes (p ∷ q ∷ r ∷ s ∷ ds) (hp, (hq, (hr, (hs, hds)))) h =
    let (bs, h1, k1) = and_then-eq-some (bytes_of ds) _ h in
    subst IsBytes (some_inj k1)
      (omega arith, (omega arith, (omega arith, bytes_of-IsBytes ds hds h1)))

pub decode_string-IsBytes : (text : Bytes) {bs : Bytes} → decode_string text ≡ some bs → IsBytes bs
unfolding decode_string
decode_string-IsBytes text h =
    let (ds, h1, k1) = and_then-eq-some (digits_of (without_line_ends text)) bytes_of h in
    bytes_of-IsBytes ds (digits_of-IsDigit (without_line_ends text) h1) k1
