-- ===== src/Pagekey/Values.antt =====
-- What the bytes of a bound argument in internal/pagekey/fingerprint.go determine.
use rasql.Prelude.{
  ◌≡◌, refl, sym, ap, ◌∙◌, ℕ, ◌<◌, ◌^◌, true, false, [], ◌∷◌, ◌++◌, append_assoc, Bytes, ok, arith,
}
use rasql.Cursorcodec.BigEndian.{big_endian}
use rasql.Cursorcodec.Value.{to_uint64}
use rasql.Cursorcodec.Value.RoundTrip.{to_uint64_bound}
use rasql.Graphkey.{TimeFormat}
use rasql.Graphkey.Framing.{to_uint64_inj}
use rasql.Pagekey.{
  BindValue, named_value, nil_value, int64_value, float64_value, bool_value, string_value,
  bytes_value, time_value, kind_value, other_value, write_field, write_value,
}
use rasql.Pagekey.Prefix.{IsText, write_field-Reads, word-Reads}
use rasql.Pagekey.Words.{
  word_number, IsBindValue, TellsTimes, word_of, number_of, word_number-word_of, word_of-IsText,
  IsWritten, write_value-eq-ok,
}

-- The word in front is read.
word_read :
    (format : TimeFormat) (v w : BindValue) (x y a b body body' : Bytes)
    → IsBindValue format v
    → IsBindValue format w
    → a ≡ (write_field (word_of v) ++ body)
    → b ≡ (write_field (word_of w) ++ body')
    → (a ++ x) ≡ (b ++ y)
    → (word_of v ≡ word_of w) × ((body ++ x) ≡ (body' ++ y))
word_read format v w x y a b body body' hv hw ea eb h =
    write_field-Reads (word_of v) (word_of w) (body ++ x) (body' ++ y) (word_of-IsText format v hv)
      (word_of-IsText format w hw)
      (sym (append_assoc (write_field (word_of v)) body x)
        ∙ sym (ap (λ bs. bs ++ x) ea)
        ∙ h
        ∙ ap (λ bs. bs ++ y) eb
        ∙ append_assoc (write_field (word_of w)) body' y)

-- Two bodies behind one word, each equal to what is written of its value.
text_body :
    (v w x y body body' : Bytes)
    → IsText v
    → IsText w
    → body ≡ write_field v
    → body' ≡ write_field w
    → (body ++ x) ≡ (body' ++ y)
    → (v ≡ w) × (x ≡ y)
text_body v w x y body body' hv hw e e' h =
    write_field-Reads v w x y hv hw (sym (ap (λ bs. bs ++ x) e) ∙ h ∙ ap (λ bs. bs ++ y) e')

word_body :
    (m n : ℕ) (x y body body' : Bytes)
    → m < 2 ^ 64
    → n < 2 ^ 64
    → body ≡ big_endian 8 m
    → body' ≡ big_endian 8 n
    → (body ++ x) ≡ (body' ++ y)
    → (m ≡ n) × (x ≡ y)
word_body m n x y body body' hm hn e e' h =
    word-Reads m n x y hm hn (sym (ap (λ bs. bs ++ x) e) ∙ h ∙ ap (λ bs. bs ++ y) e')

byte_body :
    (m n : ℕ) (x y body body' : Bytes)
    → body ≡ (m ∷ [])
    → body' ≡ (n ∷ [])
    → (body ++ x) ≡ (body' ++ y)
    → (m ≡ n) × (x ≡ y)
byte_body m n x y body body' e e' h =
    let bytes : (m ∷ x) ≡ (n ∷ y) = sym (ap (λ bs. bs ++ x) e) ∙ h ∙ ap (λ bs. bs ++ y) e' in
    (cc, cc)

body_read :
    (format : TimeFormat) (v w : BindValue) (x y body body' : Bytes)
    → TellsTimes format
    → IsBindValue format v
    → IsBindValue format w
    → word_of v ≡ word_of w
    → number_of v ≡ number_of w
    → IsWritten format v body
    → IsWritten format w body'
    → (body ++ x) ≡ (body' ++ y)
    → (v ≡ w) × (x ≡ y)
body_read format (named_value m v) (named_value n w) x y body body' times (hm, hv) (hn, hw) _ _
      (rest, written, e) (rest', written', e') h =
    let (names, behind) = write_field-Reads m n (rest ++ x) (rest' ++ y) hm hn (
      sym (append_assoc (write_field m) rest x)
      ∙ sym (ap (λ bs. bs ++ x) e)
      ∙ h
      ∙ ap (λ bs. bs ++ y) e'
      ∙ append_assoc (write_field n) rest' y) in
    let (inner, parts, is) = write_value-eq-ok format v written in
    let (inner', parts', is') = write_value-eq-ok format w written' in
    let (words, bodies) =
      word_read format v w x y rest rest' inner inner' hv hw parts parts' behind in
    let numbers : number_of v ≡ number_of w =
      sym (word_number-word_of format v hv)
      ∙ ap word_number words
      ∙ word_number-word_of format w hw in
    let (same, end) =
      body_read format v w x y inner inner' times hv hw words numbers is is' bodies in
    (λ i. named_value (names i) (same i), end)
body_read format nil_value nil_value x y body body' _ _ _ _ _ e e' h =
    (refl, sym (ap (λ bs. bs ++ x) e) ∙ h ∙ ap (λ bs. bs ++ y) e')
body_read format (int64_value v) (int64_value w) x y body body' _ hv hw _ _ e e' h =
    let (words, rest) =
      word_body (to_uint64 v) (to_uint64 w) x y body body' (to_uint64_bound v) (to_uint64_bound w) e
        e' h in
    (ap int64_value (to_uint64_inj v w hv hw words), rest)
body_read format (float64_value v) (float64_value w) x y body body' _ hv hw _ _ e e' h =
    let (words, rest) = word_body v w x y body body' hv hw e e' h in (ap float64_value words, rest)
body_read format (bool_value true) (bool_value true) x y body body' _ _ _ _ _ e e' h =
    let (_, rest) = byte_body 1 1 x y body body' e e' h in (refl, rest)
body_read format (bool_value false) (bool_value false) x y body body' _ _ _ _ _ e e' h =
    let (_, rest) = byte_body 0 0 x y body body' e e' h in (refl, rest)
body_read format (bool_value true) (bool_value false) x y body body' _ _ _ _ _ e e' h =
    let (never, _) = byte_body 1 0 x y body body' e e' h in absurd (omega arith)
body_read format (bool_value false) (bool_value true) x y body body' _ _ _ _ _ e e' h =
    let (never, _) = byte_body 0 1 x y body body' e e' h in absurd (omega arith)
body_read format (string_value v) (string_value w) x y body body' _ hv hw _ _ e e' h =
    let (texts, rest) = text_body v w x y body body' hv hw e e' h in (ap string_value texts, rest)
body_read format (bytes_value v) (bytes_value w) x y body body' _ hv hw _ _ e e' h =
    let (texts, rest) = text_body v w x y body body' hv hw e e' h in (ap bytes_value texts, rest)
body_read format (time_value s m) (time_value t n) x y body body' times hv hw _ _ e e' h =
    let (texts, rest) = text_body (format s m) (format t n) x y body body' hv hw e e' h in
    (times s t m n texts, rest)
body_read format (kind_value m v) (kind_value n w) x y body body' _ (_, _, hv) (_, _, hw) names _ e
      e' h =
    let (words, rest) = word_body v w x y body body' hv hw e e' h in
    (λ i. kind_value (names i) (words i), rest)
body_read format other_value _ x y body body' _ hv _ _ _ _ _ h = absurd hv
body_read format _ other_value x y body body' _ _ hw _ _ _ _ h = absurd hw
body_read format _ _ x y body body' _ _ _ _ numbers _ _ h = absurd (omega arith)

-- The bytes of an argument in front of other bytes determine the argument.
pub write_value-prefix :
    (format : TimeFormat) (v w : BindValue) (x y : Bytes) {a b : Bytes}
    → TellsTimes format
    → IsBindValue format v
    → IsBindValue format w
    → write_value format v ≡ ok a
    → write_value format w ≡ ok b
    → (a ++ x) ≡ (b ++ y)
    → (v ≡ w) × (x ≡ y)
write_value-prefix format v w x y {a} {b} times hv hw ev ew h =
    let (body, parts, is) = write_value-eq-ok format v ev in
    let (body', parts', is') = write_value-eq-ok format w ew in
    let (words, bodies) = word_read format v w x y a b body body' hv hw parts parts' h in
    let numbers : number_of v ≡ number_of w =
      sym (word_number-word_of format v hv)
      ∙ ap word_number words
      ∙ word_number-word_of format w hw in
    body_read format v w x y body body' times hv hw words numbers is is' bodies
