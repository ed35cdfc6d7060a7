-- ===== src/Pagekey/Prefix.antt =====
-- What the fields of internal/pagekey/fingerprint.go determine in front of other bytes.
use rasql.Prelude.{
  ◌≡◌, refl, sym, ap, ◌∙◌, ℕ, ◌%◌, ◌^◌, ◌<◌, Bool, true, false, Option, none, some, ◌++◌,
  append_assoc, length, Bytes, ℤ, arith,
}
use rasql.Cursorcodec.BigEndian.{big_endian, big_endian_inj, length-big_endian}
use rasql.Cursorcodec.Value.{w64, to_uint64}
use rasql.Cursorcodec.Value.RoundTrip.{InRange, to_uint64_bound}
use rasql.Graphkey.Framing.{append_split, to_uint64_inj}
use rasql.Pagekey.{write_field, flag, write_bool_field, write_int_field, write_optional}

-- What is written of one of these values, in front of other bytes, determines the value.
abbrev pub Reads : {A : Type 0} → (A → Type 0) → (A → Bytes) → Type 0
Reads {A} P write =
    (a b : A) (x y : Bytes) → P a → P b → (write a ++ x) ≡ (write b ++ y) → (a ≡ b) × (x ≡ y)

-- A text whose length a field can tell.
abbrev pub IsText : Bytes → Type 0
IsText s = length s < 2 ^ 32

pub write_field-Reads : Reads IsText write_field
unfolding write_field
write_field-Reads a b x y ha hb h =
    let n = length a % 2 ^ 32 in
    let m = length b % 2 ^ 32 in
    let behind : (big_endian 4 n ++ (a ++ x)) ≡ (big_endian 4 m ++ (b ++ y)) =
      sym (append_assoc (big_endian 4 n) a x) ∙ h ∙ append_assoc (big_endian 4 m) b y in
    let (sizes, texts) =
      append_split (big_endian 4 n) (big_endian 4 m) (a ++ x) (b ++ y)
        (length-big_endian 4 n ∙ sym (length-big_endian 4 m)) behind in
    let same = big_endian_inj 4 n m (omega arith) (omega arith) sizes in
    append_split a b x y (omega arith) texts

-- Two writers one after the other.
pub both-Reads :
    {A B : Type 0} (P : A → Type 0) (Q : B → Type 0) (v : A → Bytes) (w : B → Bytes)
    → Reads P v
    → Reads Q w
    → (a c : A) (b d : B) (x y : Bytes) → P a
    → P c
    → Q b
    → Q d
    → ((v a ++ w b) ++ x) ≡ ((v c ++ w d) ++ y)
    → (a ≡ c) × (b ≡ d) × (x ≡ y)
both-Reads P Q v w rv rw' a c b d x y pa pc qb qd h =
    let (same, behind) =
      rv a c (w b ++ x) (w d ++ y) pa pc
        (sym (append_assoc (v a) (w b) x) ∙ h ∙ append_assoc (v c) (w d) y) in
    let (same', rest) = rw' b d x y qb qd behind in (same, same', rest)

-- A writer behind one tag.
pub tagged-Reads :
    {B : Type 0} (Q : B → Type 0) (tag : Bytes) (w : B → Bytes)
    → IsText tag
    → Reads Q w
    → Reads Q (λ b. write_field tag ++ w b)
tagged-Reads Q tag w ht rw' b d x y qb qd h =
    let (_, same, rest) =
      both-Reads IsText Q write_field w write_field-Reads rw' tag tag b d x y ht ht qb qd h in
    (same, rest)

abbrev pub Any : {A : Type 0} → A → Type 0
Any a = Unit

flag-Reads : Reads {A = Bool} Any (λ b. write_field (flag b))
flag-Reads a b x y _ _ h =
    let (texts, rest) = write_field-Reads (flag a) (flag b) x y (short a) (short b) h in
    (flag_inj a b texts, rest)
  where
    short : (b : Bool) → IsText (flag b)
    short true = omega arith
    short false = omega arith

    flag_inj : (a b : Bool) → flag a ≡ flag b → a ≡ b
    flag_inj true true e = refl
    flag_inj false false e = refl
    flag_inj true false e = absurd (ground arith)
    flag_inj false true e = absurd (ground arith)

pub write_bool_field-Reads :
    (tag : Bytes) → IsText tag → Reads {A = Bool} Any (write_bool_field tag)
write_bool_field-Reads tag h = tagged-Reads Any tag (λ b. write_field (flag b)) h flag-Reads

pub word-Reads : Reads (λ n. n < 2 ^ 64) (λ n. big_endian 8 n)
word-Reads m n x y hm hn h =
    let (words, rest) =
      append_split (big_endian 8 m) (big_endian 8 n) x y
        (length-big_endian 8 m ∙ sym (length-big_endian 8 n)) h in
    (big_endian_inj 8 m n hm hn words, rest)

int-Reads : Reads (InRange w64) (λ v. write_field (big_endian 8 (to_uint64 v)))
int-Reads v w x y hv hw h =
    let size = λ (n : ℕ). length-big_endian 8 n in
    let (words, rest) =
      write_field-Reads (big_endian 8 (to_uint64 v)) (big_endian 8 (to_uint64 w)) x y
        (omega (arith, length-big_endian 8 (to_uint64 v)))
        (omega (arith, length-big_endian 8 (to_uint64 w))) h in
    (
      to_uint64_inj v w hv hw (
          big_endian_inj 8 (to_uint64 v) (to_uint64 w) (to_uint64_bound v) (to_uint64_bound w)
            words),
      rest,
    )

pub write_int_field-Reads : (tag : Bytes) → IsText tag → Reads (InRange w64) (write_int_field tag)
write_int_field-Reads tag h =
    tagged-Reads (InRange w64) tag (λ v. write_field (big_endian 8 (to_uint64 v))) h int-Reads

abbrev pub IsStated : Option ℤ → Type 0
IsStated none = Unit
IsStated (some v) = InRange w64 v

pub write_optional-Reads :
    (stated tag : Bytes) → IsText stated → IsText tag → Reads IsStated (write_optional stated tag)
unfolding write_optional
write_optional-Reads stated tag hs ht none none x y _ _ h =
    let (_, rest) = write_bool_field-Reads stated hs false false x y tt tt h in (refl, rest)
write_optional-Reads stated tag hs ht (some v) (some w) x y hv hw h =
    let (_, same, rest) =
      both-Reads Any (InRange w64) (write_bool_field stated) (write_int_field tag)
        (write_bool_field-Reads stated hs) (write_int_field-Reads tag ht) true true v w x y tt tt hv
        hw h in
    (ap some same, rest)
write_optional-Reads stated tag hs ht none (some w) x y _ _ h =
    let (never, _) =
      write_bool_field-Reads stated hs false true x (write_int_field tag w ++ y) tt tt
        (h ∙ append_assoc (write_bool_field stated true) (write_int_field tag w) y) in
    absurd cc
write_optional-Reads stated tag hs ht (some v) none x y _ _ h =
    let (never, _) =
      write_bool_field-Reads stated hs true false (write_int_field tag v ++ x) y tt tt
        (sym (append_assoc (write_bool_field stated true) (write_int_field tag v) x) ∙ h) in
    absurd cc

-- The same, for writers of pairs.
pub pair-Reads :
    {A B : Type 0} (P : A → Type 0) (Q : B → Type 0) (v : A → Bytes) (w : B → Bytes)
    → Reads P v
    → Reads Q w
    → Reads {A = A × B} (λ p. P p.0 × Q p.1) (λ p. v p.0 ++ w p.1)
pair-Reads P Q v w rv rw' (a, b) (c, d) x y (pa, qb) (pc, qd) h =
    let (same, same', rest) = both-Reads P Q v w rv rw' a c b d x y pa pc qb qd h in
    (λ i. (same i, same' i), rest)
