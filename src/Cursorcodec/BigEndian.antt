-- ===== src/Cursorcodec/BigEndian.antt =====
-- encoding/binary's big-endian integers, as internal/cursorcodec and internal/graphkey write them.
use rasql.Prelude.{
  equal, equal_self, Bool-cases, inl, inr, ==_iff, append-nil, equal_iff, subst, ◌∙◌, ◌≡◌, refl,
  sym, ap, ℕ, zero, suc, ◌+◌, ◌*◌, ◌/◌, ◌%◌, ◌^◌, ◌<◌, [], ◌∷◌, ◌++◌, length, length-append, All,
  All-append, arith, Bytes, text_lt, ltb, ◌==◌, if◌then◌else◌, append_assoc,
}

abbrev pub IsByte : ℕ → Type 0
IsByte b = b < 256

abbrev pub IsBytes : Bytes → Type 0
IsBytes bs = All IsByte bs

-- The last `width` bytes of `n`, the highest first.
unfoldable pub big_endian : ℕ → ℕ → Bytes
big_endian zero n = []
big_endian (suc width) n = big_endian width (n / 256) ++ n % 256 ∷ []

-- The number that bytes spell, behind what the bytes in front spelled.
unfoldable pub spelled : ℕ → Bytes → ℕ
spelled high [] = high
spelled high (b ∷ bs) = spelled (high * 256 + b) bs

abbrev pub from_big_endian : Bytes → ℕ
from_big_endian bs = spelled 0 bs

pub length-big_endian : (width n : ℕ) → length (big_endian width n) ≡ width
unfolding big_endian
length-big_endian zero n = refl
length-big_endian (suc width) n = omega (
  arith,
  length-append (big_endian width (n / 256)) (n % 256 ∷ []),
  length-big_endian width (n / 256),
)

pub big_endian-IsBytes : (width n : ℕ) → IsBytes (big_endian width n)
unfolding big_endian
big_endian-IsBytes zero n = tt
big_endian-IsBytes (suc width) n =
    All-append IsByte _ _ (big_endian-IsBytes width (n / 256)) (omega arith, tt)

spelled-append : (high : ℕ) (bs cs : Bytes) → spelled high (bs ++ cs) ≡ spelled (spelled high bs) cs
unfolding spelled
spelled-append high [] cs = refl
spelled-append high (b ∷ bs) cs = spelled-append (high * 256 + b) bs cs

pub from_big_endian-big_endian :
    (width n : ℕ) → n < 256 ^ width → from_big_endian (big_endian width n) ≡ n
unfolding big_endian spelled
from_big_endian-big_endian zero n h = omega arith
from_big_endian-big_endian (suc width) n h =
    rw
      (
        spelled-append 0 (big_endian width (n / 256)) (n % 256 ∷ []),
        from_big_endian-big_endian width (n / 256) (omega arith),
      )
      omega arith

spelled_bound :
    (high width total : ℕ) (bs : Bytes)
    → total ≡ width + length bs
    → IsBytes bs
    → high < 256 ^ width
    → spelled high bs < 256 ^ total
unfolding spelled
spelled_bound high width total [] e _ h =
    let same : width ≡ total = omega arith in subst (λ w. high < 256 ^ w) same h
spelled_bound high width total (b ∷ bs) e (hb, hbs) h =
    spelled_bound (high * 256 + b) (suc width) total bs (omega arith) hbs (omega arith)

pub from_big_endian_bound : (bs : Bytes) → IsBytes bs → from_big_endian bs < 256 ^ length bs
from_big_endian_bound bs h = spelled_bound 0 0 (length bs) bs (omega arith) h (omega arith)

-- Writing the bytes behind `width` bytes more continues what is written for the number in front.
big_endian-spelled :
    (high width total : ℕ) (bs : Bytes)
    → total ≡ width + length bs
    → IsBytes bs
    → big_endian total (spelled high bs) ≡ big_endian width high ++ bs
unfolding big_endian spelled
big_endian-spelled high width total [] e _ =
    let same : total ≡ width = omega arith in
    ap (λ w. big_endian w high) same ∙ sym (append-nil (big_endian width high))
big_endian-spelled high width total (b ∷ bs) e (hb, hbs) =
    let high_part : ((high * 256 + b) / 256) ≡ high = omega arith in
    let low_part : ((high * 256 + b) % 256) ≡ b = omega arith in
    let step = big_endian-spelled (high * 256 + b) (suc width) total bs (omega arith) hbs in
    rw (step, high_part, low_part) (append_assoc (big_endian width high) (b ∷ []) bs)

pub big_endian-from_big_endian :
    (bs : Bytes) → IsBytes bs → big_endian (length bs) (from_big_endian bs) ≡ bs
unfolding big_endian
big_endian-from_big_endian bs h = big_endian-spelled 0 0 (length bs) bs (omega arith) h

-- The bytes determine the number.
pub big_endian_inj :
    (width m n : ℕ)
    → m < 256 ^ width
    → n < 256 ^ width
    → big_endian width m ≡ big_endian width n
    → m ≡ n
big_endian_inj width m n hm hn e =
    sym (from_big_endian-big_endian width m hm)
    ∙ ap from_big_endian e
    ∙ from_big_endian-big_endian width n hn

equal-big_endian :
    (width m n : ℕ)
    → m < 256 ^ width
    → n < 256 ^ width
    → equal (big_endian width m) (big_endian width n) ≡ (m == n)
equal-big_endian width m n hm hn = elim (Bool-cases (m == n)) [
  | inl e ↦
      let same : m ≡ n = (==_iff m n).0 e in
      rw same (equal_self (big_endian width n) ∙ sym ((==_iff n n).1 refl))
  | inr e ↦ elim (Bool-cases (equal (big_endian width m) (big_endian width n))) [
    | inl f ↦ let same = big_endian_inj width m n hm hn ((equal_iff _ _).0 f) in ground arith
    | inr f ↦ rw (e, f) refl
  ]
]

text_lt_snoc :
    (xs ys : Bytes) (a b : ℕ)
    → length xs ≡ length ys
    → text_lt (xs ++ a ∷ []) (ys ++ b ∷ []) ≡ (if equal xs ys then ltb a b else text_lt xs ys)
unfolding text_lt equal
text_lt_snoc [] [] a b h = ground arith
text_lt_snoc (x ∷ xs) (y ∷ ys) a b h = ground (arith, text_lt_snoc xs ys a b)
text_lt_snoc _ _ a b h = absurd (omega arith)

-- Byte order is the order of the numbers.
pub text_lt-big_endian :
    (width m n : ℕ)
    → m < 256 ^ width
    → n < 256 ^ width
    → text_lt (big_endian width m) (big_endian width n) ≡ ltb m n
unfolding big_endian text_lt
text_lt-big_endian zero m n hm hn = ground arith
text_lt-big_endian (suc width) m n hm hn =
    let highs = text_lt-big_endian width (m / 256) (n / 256) (omega arith) (omega arith) in
    let lengths : length (big_endian width (m / 256)) ≡ length (big_endian width (n / 256)) =
      length-big_endian width (m / 256) ∙ sym (length-big_endian width (n / 256)) in
    let firsts = equal-big_endian width (m / 256) (n / 256) (omega arith) (omega arith) in
    rw (text_lt_snoc _ _ (m % 256) (n % 256) lengths, highs, firsts) (ground arith)
