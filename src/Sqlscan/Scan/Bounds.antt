-- ===== src/Sqlscan/Scan/Bounds.antt =====
-- internal/sqlscan/sqlscan.go: the helpers of `Scan` pass no more bytes than there are.
use rasql.Prelude.{
  ℕ, zero, suc, ◌+◌, ◌-◌, ◌≤◌, ◌≡◌, refl, Bool, true, ◌&&◌, Option, none, some, [], ◌∷◌, ◌==◌, take,
  length, Bytes, arith, Bool-cases, Option-cases, inl, inr,
}
use rasql.Sqlscan.Lexemes.{
  scan_quoted, scan_line_comment, scan_block_comment, tag_end, dollar_quote_start, is_word_byte,
  is_letter, digits,
}
use rasql.Prelude.{more, has_prefix, index_of}

-- A count of bytes, where there is one, is at most a bound.
abbrev pub Within : Option ℕ → ℕ → Type 0
Within none bound = Unit
Within (some n) bound = n ≤ bound

pub more-Within :
    (k : ℕ) (o : Option ℕ) (bound : ℕ) → Within o bound → Within (more k o) (k + bound)
unfolding more
more-Within k none bound h = tt
more-Within k (some n) bound h = omega arith

more_two : (o : Option ℕ) (bound : ℕ) → Within o bound → Within (more 2 o) (suc (suc bound))
unfolding more
more_two none bound h = tt
more_two (some n) bound h = omega arith

more_one : (o : Option ℕ) (bound : ℕ) → Within o bound → Within (more 1 o) (suc bound)
unfolding more
more_one none bound h = tt
more_one (some n) bound h = omega arith

pub scan_quoted-Within :
    (quote : ℕ) (escapes : Bool) (s : Bytes) → Within (scan_quoted quote escapes s) (length s)
unfolding scan_quoted
scan_quoted-Within quote escapes [] = tt
scan_quoted-Within quote escapes (c ∷ []) = elim (Bool-cases (c == quote)) [
  | inl same ↦ rw same (omega arith)
  | inr other ↦ rw other tt
]
scan_quoted-Within quote escapes (c ∷ d ∷ cs) =
    let two = more_two _ _ (scan_quoted-Within quote escapes cs) in
    let one = more_one _ _ (scan_quoted-Within quote escapes (d ∷ cs)) in
    elim (Bool-cases (escapes && c == b'\\')) [
      | inl e ↦ rw (e, scan_quoted) two
      | inr e ↦ elim (Bool-cases (c == quote)) [
        | inr f ↦ rw (e, f, scan_quoted) one
        | inl f ↦ elim (Bool-cases (d == quote)) [
          | inl g ↦ rw (e, f, g, scan_quoted) two
          | inr g ↦ rw (e, f, g, scan_quoted) (omega arith)
        ]
      ]
    ]

pub scan_line_comment_bound : (s : Bytes) → scan_line_comment s ≤ length s
unfolding scan_line_comment
scan_line_comment_bound [] = omega arith
scan_line_comment_bound (c ∷ cs) = ground (arith, scan_line_comment_bound cs)

pub scan_block_comment-Within :
    (depth : ℕ) (s : Bytes) → Within (scan_block_comment depth s) (length s)
unfolding scan_block_comment
scan_block_comment-Within depth [] = tt
scan_block_comment-Within depth (c ∷ []) = tt
scan_block_comment-Within depth (c ∷ d ∷ cs) =
    let deeper = more_two _ _ (scan_block_comment-Within (depth + 1) cs) in
    let shallower = more_two _ _ (scan_block_comment-Within (depth - 1) cs) in
    let one = more_one _ _ (scan_block_comment-Within depth (d ∷ cs)) in
    elim (Bool-cases (c == b'/' && d == b'*')) [
      | inl e ↦ rw (e, scan_block_comment) deeper
      | inr e ↦ elim (Bool-cases (c == b'*' && d == b'/')) [
        | inr f ↦ rw (e, f, scan_block_comment) one
        | inl f ↦ elim (Bool-cases (depth - 1 == 0)) [
          | inl g ↦ rw (e, f, g, scan_block_comment) (omega arith)
          | inr g ↦ rw (e, f, g, scan_block_comment) shallower
        ]
      ]
    ]

tag_end-Within : (s : Bytes) → Within (tag_end s) (length s)
unfolding tag_end
tag_end-Within [] = tt
tag_end-Within (c ∷ cs) =
    let one = more_one _ _ (tag_end-Within cs) in
    elim (Bool-cases (is_word_byte c)) [
      | inl e ↦ rw e one
      | inr e ↦ elim (Bool-cases (c == b'$')) [
        | inl f ↦ rw (e, f) (omega arith)
        | inr f ↦ rw (e, f) tt
      ]
    ]

pub dollar_quote_start-Within : (s : Bytes) → Within (dollar_quote_start s) (length s)
unfolding dollar_quote_start
dollar_quote_start-Within [] = tt
dollar_quote_start-Within (c ∷ cs) =
    let one = more_one _ _ (tag_end-Within cs) in
    elim (Bool-cases (c == b'$')) [
      | inl e ↦ rw e (omega arith)
      | inr e ↦ elim (Bool-cases (c == b'_')) [
        | inl f ↦ rw (e, f) one
        | inr f ↦ elim (Bool-cases (is_letter c)) [
          | inl g ↦ rw (e, f, g) one
          | inr g ↦ rw (e, f, g) tt
        ]
      ]
    ]

has_prefix-length : (s sub : Bytes) → has_prefix s sub ≡ true → length sub ≤ length s
unfolding has_prefix
has_prefix-length s [] h = omega arith
has_prefix-length [] (p ∷ ps) h = absurd cc
has_prefix-length (c ∷ cs) (p ∷ ps) h = ground (arith, has_prefix-length cs ps)

-- What is found ends within the text.
pub index_of-Within : (s sub : Bytes) (n : ℕ) → index_of s sub ≡ some n → n + length sub ≤ length s
unfolding index_of more
index_of-Within [] sub n h = ground (arith, has_prefix-length [] sub)
index_of-Within (c ∷ cs) sub n h = elim (Bool-cases (has_prefix (c ∷ cs) sub)) [
  | inl e ↦ ground (arith, has_prefix-length (c ∷ cs) sub e)
  | inr e ↦ elim (Option-cases (index_of cs sub)) [
    | inl f ↦ ground arith
    | inr (m, f) ↦ ground (arith, index_of-Within cs sub m f)
  ]
]

pub digits_bound : (s : Bytes) → digits s ≤ length s
unfolding digits
digits_bound [] = omega arith
digits_bound (c ∷ cs) = ground (arith, digits_bound cs)

pub length-take : (n : ℕ) (s : Bytes) → n ≤ length s → length (take n s) ≡ n
length-take zero s h = refl
length-take (suc n) [] h = absurd (omega arith)
length-take (suc n) (c ∷ cs) h = omega (arith, length-take n cs (omega arith))
