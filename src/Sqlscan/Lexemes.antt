-- ===== src/Sqlscan/Lexemes.antt =====
-- internal/sqlscan/sqlscan.go: the helpers of `Scan`. Where the source passes the text and an
-- offset, these take the bytes from that offset on, and count the bytes they pass.
use rasql.Prelude.{
  more, ℕ, suc, ◌+◌, ◌-◌, ◌*◌, ◌^◌, Bool, true, false, not, ◌&&◌, ◌||◌, Option, none, some, [], ◌∷◌,
  leb, ◌==◌, if◌then◌else◌, Bytes,
}
use rasql.Unicode.{is_space, within}

-- The engines whose string rules differ; `legacy` is the scan with no engine named.
pub data Rules : Type 0 where
  legacy mysql postgresql other_engine : Rules

unfoldable pub is_postgresql : Rules → Bool
is_postgresql postgresql = true
is_postgresql _ = false

unfoldable pub is_mysql : Rules → Bool
is_mysql mysql = true
is_mysql _ = false

-- `backslashStrings`, which is also the test for `#` comments.
unfoldable pub backslash_strings : Rules → Bool
backslash_strings legacy = true
backslash_strings mysql = true
backslash_strings _ = false

-- The test for a `$tag$` delimiter.
unfoldable pub dollar_strings : Rules → Bool
dollar_strings legacy = true
dollar_strings postgresql = true
dollar_strings _ = false

-- `unicode.IsLetter(rune(b))`, `unicode.IsDigit(rune(b))`: a byte is a rune of Latin-1.
unfoldable pub is_letter : ℕ → Bool
is_letter c =
    within b'A' b'Z' c
    || within b'a' b'z' c
    || c == 0xAA
    || c == 0xB5
    || c == 0xBA
    || within 0xC0 0xD6 c
    || within 0xD8 0xF6 c
    || within 0xF8 0xFF c

unfoldable pub is_digit : ℕ → Bool
is_digit c = within b'0' b'9' c

unfoldable pub is_word_byte : ℕ → Bool
unfolding is_letter is_digit
is_word_byte c = c == b'_' || is_letter c || is_digit c

unfoldable pub starts : ℕ → Bytes → Bool
starts b [] = false
starts b (c ∷ cs) = c == b

-- The bytes behind an opening quote, up to and with the closing one.
unfoldable pub scan_quoted : ℕ → Bool → Bytes → Option ℕ
unfolding more
scan_quoted quote escapes [] = none
scan_quoted quote escapes (c ∷ []) = if c == quote then some 1 else none
scan_quoted quote escapes (c ∷ d ∷ cs) = elim (escapes && c == b'\\') [
  | true ↦ more 2 (scan_quoted quote escapes cs)
  | false ↦ elim (c == quote) [
    | false ↦ more 1 (scan_quoted quote escapes (d ∷ cs))
    | true ↦ elim (d == quote) [ true ↦ more 2 (scan_quoted quote escapes cs) | false ↦ some 1 ]
  ]
]

unfoldable pub scan_line_comment : Bytes → ℕ
scan_line_comment [] = 0
scan_line_comment (c ∷ cs) =
    let rest = suc (scan_line_comment cs) in if c == b'\n' || c == b'\r' then 0 else rest

unfoldable pub scan_block_comment : ℕ → Bytes → Option ℕ
unfolding more
scan_block_comment depth [] = none
scan_block_comment depth (c ∷ []) = none
scan_block_comment depth (c ∷ d ∷ cs) = elim (c == b'/' && d == b'*') [
  | true ↦ more 2 (scan_block_comment (depth + 1) cs)
  | false ↦ elim (c == b'*' && d == b'/') [
    | true ↦ elim (depth - 1 == 0) [
      | true ↦ some 2
      | false ↦ more 2 (scan_block_comment (depth - 1) cs)
    ]
    | false ↦ more 1 (scan_block_comment depth (d ∷ cs))
  ]
]

-- `lineCommentStart`, on the bytes behind the first `-`.
unfoldable pub line_comment_start : Rules → Bytes → Bool
unfolding is_mysql is_space
line_comment_start rules (d ∷ c ∷ cs) = not (is_mysql rules) || is_space c
line_comment_start rules _ = true

unfoldable pub tag_end : Bytes → Option ℕ
unfolding more is_word_byte
tag_end [] = none
tag_end (c ∷ cs) =
    let rest = more 1 (tag_end cs) in
    if is_word_byte c then rest else if c == b'$' then some 1 else none

-- `dollarQuoteStart`: the bytes behind the first `$`, up to and with the second.
unfoldable pub dollar_quote_start : Bytes → Option ℕ
unfolding tag_end more is_letter
dollar_quote_start [] = none
dollar_quote_start (c ∷ cs) =
    if c == b'$'
    then some 1
    else if not (c == b'_') && not (is_letter c)
    then none
    else more 1 (tag_end cs)

unfoldable pub digits : Bytes → ℕ
unfolding is_digit
digits [] = 0
digits (c ∷ cs) = let rest = suc (digits cs) in if is_digit c then rest else 0

-- The value of the first `n` bytes as decimal digits, behind those read so far.
unfoldable pub decimal : ℕ → ℕ → Bytes → ℕ
decimal read n [] = read
decimal read ℕ.zero cs = read
decimal read (suc n) (c ∷ cs) = decimal (read * 10 + (c - b'0')) n cs

-- Whether `strconv.Atoi` has no room for a number.
abbrev pub overflows : ℕ → Bool
overflows number = leb (2 ^ 63) number
