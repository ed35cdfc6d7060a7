-- ===== src/Sqlscan/Scan.antt =====
-- internal/sqlscan/sqlscan.go: `Scan`, its loop over the text and the regions it records.
pub mod Bounds
pub mod Pieces
pub mod Rounds
pub mod Marks
pub mod Outside
use rasql.Prelude.{
  ℕ, zero, suc, ◌+◌, Bool, true, false, ◌&&◌, ◌||◌, Option, none, some, List, [], ◌∷◌, ◌++◌, ◌==◌,
  if◌then◌else◌, take, drop, Bytes, Result, ok, err, ◌>>=◌,
}
use rasql.Sqlscan.Lexemes.{
  Rules, is_postgresql, is_mysql, backslash_strings, dollar_strings, starts, scan_quoted,
  scan_line_comment, scan_block_comment, line_comment_start, dollar_quote_start, digits, decimal,
  overflows,
}
use rasql.Prelude.{more, index_of}

-- A protected region; the end is exclusive.
pub record Span : Type 0 where
  pub start : ℕ
  pub end : ℕ

pub data PlaceholderKind : Type 0 where
  question dollar : PlaceholderKind

pub record Placeholder : Type 0 where
  pub start : ℕ
  pub end : ℕ
  pub kind : PlaceholderKind
  pub number : ℕ
  pub invalid : Bool

pub record Scanned : Type 0 where
  pub protected : List Span
  pub placeholders : List Placeholder
  pub semicolons : List ℕ

pub data ScanError : Type 0 where
  unterminated_quoted unterminated_block unterminated_dollar : ScanError

-- What one round of the loop finds at a byte, with the bytes it passes behind that one.
pub data Piece : Type 0 where
  region : ℕ → Piece
  parameter : ℕ → PlaceholderKind → ℕ → Bool → Piece
  semicolon plain : Piece

unfoldable pub passed : Piece → ℕ
passed (region n) = n
passed (parameter n kind number invalid) = n
passed semicolon = 0
passed plain = 0

-- A region that ends `k` bytes behind what a helper returned.
unfoldable pub closed : ScanError → ℕ → Option ℕ → Result ScanError Piece
closed e k none = err e
closed e k (some n) = ok (region (k + n))

-- The body of a dollar-quoted string behind its delimiter of `n` bytes after the first.
unfoldable pub dollar_body : Bytes → ℕ → Result ScanError Piece
unfolding closed index_of
dollar_body cs n =
    closed unterminated_dollar (n + (n + 1)) (index_of (drop n cs) (b'$' ∷ take n cs))

-- `dollarPlaceholder`, and the byte alone where it finds none.
unfoldable pub dollar_placeholder : Bytes → Piece
unfolding digits decimal
dollar_placeholder cs =
    let n = digits cs in
    let number = decimal 0 n cs in
    if n == 0
    then plain
    else if overflows number
    then parameter n dollar 0 true
    else parameter n dollar number false

-- The branches behind the test for a delimiter.
unfoldable pub dollar_found : Bytes → Option ℕ → Result ScanError Piece
unfolding dollar_body dollar_placeholder
dollar_found cs (some n) = dollar_body cs n
dollar_found cs none = ok (dollar_placeholder cs)

unfoldable pub dollar_piece : Rules → Bytes → Result ScanError Piece
unfolding dollar_strings dollar_quote_start dollar_found
dollar_piece rules cs =
    dollar_found cs (if dollar_strings rules then dollar_quote_start cs else none)

-- The `switch` of the loop, on the byte at the offset and those behind it.
unfoldable pub piece_at : Rules → ℕ → Bytes → Result ScanError Piece
unfolding is_postgresql is_mysql backslash_strings starts closed scan_quoted scan_line_comment
    scan_block_comment line_comment_start dollar_piece
piece_at rules c cs =
    if c == b'\''
    then closed unterminated_quoted 0 (scan_quoted b'\'' (backslash_strings rules) cs)
    else if is_postgresql rules && (c == b'e' || c == b'E') && starts b'\'' cs
    then closed unterminated_quoted 1 (scan_quoted b'\'' true (drop 1 cs))
    else if c == b'"'
    then closed unterminated_quoted 0 (scan_quoted b'"' (is_mysql rules) cs)
    else if c == b'`'
    then closed unterminated_quoted 0 (scan_quoted b'`' (backslash_strings rules) cs)
    else if c == b'-' && starts b'-' cs && line_comment_start rules cs
    then ok (region (1 + scan_line_comment (drop 1 cs)))
    else if c == b'#' && backslash_strings rules
    then ok (region (scan_line_comment cs))
    else if c == b'/' && starts b'*' cs
    then closed unterminated_block 1 (scan_block_comment 1 (drop 1 cs))
    else if c == b'$'
    then dollar_piece rules cs
    else if c == b'?'
    then ok (parameter 0 question 0 false)
    else if c == b';'
    then ok semicolon
    else ok plain

-- The appends to `result`, at an offset.
unfoldable pub add_piece : ℕ → Piece → Scanned → Scanned
add_piece i (region n) r = record r {
  protected = record { start = i; end = i + 1 + n } ∷ r.protected;
}
add_piece i (parameter n k x bad) r = record r {
  placeholders =
      record { start = i; end = i + 1 + n; kind = k; number = x; invalid = bad } ∷ r.placeholders;
}
add_piece i semicolon r = record r { semicolons = i ∷ r.semicolons }
add_piece i plain r = r

-- The loop, at offset `i`, with `skip` bytes still to pass: `i = end` is a pass over the bytes.
unfoldable pub scan_from : Rules → ℕ → ℕ → Bytes → Result ScanError Scanned
unfolding passed add_piece piece_at
scan_from rules i skip [] = ok record { protected = []; placeholders = []; semicolons = [] }
scan_from rules i (suc skip) (c ∷ cs) = scan_from rules (i + 1) skip cs
scan_from rules i zero (c ∷ cs) = do
  piece ← piece_at rules c cs
  later ← scan_from rules (i + 1) (passed piece) cs
  ok (add_piece i piece later)

unfoldable pub scan : Rules → Bytes → Result ScanError Scanned
unfolding scan_from
scan rules sql = scan_from rules 0 0 sql
