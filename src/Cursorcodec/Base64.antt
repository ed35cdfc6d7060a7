-- ===== src/Cursorcodec/Base64.antt =====
-- encoding/base64's RawURLEncoding, which the cursors of internal/cursorcodec are written in:
-- three bytes are four characters, the last one or two bytes are two or three, and there is no
-- padding. The decoder passes over line ends, and over the bits behind the last whole byte.
pub mod RoundTrip
use rasql.Prelude.{
  ℕ, ◌+◌, ◌-◌, ◌*◌, ◌/◌, ◌%◌, Bool, true, false, ◌&&◌, ◌||◌, Option, none, some, List, [], ◌∷◌, ltb,
  leb, ◌==◌, if◌then◌else◌, Bytes, and_then,
}

-- The character of a digit below 64: A-Z, a-z, 0-9, `-` and `_`.
unfoldable pub char_of : ℕ → ℕ
char_of d =
    if ltb d 26
    then d + 65
    else if ltb d 52
    then d + 71
    else if ltb d 62
    then d - 4
    else if d == 62
    then 45
    else 95

unfoldable pub digit_of : ℕ → Option ℕ
digit_of c =
    if leb 65 c && leb c 90
    then some (c - 65)
    else if leb 97 c && leb c 122
    then some (c - 71)
    else if leb 48 c && leb c 57
    then some (c + 4)
    else if c == 45
    then some 62
    else if c == 95
    then some 63
    else none

-- `EncodeToString`
unfoldable pub encode_to_string : Bytes → Bytes
unfolding char_of
encode_to_string [] = []
encode_to_string (a ∷ []) = char_of (a / 4) ∷ char_of (a % 4 * 16) ∷ []
encode_to_string (a ∷ b ∷ []) =
    char_of (a / 4) ∷ char_of (a % 4 * 16 + b / 16) ∷ char_of (b % 16 * 4) ∷ []
encode_to_string (a ∷ b ∷ c ∷ bs) =
    char_of (a / 4)
    ∷ char_of (a % 4 * 16 + b / 16)
    ∷ char_of (b % 16 * 4 + c / 64)
    ∷ char_of (c % 64)
    ∷ encode_to_string bs

unfoldable pub is_line_end : ℕ → Bool
is_line_end c = c == 10 || c == 13

unfoldable pub without_line_ends : Bytes → Bytes
unfolding is_line_end
without_line_ends [] = []
without_line_ends (c ∷ cs) =
    let rest = without_line_ends cs in if is_line_end c then rest else c ∷ rest

-- The digits of the characters, if all are digits.
unfoldable pub digits_of : Bytes → Option (List ℕ)
unfolding digit_of
digits_of [] = some []
digits_of (c ∷ cs) = and_then (digit_of c) λ d. and_then (digits_of cs) λ ds. some (d ∷ ds)

-- The bytes of the digits, if no single digit is left over.
unfoldable pub bytes_of : List ℕ → Option Bytes
bytes_of [] = some []
bytes_of (p ∷ []) = none
bytes_of (p ∷ q ∷ []) = some ((p * 4 + q / 16) ∷ [])
bytes_of (p ∷ q ∷ r ∷ []) = some ((p * 4 + q / 16) ∷ (q % 16 * 16 + r / 4) ∷ [])
bytes_of (p ∷ q ∷ r ∷ s ∷ ds) =
    and_then (bytes_of ds)
      λ bs. some ((p * 4 + q / 16) ∷ (q % 16 * 16 + r / 4) ∷ (r % 4 * 64 + s) ∷ bs)

-- `DecodeString`
unfoldable pub decode_string : Bytes → Option Bytes
unfolding without_line_ends digits_of bytes_of
decode_string text = and_then (digits_of (without_line_ends text)) bytes_of
