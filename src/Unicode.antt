-- ===== src/Unicode.antt =====
-- What the sources use of Go's `unicode` and `unicode/utf8`, over strings as lists of bytes:
-- decoding, `utf8.ValidString`, `unicode.IsSpace`, and whether `strings.TrimSpace` leaves nothing.
use rasql.Prelude.{
  ℕ, zero, suc, ◌+◌, ◌-◌, ◌*◌, ◌≡◌, refl, Bool, true, false, ◌&&◌, ◌||◌, Option, none, some, List,
  [], ◌∷◌, leb, ltb, ◌==◌, if◌then◌else◌, get_elem?, Bytes, codes,
}

abbrev pub within : ℕ → ℕ → ℕ → Bool
within lo hi c = leb lo c && leb c hi

-- A continuation byte at position `i`, its payload bits.
continuation : Bytes → ℕ → ℕ → ℕ → Option ℕ
continuation rest i lo hi = elim (get_elem? rest i) [
  | none ↦ none
  | some b ↦ if within lo hi b then some (b - 0x80) else none
]

-- The least and the greatest second byte after `c` in a sequence of three or four bytes.
second_low : ℕ → ℕ
second_low c = if c == 0xE0 then 0xA0 else if c == 0xF0 then 0x90 else 0x80

second_high : ℕ → ℕ
second_high c = if c == 0xED then 0x9F else if c == 0xF4 then 0x8F else 0xBF

add_bits : Option ℕ → Option ℕ → Option ℕ
add_bits none low = none
add_bits (some high) none = none
add_bits (some high) (some low) = some (high * 64 + low)

with_width : Option ℕ → ℕ → Option (ℕ × ℕ)
with_width none w = none
with_width (some r) w = some (r, w)

-- `utf8.DecodeRune` at a byte `c` before `rest`: the rune and how many bytes of `rest` it takes.
unfoldable pub decode : ℕ → Bytes → Option (ℕ × ℕ)
unfolding continuation second_low second_high add_bits with_width
decode c rest =
    let second = continuation rest 0 (second_low c) (second_high c) in
    let third = continuation rest 1 0x80 0xBF in
    let fourth = continuation rest 2 0x80 0xBF in
    if ltb c 0x80
    then some (c, 0)
    else if within 0xC2 0xDF c
    then with_width (add_bits (some (c - 0xC0)) second) 1
    else if within 0xE0 0xEF c
    then with_width (add_bits (add_bits (some (c - 0xE0)) second) third) 2
    else if within 0xF0 0xF4 c
    then with_width (add_bits (add_bits (add_bits (some (c - 0xF0)) second) third) fourth) 3
    else none

-- The runes of a string; `none` is a byte that begins no well-formed sequence.
runes_skipping : ℕ → Bytes → List (Option ℕ)
unfolding decode
runes_skipping n [] = []
runes_skipping (suc n) (c ∷ cs) = runes_skipping n cs
runes_skipping zero (c ∷ cs) = elim (decode c cs) [
  | none ↦ none ∷ runes_skipping zero cs
  | some (r, w) ↦ some r ∷ runes_skipping w cs
]

unfoldable pub runes : Bytes → List (Option ℕ)
unfolding runes_skipping
runes s = runes_skipping zero s

all_valid : List (Option ℕ) → Bool
all_valid [] = true
all_valid (none ∷ rs) = false
all_valid (some r ∷ rs) = all_valid rs

-- `utf8.ValidString`
unfoldable pub valid_string : Bytes → Bool
unfolding runes all_valid
valid_string s = all_valid (runes s)

-- `unicode.IsSpace`
unfoldable pub is_space : ℕ → Bool
is_space r =
    within 9 13 r
    || r == 0x20
    || r == 0x85
    || r == 0xA0
    || r == 0x1680
    || within 0x2000 0x200A r
    || r == 0x2028
    || r == 0x2029
    || r == 0x202F
    || r == 0x205F
    || r == 0x3000

all_space : List (Option ℕ) → Bool
all_space [] = true
all_space (none ∷ rs) = false
all_space (some r ∷ rs) = is_space r && all_space rs

-- `strings.TrimSpace(s) == ""`
unfoldable pub is_blank : Bytes → Bool
unfolding runes all_space is_space
is_blank s = all_space (runes s)

blank_test : is_blank (codes " \t\n") ≡ true
unfolding is_blank
blank_test = refl

-- U+3000 is a space of three bytes.
wide_blank_test : is_blank (0xE3 ∷ 0x80 ∷ 0x80 ∷ []) ≡ true
unfolding is_blank
wide_blank_test = refl

surrogate_test : valid_string (0xED ∷ 0xA0 ∷ 0x80 ∷ []) ≡ false
unfolding valid_string
surrogate_test = refl
