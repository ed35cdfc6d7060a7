-- ===== src/Namedsql/Fields.antt =====
-- The parts of Go's `strings` that namedsql/namedsql.go calls, and `ValidateSimpleIdentifier` of
-- schema/types.go.
use rasql.Prelude.{
  ℕ, zero, suc, Bool, true, false, ◌&&◌, ◌||◌, none, some, List, [], ◌∷◌, ◌++◌, ◌==◌, if◌then◌else◌,
  Bytes,
}
use rasql.Unicode.{decode, is_space, within}

-- Whether a rune of space begins at a byte, and the bytes the rune has behind that one; a byte that
-- begins no rune stands alone.
unfoldable pub space_at : ℕ → Bytes → Bool × ℕ
unfolding decode is_space
space_at c cs = elim (decode c cs) [ none ↦ (false, 0) | some (r, w) ↦ (is_space r, w) ]

-- A field that has ended; an empty one is none.
unfoldable pub field_before : Bytes → List Bytes → List Bytes
field_before [] fs = fs
field_before (c ∷ cs) fs = (c ∷ cs) ∷ fs

-- `strings.Fields` behind the bytes of the field so far, with the rest of a rune still to take, or
-- to pass if it is a space.
unfoldable pub fields_from : Bytes → Bool → ℕ → Bytes → List Bytes
unfolding space_at field_before
fields_from field space skip [] = field_before field []
fields_from field space (suc skip) (c ∷ cs) =
    fields_from (if space then field else field ++ c ∷ []) space skip cs
fields_from field space zero (c ∷ cs) =
    let (blank, skip) = space_at c cs in
    let rest = fields_from (if blank then [] else field ++ c ∷ []) blank skip cs in
    if blank then field_before field rest else rest

unfoldable pub fields : Bytes → List Bytes
unfolding fields_from
fields s = fields_from [] false 0 s

-- `strings.Split` at a byte, behind the bytes of the piece so far.
unfoldable pub split_from : ℕ → Bytes → Bytes → List Bytes
split_from sep piece [] = piece ∷ []
split_from sep piece (c ∷ cs) =
    let ended = split_from sep [] cs in
    let longer = split_from sep (piece ++ c ∷ []) cs in if c == sep then piece ∷ ended else longer

unfoldable pub starts_name : ℕ → Bool
starts_name c = c == b'_' || within b'A' b'Z' c || within b'a' b'z' c

unfoldable pub continues_name : ℕ → Bool
unfolding starts_name
continues_name c = starts_name c || within b'0' b'9' c

unfoldable pub all_continue : Bytes → Bool
unfolding continues_name
all_continue [] = true
all_continue (c ∷ cs) = continues_name c && all_continue cs

-- Whether `ValidateSimpleIdentifier` returns no error. The runes it accepts are bytes, and no byte
-- of another rune is one of them, so the loop over runes is one over bytes.
unfoldable pub is_simple_identifier : Bytes → Bool
unfolding starts_name all_continue
is_simple_identifier [] = false
is_simple_identifier (c ∷ cs) = starts_name c && all_continue cs
