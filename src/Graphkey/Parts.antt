-- ===== src/Graphkey/Parts.antt =====
-- `ValidateParts` of internal/graphkey/spec.go. A part is `none` where it is nil or extracts nothing.
use rasql.Prelude.{
  ℕ, Bool, true, false, not, ◌&&◌, ◌||◌, Option, List, [], ◌∷◌, leb, ◌==◌, if◌then◌else◌, length,
  Bytes, equal, Result, ok, err, ◌>>=◌, ◌>>◌, guard, or_else,
}
use rasql.TableOrder.{mem_text}
use rasql.Graphkey.Column.{ColumnError, validate_column, qualified_name}
use rasql.Graphkey.{
  PartSpec, GraphKeyError, empty_parts, zero_part, invalid_column, malformed_codec, mixed_sources,
  duplicate_column,
}

abbrev is_letter : ℕ → Bool
is_letter c = (leb 65 c && leb c 90) || (leb 97 c && leb c 122)

-- The characters behind the first one of a codec's identifier.
abbrev is_codec_char : ℕ → Bool
is_codec_char c = is_letter c || (leb 48 c && leb c 57) || c == 95 || c == 46 || c == 45

abbrev all_codec_chars : Bytes → Bool
all_codec_chars [] = true
all_codec_chars (c ∷ cs) = is_codec_char c && all_codec_chars cs

-- `bindplan.CodecPattern`
unfoldable pub is_codec : Bytes → Bool
is_codec [] = false
is_codec (c ∷ cs) = is_letter c && all_codec_chars cs && leb (length cs) 127

-- The error of a column, in the key's.
abbrev pub column_in_key : Result ColumnError (Unit {0}) → Result GraphKeyError (Unit {0})
column_in_key (ok u) = ok tt
column_in_key (err reason) = err (invalid_column reason)

module _ {R V : Type 0} where
  -- The loop, behind the parts' columns and the source so far.
  unfoldable pub check_parts :
      Bytes → List Bytes → List (Option (PartSpec R V)) → Result GraphKeyError (Unit {0})
  check_parts source columns [] = ok tt
  check_parts source columns (item ∷ items) = do
    part ← or_else zero_part item
    column_in_key (validate_column part.column)
    guard (equal part.codec [] || is_codec part.codec) malformed_codec
    guard (equal source [] || equal source (qualified_name part.column.source)) mixed_sources
    guard (not (mem_text part.column.name columns)) duplicate_column
    check_parts (if equal source [] then qualified_name part.column.source else source)
        (part.column.name ∷ columns) items

  -- `ValidateParts`
  unfoldable pub validate_parts : List (Option (PartSpec R V)) → Result GraphKeyError (Unit {0})
  validate_parts items = do guard (not (length items == 0)) empty_parts; check_parts [] [] items
