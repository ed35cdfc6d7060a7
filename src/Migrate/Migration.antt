-- ===== src/Migrate/Migration.antt =====
-- migrate/migration.go: the value types, their validation, and the bytes that a checksum covers.
pub mod Framing
use rasql.Prelude.{
  ℕ, ◌+◌, ◌≡◌, refl, Bool, true, false, not, ◌||◌, List, [], ◌∷◌, ◌++◌, ltb, ◌==◌, if◌then◌else◌,
  length, Bytes, codes, equal, contains_byte, Result, ok, err, ◌>>=◌, ◌>>◌, guard,
}
use rasql.Unicode.{valid_string, is_blank}

-- One SQL source file.
pub record Statement : Type 0 where
  pub source : Bytes
  pub sql : Bytes

-- `Mode` is a Go string: any value can stand there until `validate` refuses it.
pub record Migration : Type 0 where
  pub id : Bytes
  pub mode : Bytes
  pub statements : List Statement
  pub down : List Statement

abbrev pub execution_mode_atomic : Bytes
execution_mode_atomic = []

abbrev pub execution_mode_nontransactional : Bytes
execution_mode_nontransactional = codes "nontransactional"

-- What `validate` complains of.
pub data Fault : Type 0 where
  invalid_mode empty_id invalid_id no_sources : Fault
  invalid_source : ℕ → Fault
  duplicate_source empty_source : Bytes → Fault

unfoldable pub contains : List Bytes → Bytes → Bool
contains [] t = false
contains (s ∷ ss) t = equal s t || contains ss t

-- The loop of `validateStatements` at `index`, with the sources seen so far.
validate_from : ℕ → List Bytes → List Statement → Result Fault (Unit {0})
validate_from index seen [] = ok tt
validate_from index seen (s ∷ ss) = do
  guard (not (equal s.source [] || not (valid_string s.source) || contains_byte 0 s.source))
      (invalid_source (index + 1))
  guard (not (contains seen s.source)) (duplicate_source s.source)
  guard (not (is_blank s.sql)) (empty_source s.source)
  validate_from (index + 1) (s.source ∷ seen) ss

unfoldable pub validate_statements : List Statement → Result Fault (Unit {0})
unfolding validate_from
validate_statements ss = validate_from 0 [] ss

unfoldable pub validate_migration_id : Bytes → Result Fault (Unit {0})
validate_migration_id id = do
  guard (not (equal id [])) empty_id
  guard (not (not (valid_string id) || ltb 255 (length id) || contains_byte 0 id)) invalid_id

unfoldable pub validate : Migration → Result Fault (Unit {0})
unfolding validate_statements validate_migration_id
validate m = do
  guard (equal m.mode execution_mode_atomic || equal m.mode execution_mode_nontransactional)
      invalid_mode
  validate_migration_id m.id
  guard (not (length m.statements == 0)) no_sources
  validate_statements m.statements
  validate_statements m.down

abbrev pub mode_marker : Bytes
mode_marker = codes "rasql-execution-mode" ++ (0 ∷ (codes "nontransactional" ++ (0 ∷ [])))

-- What the loop of `checksumMode` writes into the hash.
unfoldable pub frame : List Statement → Bytes
frame [] = []
frame (s ∷ ss) = s.source ++ (0 ∷ (s.sql ++ (0 ∷ frame ss)))

-- All that `checksumMode` writes into the hash.
unfoldable pub preimage : Bytes → List Statement → Bytes
unfolding frame
preimage mode ss =
    if equal mode execution_mode_nontransactional then mode_marker ++ frame ss else frame ss

-- `digest` is the hexadecimal SHA-256 of what was written.
unfoldable pub checksum_mode : (Bytes → Bytes) → Bytes → List Statement → Bytes
checksum_mode digest mode ss = digest (preimage mode ss)

-- The exported `Checksum` validates first.
unfoldable pub checksum : (Bytes → Bytes) → Migration → Result Fault Bytes
checksum digest m = do validate m; ok (checksum_mode digest m.mode m.statements)

abbrev pub sample_migration : Migration
sample_migration = record {
  id = codes "001_initial";
  mode = [];
  statements = (record { source = codes "1.up.sql"; sql = codes "CREATE TABLE t (id INT)" }) ∷ [];
  down = (record { source = codes "1.down.sql"; sql = codes "DROP TABLE t" }) ∷ [];
}

sample_test : validate sample_migration ≡ ok tt
unfolding validate contains equal contains_byte valid_string is_blank
sample_test = refl
