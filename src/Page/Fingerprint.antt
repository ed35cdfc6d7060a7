-- ===== src/Page/Fingerprint.antt =====
-- page.go: `pageFingerprint`; internal/bindplan/compiled.go: `MatchBaseOccurrences`, which finds the
-- binds of a query in the statement of one of its pages.
pub mod Matched
use rasql.Prelude.{
  ℕ, suc, not, ◌&&◌, List, [], ◌∷◌, ◌==◌, if◌then◌else◌, length, map, Bytes, equal, Result, ok, err,
  ◌>>=◌, ◌>>◌, guard, pos,
}
use rasql.Graphkey.{TimeFormat}
use rasql.Pagekey.{ResultColumn, KeyField, BindValue, FingerprintError, fingerprint}
use rasql.Page.{PageError, PageKey, unsupported_keyset_bind, internal_plan, fingerprint_error}
use rasql.Page.Cursor.{with_reason, direction_byte, nulls_byte}

-- `bindplan.Slot`, with what the match reads of it.
pub record Slot : Type 0 where
  pub bind_id : ℕ
  pub codec : Bytes

-- `bindplan.Compiled`: the statement's text and how many arguments it has, and the slots.
pub record CompiledQuery : Type 0 where
  pub sql : Bytes
  pub argument_count : ℕ
  pub slots : List Slot

-- The inner loop: where a slot is among those from the index `next` on, and the slots behind it.
unfoldable pub find_slot : Slot → ℕ → List Slot → Result PageError (ℕ × List Slot)
find_slot want next [] = err unsupported_keyset_bind
find_slot want next (got ∷ slots) =
    let later = find_slot want (suc next) slots in
    if got.bind_id == want.bind_id
    then (guard (equal got.codec want.codec) unsupported_keyset_bind >>= λ _. ok (next, slots))
    else later

-- The loop over the base's slots.
unfoldable pub match_slots : List Slot → ℕ → List Slot → Result PageError (List ℕ)
match_slots [] next paged = ok []
match_slots (want ∷ base) next paged = do
  guard (not (want.bind_id == 0)) unsupported_keyset_bind
  (found, behind) ← find_slot want next paged
  later ← match_slots base (suc found) behind
  ok (found ∷ later)

-- `MatchBaseOccurrences`
unfoldable pub match_base_occurrences : CompiledQuery → CompiledQuery → Result PageError (List ℕ)
match_base_occurrences base paged = do
  guard (length base.slots == base.argument_count && length paged.slots == paged.argument_count)
      internal_plan
  match_slots base.slots 0 paged.slots

module _ {R : Type 0} where
  abbrev pub page_fingerprint_field : PageKey R → KeyField
  page_fingerprint_field key = record {
    direction = direction_byte key.direction;
    nulls = nulls_byte key.nulls;
    codec = key.codec;
    source = key.source;
  }

  -- `pageFingerprintFields`
  unfoldable pub page_fingerprint_fields : List (PageKey R) → List KeyField
  page_fingerprint_fields [] = []
  page_fingerprint_fields (key ∷ keys) = page_fingerprint_field key ∷ page_fingerprint_fields keys

  -- `pageFingerprint`
  unfoldable pub page_fingerprint :
      (Bytes → Bytes)
      → TimeFormat
      → Bytes
      → Bytes
      → List ResultColumn
      → List BindValue
      → List (PageKey R)
      → List ℕ
      → Result PageError Bytes
  page_fingerprint digest format engine sql columns arguments keys indexes =
      with_reason fingerprint_error (
        fingerprint digest format engine sql columns arguments (page_fingerprint_fields keys)
          (map pos indexes))
