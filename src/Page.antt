-- ===== src/Page.antt =====
-- cursor.go and page.go: pages of rows behind a cursor. The rows of a query have some Go type; what
-- the database reads for the expression of a key is a function of the row.
mod Tests
pub mod Keyset
pub mod Cursor
pub mod Spec
pub mod Fingerprint
pub mod After
use rasql.Prelude.{ℕ, Bool, true, false, Option, Bytes, Result}
use rasql.Cursorcodec.Envelope.{EnvelopeError}
use rasql.Pagekey.{FingerprintError}
use rasql.Cursorcodec.Value.{GoType, GoValue, ValueError}

pub data PageDirection : Type 0 where
  page_ascending : PageDirection
  page_descending : PageDirection

pub data NullOrder : Type 0 where
  null_order_default : NullOrder
  nulls_first : NullOrder
  nulls_last : NullOrder

pub data PageError : Type 0 where
  invalid_page_spec : PageError
  order_not_unique : PageError
  invalid_page_policy : PageError
  invalid_page_limit : PageError
  codec_unavailable : PageError
  codec_without_cursors : PageError
  -- `invalidCursor`
  invalid_cursor_envelope : EnvelopeError → PageError
  cursor_arity_mismatch : PageError
  cursor_metadata_mismatch : PageError
  invalid_absent_value : PageError
  invalid_cursor_value : PageError → PageError
  missing_non_null_value : PageError
  fingerprint_mismatch : PageError
  value_error : ValueError → PageError
  envelope_error : EnvelopeError → PageError
  nil_value_refused : PageError
  unsupported_keyset_bind : PageError
  internal_plan : PageError
  fingerprint_error : FingerprintError → PageError
  -- What a codec, a callback, an extract function or the database reports.
  foreign_error : ℕ → PageError
  panic : PageError

-- `address` stands for the pointer that Go compares.
pub record PageKey (R : Type 0) : Type 0 where
  pub address : ℕ
  pub has_node : Bool
  pub node : R → Option GoValue
  pub nulls : NullOrder
  pub direction : PageDirection
  pub nullable : Bool
  pub codec : Bytes
  pub source : Bytes
  pub typ : GoType
  pub extract : R → Result PageError (Option GoValue)
