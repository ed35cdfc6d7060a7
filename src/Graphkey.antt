-- ===== src/Graphkey.antt =====
-- internal/graphkey: the bytes that graph keys compare on. The text of a time in RFC 3339, what
-- converts a Go value to a driver's (database/sql/driver) and an encoder are parameters.
mod Tests
pub mod Column
pub mod Framing
pub mod Identity
pub mod Parts
pub mod Valid
use rasql.Prelude.{
  ℕ, suc, ◌+◌, ◌%◌, ◌^◌, Bool, true, false, not, ◌&&◌, ◌||◌, Option, none, some, List, [], ◌∷◌,
  ◌++◌, ◌==◌, if◌then◌else◌, length, Bytes, equal, Result, ok, err, ◌>>=◌, ◌>>◌, guard, ℤ,
}
use rasql.Graphkey.Column.{ColumnRef, ColumnError}
use rasql.Cursorcodec.BigEndian.{big_endian}
use rasql.Cursorcodec.Value.{to_uint64, is_nan}

-- `driver.Value`, with what is no legal one.
pub data DriverValue : Type 0 where
  null_value : DriverValue
  int64_value : ℤ → DriverValue
  float64_value : ℕ → DriverValue
  bool_value : Bool → DriverValue
  bytes_value : Bytes → DriverValue
  string_value : Bytes → DriverValue
  time_value : ℤ → ℕ → DriverValue
  foreign_value : DriverValue

pub data GraphKeyError : Type 0 where
  nan_key : GraphKeyError
  unsupported_key : GraphKeyError
  illegal_value : GraphKeyError
  empty_key : GraphKeyError
  empty_parts : GraphKeyError
  zero_part : GraphKeyError
  invalid_column : ColumnError → GraphKeyError
  malformed_codec : GraphKeyError
  mixed_sources : GraphKeyError
  duplicate_column : GraphKeyError
  -- What a converter or an encoder reports.
  reported : ℕ → GraphKeyError

-- The text of an instant: `v.UTC().Format(time.RFC3339Nano)`.
abbrev pub TimeFormat : Type 0
TimeFormat = ℤ → ℕ → Bytes

-- The switch of `frame`: the tag and the payload.
unfoldable pub tagged : TimeFormat → Bool → DriverValue → Result GraphKeyError (ℕ × Bytes)
tagged format allow_nan null_value = ok (0, [])
tagged format allow_nan (int64_value v) = ok (1, big_endian 8 (to_uint64 v))
tagged format allow_nan (float64_value v) = do
  guard (not (not allow_nan && is_nan v)) nan_key
  ok (2, big_endian 8 v)
tagged format allow_nan (bool_value true) = ok (3, 1 ∷ [])
tagged format allow_nan (bool_value false) = ok (3, 0 ∷ [])
tagged format allow_nan (bytes_value v) = ok (4, v)
tagged format allow_nan (string_value v) = ok (5, v)
tagged format allow_nan (time_value seconds nanos) = ok (6, format seconds nanos)
tagged format allow_nan foreign_value = err unsupported_key

abbrev pub framed : ℕ × Bytes → Bytes
framed (tag, payload) = tag ∷ (big_endian 8 (length payload % 2 ^ 64) ++ payload)

-- `frame`, which `Frame` and `FrameAllowingNaN` call.
unfoldable pub frame : TimeFormat → Bool → DriverValue → Result GraphKeyError Bytes
frame format allow_nan value = do parts ← tagged format allow_nan value; ok (framed parts)

-- `ValidateDriverValue`
unfoldable pub validate_driver_value : DriverValue → Result GraphKeyError (Unit {0})
validate_driver_value foreign_value = err illegal_value
validate_driver_value _ = ok tt

-- The Go values are of some type, of which a converter makes a driver's values.
module _ {V : Type 0} where
  -- `Normalize`
  unfoldable pub normalize :
      (V → Bool) → (V → Result GraphKeyError DriverValue) → V → Result GraphKeyError DriverValue
  normalize is_nil convert value =
      if is_nil value
      then ok null_value
      else (convert value >>= λ converted. validate_driver_value converted >>= λ _. ok converted)

-- `PartSpec`, with what `ValidateParts` and `Tuple` read of it.
pub record PartSpec (R V : Type 0) : Type 0 where
  pub column : ColumnRef
  pub codec : Bytes
  pub extract : R → Option V

pub record Component : Type 0 where
  pub value : DriverValue
  pub encoded : Bytes
  pub codec : Bytes

pub record Tuple : Type 0 where
  pub components : List Component
  pub identity : Bytes

-- What `Tuple` calls: the time's text, the test for nil, the converter and the encoder.
pub record Encoding (V : Type 0) : Type 0 where
  pub format : TimeFormat
  pub is_nil : V → Bool
  pub convert : V → Result GraphKeyError DriverValue
  pub encode_graph_key : Bytes → V → Result GraphKeyError DriverValue

abbrev pub frames : List Component → Bytes
frames [] = []
frames (c ∷ cs) = c.encoded ++ frames cs

abbrev pub tuple_of : ℕ → Option (List Component) → Option Tuple
tuple_of count none = none
tuple_of count (some cs) = some (record { components = cs; identity = count % 256 ∷ frames cs })

abbrev pub with_component : Component → Option (List Component) → Option (List Component)
with_component c none = none
with_component c (some cs) = some (c ∷ cs)

module _ {R V : Type 0} where
  -- The driver's value of a part: the normalized value, or what the codec's encoder makes.
  unfoldable pub driver_value : Encoding V → PartSpec R V → V → Result GraphKeyError DriverValue
  driver_value encoding part value = do
    normalized ← normalize encoding.is_nil encoding.convert value
    if equal part.codec [] then ok normalized else encoding.encode_graph_key part.codec value

  -- A component of a present value.
  unfoldable pub component : Encoding V → PartSpec R V → V → Result GraphKeyError Component
  component encoding part value = do
    driver ← driver_value encoding part value
    bytes ← frame encoding.format false driver
    ok (record { value = driver; encoded = bytes; codec = part.codec })

  -- The body of the loop, in front of what the rest of the loop makes.
  unfoldable pub next_part :
      Encoding V
      → PartSpec R V
      → Option V
      → Result GraphKeyError (Option (List Component))
      → Result GraphKeyError (Option (List Component))
  next_part encoding part none rest = ok none
  next_part encoding part (some value) rest = do
    c ← component encoding part value
    cs ← rest
    ok (with_component c cs)

  -- The loop of `Tuple`; none where a part is absent.
  unfoldable pub components_of :
      Encoding V → List (PartSpec R V) → R → Result GraphKeyError (Option (List Component))
  components_of encoding [] row = ok (some [])
  components_of encoding (part ∷ parts) row =
      next_part encoding part (part.extract row) (components_of encoding parts row)

  -- `Tuple`
  unfoldable pub tuple : Encoding V → List (PartSpec R V) → R → Result GraphKeyError (Option Tuple)
  tuple encoding parts row = do
    guard (not (length parts == 0)) empty_key
    cs ← components_of encoding parts row
    ok (tuple_of (length parts) cs)
