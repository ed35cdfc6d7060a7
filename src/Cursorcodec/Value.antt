-- ===== src/Cursorcodec/Value.antt =====
-- internal/cursorcodec/value.go. A float is the bits of the float64 that it is or widens to; a time
-- is its instant in UTC, without the location that the source drops as well.
pub mod RoundTrip
pub mod Order
use rasql.Prelude.{
  ℕ, ◌+◌, ◌-◌, ◌*◌, ◌/◌, ◌%◌, ◌^◌, Bool, true, false, not, ◌&&◌, ◌||◌, List, [], ◌∷◌, ◌++◌, ltb,
  leb, ◌==◌, if◌then◌else◌, length, take, drop, get_elem?, Bytes, Result, ok, err, ◌>>=◌, ◌>>◌,
  guard, ℤ, pos, negsuc,
}
use rasql.Cursorcodec.BigEndian.{big_endian, from_big_endian}

pub data Width : Type 0 where
  w8 : Width
  w16 : Width
  w32 : Width
  w64 : Width

-- `typ.Bits()`; Go's int, uint and uintptr have 64 bits here.
unfoldable pub bits : Width → ℕ
bits w8 = 8
bits w16 = 16
bits w32 = 32
bits w64 = 64

pub data GoType : Type 0 where
  time_type : GoType
  float32_type : GoType
  float64_type : GoType
  bool_type : GoType
  int_type : Width → GoType
  uint_type : Width → GoType
  string_type : GoType
  bytes_type : GoType
  other_type : GoType

pub data GoValue : Type 0 where
  nil_value : GoValue
  -- The seconds and the nanoseconds since 1970.
  time_value : ℤ → ℕ → GoValue
  float_value : ℕ → GoValue
  bool_value : Bool → GoValue
  int_value : ℤ → GoValue
  uint_value : ℕ → GoValue
  string_value : Bytes → GoValue
  bytes_value : Bytes → GoValue
  other_value : GoValue

pub data ValueError : Type 0 where
  nil_cursor_value : ValueError
  nan_value : ValueError
  unsupported_value : ValueError
  invalid_time : ValueError
  invalid_float : ValueError
  float_overflow : ValueError
  invalid_bool : ValueError
  invalid_integer : ValueError
  integer_overflow : ValueError
  unsigned_overflow : ValueError
  unsupported_type : ValueError

-- `uint64(v)` of a signed integer.
unfoldable pub to_uint64 : ℤ → ℕ
to_uint64 (pos n) = n % 2 ^ 64
to_uint64 (negsuc n) = 2 ^ 64 - 1 - n

-- `int64(u)` of an unsigned integer.
unfoldable pub to_int64 : ℕ → ℤ
to_int64 u = if ltb u (2 ^ 63) then pos u else negsuc (2 ^ 64 - 1 - u)

-- `u ^ (1 << 63)`
unfoldable pub flip_top : ℕ → ℕ
flip_top u = (u + 2 ^ 63) % 2 ^ 64

-- `^u`
abbrev pub complement : ℕ → ℕ
complement u = 2 ^ 64 - 1 - u

-- `math.IsNaN`
unfoldable pub is_nan : ℕ → Bool
is_nan float = ltb (2047 * 2 ^ 52) (float % 2 ^ 63)

-- `f >= 0`, where `f` is no NaN: the sign is off, or the float is a negative zero.
unfoldable pub is_nonnegative : ℕ → Bool
is_nonnegative float = ltb float (2 ^ 63) || float == 2 ^ 63

-- The bits that a float is written as.
unfoldable pub biased : ℕ → ℕ
biased float = if is_nonnegative float then flip_top float else complement float

-- The bits that a float is read from.
unfoldable pub unbiased : ℕ → ℕ
unbiased u = if leb (2 ^ 63) u then flip_top u else complement u

-- `float64(float32(f)) == f`, where `f` is no NaN: a float32 has 24 significant bits and no bit
-- below 2 ^ -149, and infinity is one.
unfoldable pub fits_float32 : ℕ → Bool
fits_float32 float =
    let exponent = float % 2 ^ 63 / 2 ^ 52 in
    let fraction = float % 2 ^ 52 in
    if exponent == 0 || exponent == 2047
    then fraction == 0
    else if ltb 1150 exponent || ltb exponent 874
    then false
    else if leb 897 exponent
    then fraction % 2 ^ 29 == 0
    else fraction % 2 ^ (926 - exponent) == 0

-- `EncodeValue`
unfoldable pub encode_value : GoValue → Result ValueError Bytes
encode_value nil_value = err nil_cursor_value
encode_value (time_value seconds nanos) =
    ok (big_endian 8 (to_uint64 seconds) ++ big_endian 4 (nanos % 2 ^ 32))
encode_value (float_value float) = do
  guard (not (is_nan float)) nan_value
  ok (big_endian 8 (biased float))
encode_value (bool_value true) = ok (1 ∷ [])
encode_value (bool_value false) = ok (0 ∷ [])
encode_value (int_value v) = ok (big_endian 8 (flip_top (to_uint64 v)))
encode_value (uint_value v) = ok (big_endian 8 v)
encode_value (string_value s) = ok s
encode_value (bytes_value s) = ok s
encode_value other_value = err unsupported_value

-- `v < -(1 << (bits - 1)) || v > (1 << (bits - 1)) - 1`
unfoldable pub overflows : ℕ → ℤ → Bool
overflows size (pos n) = ltb (2 ^ (size - 1) - 1) n
overflows size (negsuc n) = ltb (2 ^ (size - 1)) (n + 1)

-- The floats, up to the check that the destination holds them.
unfoldable pub decode_float : Bytes → Result ValueError ℕ
decode_float bytes = do
  guard (length bytes == 8) invalid_float
  let float = unbiased (from_big_endian bytes)
  guard (not (is_nan float)) nan_value
  ok float

-- `DecodeValue`
unfoldable pub decode_value : GoType → Bytes → Result ValueError GoValue
decode_value time_type bytes = do
  guard (length bytes == 12) invalid_time
  let seconds = to_int64 (from_big_endian (take 8 bytes))
  let nanos = from_big_endian (drop 8 bytes)
  guard (not (leb 1000000000 nanos)) invalid_time
  ok (time_value seconds nanos)
decode_value float32_type bytes = do
  float ← decode_float bytes
  guard (fits_float32 float) float_overflow
  ok (float_value float)
decode_value float64_type bytes = do float ← decode_float bytes; ok (float_value float)
decode_value bool_type (b ∷ []) = do guard (leb b 1) invalid_bool; ok (bool_value (b == 1))
decode_value bool_type _ = err invalid_bool
decode_value (int_type width) bytes = do
  guard (length bytes == 8) invalid_integer
  let v = to_int64 (flip_top (from_big_endian bytes))
  guard (not (ltb (bits width) 64 && overflows (bits width) v)) integer_overflow
  ok (int_value v)
decode_value (uint_type width) bytes = do
  guard (length bytes == 8) invalid_integer
  let v = from_big_endian bytes
  guard (not (ltb (bits width) 64 && ltb (2 ^ bits width - 1) v)) unsigned_overflow
  ok (uint_value v)
decode_value string_type bytes = ok (string_value bytes)
decode_value bytes_type bytes = ok (bytes_value bytes)
decode_value other_type bytes = err unsupported_type
