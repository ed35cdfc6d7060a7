-- ===== src/Cursorcodec/Value/Order.antt =====
-- The order of the bytes that internal/cursorcodec/value.go writes.
use rasql.Prelude.{ℕ, ◌%◌, ◌^◌, Bool, true, false, not, ◌&&◌, ltb, if◌then◌else◌, text_lt, ltz}
use rasql.Cursorcodec.Value.{
  GoValue, float_value, bool_value, int_value, uint_value, string_value, bytes_value,
}

-- The magnitude of a float: the order of floats of one sign, or its opposite.
abbrev magnitude : ℕ → ℕ
magnitude float = float % 2 ^ 63

abbrev is_negative : ℕ → Bool
is_negative float = ltb (2 ^ 63) float

-- The order of floats that are no NaN, where the two zeros are equal.
abbrev float_lt : ℕ → ℕ → Bool
float_lt x y =
    if is_negative x
    then (if is_negative y then ltb (magnitude y) (magnitude x) else true)
    else if is_negative y
    then false
    else ltb (magnitude x) (magnitude y)

-- The order of the values of one type.
unfoldable pub value_lt : GoValue → GoValue → Bool
value_lt (float_value x) (float_value y) = float_lt x y
value_lt (bool_value x) (bool_value y) = not x && y
value_lt (int_value x) (int_value y) = ltz x y
value_lt (uint_value x) (uint_value y) = ltb x y
value_lt (string_value x) (string_value y) = text_lt x y
value_lt (bytes_value x) (bytes_value y) = text_lt x y
value_lt _ _ = false
