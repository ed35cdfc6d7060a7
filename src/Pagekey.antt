-- ===== src/Pagekey.antt =====
-- internal/pagekey/fingerprint.go: the bytes that are hashed into a page's fingerprint. The text of
-- a time is a parameter, as in internal/graphkey.
mod Tests
pub mod Prefix
pub mod Types
pub mod Words
pub mod Values
pub mod Injective
pub mod Whole
use rasql.Prelude.{
  ℕ, zero, suc, ◌+◌, ◌%◌, ◌^◌, Bool, true, false, Option, none, some, List, [], ◌∷◌, ◌++◌, ltb,
  if◌then◌else◌, length, get_elem?, Bytes, codes, Result, ok, err, ◌>>=◌, ◌>>◌, guard, or_else, ℤ,
  pos, negsuc,
}
use rasql.Cursorcodec.BigEndian.{big_endian}
use rasql.Cursorcodec.Value.{to_uint64}
use rasql.Graphkey.{TimeFormat}

-- The column types without parameters.
pub data PlainKind : Type 0 where
  boolean_kind : PlainKind
  float_kind : PlainKind
  bytes_kind : PlainKind
  time_kind : PlainKind
  json_kind : PlainKind
  uuid_kind : PlainKind
  opaque_kind : PlainKind

-- The schema's column types, with the parameters that the fingerprint records; a width or a scale
-- that is not stated is none.
pub data ColumnType : Type 0 where
  plain_type : PlainKind → ColumnType
  integer_type : Bool → Option ℤ → Bool → ColumnType
  text_type : Option ℤ → Bool → ColumnType
  decimal_type : ℤ → Option ℤ → Bool → Bool → ColumnType
  other_type : Bytes → ColumnType

pub record ResultColumn : Type 0 where
  pub name : Bytes
  pub column_type : ColumnType
  pub codec : Bytes
  pub nullable : Bool

-- `Field`
pub record KeyField : Type 0 where
  pub direction : ℕ
  pub nulls : ℕ
  pub codec : Bytes
  pub source : Bytes

-- A bound argument. A value of another integer or float type is the type's name and the 64 bits
-- that are written of it.
pub data BindValue : Type 0 where
  named_value : Bytes → BindValue → BindValue
  nil_value : BindValue
  int64_value : ℤ → BindValue
  float64_value : ℕ → BindValue
  bool_value : Bool → BindValue
  string_value : Bytes → BindValue
  bytes_value : Bytes → BindValue
  time_value : ℤ → ℕ → BindValue
  kind_value : Bytes → ℕ → BindValue
  other_value : BindValue

pub data FingerprintError : Type 0 where
  unsupported_column_type : FingerprintError
  unsupported_value : FingerprintError
  invalid_index : FingerprintError

-- `writeField`
unfoldable pub write_field : Bytes → Bytes
write_field value = big_endian 4 (length value % 2 ^ 32) ++ value

abbrev pub flag : Bool → Bytes
flag true = codes "1"
flag false = codes "0"

-- `writeBoolField`
abbrev pub write_bool_field : Bytes → Bool → Bytes
write_bool_field tag value = write_field tag ++ write_field (flag value)

-- `writeIntField`
abbrev pub write_int_field : Bytes → ℤ → Bytes
write_int_field tag value = write_field tag ++ write_field (big_endian 8 (to_uint64 value))

-- `writeUintField`
abbrev pub write_uint_field : Bytes → ℕ → Bytes
write_uint_field tag value = write_field tag ++ write_field (big_endian 8 value)

-- A parameter that may not be stated: whether it is, and then what it is.
unfoldable pub write_optional : Bytes → Bytes → Option ℤ → Bytes
write_optional stated tag none = write_bool_field stated false
write_optional stated tag (some value) = write_bool_field stated true ++ write_int_field tag value

unfoldable pub plain_name : PlainKind → Bytes
plain_name boolean_kind = codes "boolean"
plain_name float_kind = codes "float"
plain_name bytes_kind = codes "bytes"
plain_name time_kind = codes "time"
plain_name json_kind = codes "json"
plain_name uuid_kind = codes "uuid"
plain_name opaque_kind = codes "native"

-- `writeColumnType`
unfoldable pub write_column_type : ColumnType → Result FingerprintError Bytes
write_column_type (plain_type kind) = ok (
    write_field (codes "column-type")
    ++ (write_field (plain_name kind) ++ write_field (codes "parameters")))
write_column_type (integer_type unsigned width zerofill) = ok (
    write_field (codes "column-type")
    ++ (write_field (codes "integer")
        ++ (write_field (codes "parameters")
            ++ (write_bool_field (codes "unsigned") unsigned
                ++ (write_optional (codes "display-width-stated") (codes "display-width") width
                    ++ write_bool_field (codes "zerofill") zerofill)))))
write_column_type (text_type width fixed) = ok (
    write_field (codes "column-type")
    ++ (write_field (codes "text")
        ++ (write_field (codes "parameters")
            ++ (write_optional (codes "width-stated") (codes "width") width
                ++ write_bool_field (codes "fixed") fixed))))
write_column_type (decimal_type precision scale unsigned zerofill) = ok (
    write_field (codes "column-type")
    ++ (write_field (codes "decimal")
        ++ (write_field (codes "parameters")
            ++ (write_int_field (codes "precision") precision
                ++ (write_optional (codes "scale-stated") (codes "scale") scale
                    ++ (write_bool_field (codes "unsigned") unsigned
                        ++ write_bool_field (codes "zerofill") zerofill))))))
write_column_type (other_type kind) = err unsupported_column_type

-- `writeFingerprintValue`
unfoldable pub write_value : TimeFormat → BindValue → Result FingerprintError Bytes
write_value format (named_value name value) = do
  bytes ← write_value format value
  ok (write_field (codes "named") ++ (write_field name ++ bytes))
write_value format nil_value = ok (write_field (codes "nil") ++ [])
write_value format (int64_value v) = ok (write_field (codes "int64") ++ big_endian 8 (to_uint64 v))
write_value format (float64_value v) = ok (write_field (codes "float64") ++ big_endian 8 v)
write_value format (bool_value true) = ok (write_field (codes "bool") ++ 1 ∷ [])
write_value format (bool_value false) = ok (write_field (codes "bool") ++ 0 ∷ [])
write_value format (string_value v) = ok (write_field (codes "string") ++ write_field v)
write_value format (bytes_value v) = ok (write_field (codes "bytes") ++ write_field v)
write_value format (time_value seconds nanos) =
    ok (write_field (codes "time") ++ write_field (format seconds nanos))
write_value format (kind_value type_name v) = ok (write_field type_name ++ big_endian 8 v)
write_value format other_value = err unsupported_value

abbrev pub nullable_word : Bool → Bytes
nullable_word true = codes "nullable"
nullable_word false = codes "required"

-- The loop over the columns.
unfoldable pub write_columns : List ResultColumn → Result FingerprintError Bytes
write_columns [] = ok []
write_columns (column ∷ columns) = do
  type_bytes ← write_column_type column.column_type
  rest ← write_columns columns
  ok (
      write_field column.name
      ++ (type_bytes
          ++ (write_field column.codec ++ (write_field (nullable_word column.nullable) ++ rest))))

-- The loop over the keys.
unfoldable pub write_keys : List KeyField → Bytes
write_keys [] = []
write_keys (key ∷ keys) =
    write_field (key.direction ∷ key.nulls ∷ [])
    ++ (write_field key.codec ++ (write_field key.source ++ write_keys keys))

-- The loop over the indexes of the arguments.
unfoldable pub write_arguments :
    TimeFormat → List BindValue → List ℤ → Result FingerprintError Bytes
write_arguments format arguments [] = ok []
write_arguments format arguments (negsuc index ∷ indexes) = err invalid_index
write_arguments format arguments (pos index ∷ indexes) = do
  argument ← or_else invalid_index (get_elem? arguments index)
  bytes ← write_value format argument
  rest ← write_arguments format arguments indexes
  ok (bytes ++ rest)

-- The bytes that `Fingerprint` hashes.
unfoldable pub preimage :
    TimeFormat
    → Bytes
    → Bytes
    → List ResultColumn
    → List BindValue
    → List KeyField
    → List ℤ
    → Result FingerprintError Bytes
preimage format engine sql columns arguments keys indexes = do
  column_bytes ← write_columns columns
  argument_bytes ← write_arguments format arguments indexes
  ok (
      write_field (codes "rasql-keyset-v1")
      ++ (write_field engine
          ++ (write_field sql
              ++ (write_uint_field (codes "column-count") (length columns)
                  ++ (column_bytes
                      ++ (write_uint_field (codes "key-count") (length keys)
                          ++ (write_keys keys
                              ++ (write_uint_field (codes "argument-count") (length indexes)
                                  ++ argument_bytes))))))))

-- `Fingerprint`: the digest is SHA-256.
unfoldable pub fingerprint :
    (Bytes → Bytes)
    → TimeFormat
    → Bytes
    → Bytes
    → List ResultColumn
    → List BindValue
    → List KeyField
    → List ℤ
    → Result FingerprintError Bytes
fingerprint digest format engine sql columns arguments keys indexes = do
  bytes ← preimage format engine sql columns arguments keys indexes
  ok (digest bytes)
