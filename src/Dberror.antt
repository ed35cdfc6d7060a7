-- ===== src/Dberror.antt =====
-- dberror: the portable categories of database errors, `Classify` of dberror/classify.go and the
-- classifiers of the three drivers. What errors.As finds in an error for a driver, the driver's own
-- error with the fields that the classifier reads, is a parameter.
mod Tests
pub mod Digits
pub mod First
use rasql.Prelude.{
  ℕ, zero, suc, ◌+◌, ◌/◌, ◌%◌, Bool, true, false, not, ◌&&◌, Option, none, some, List, [], ◌∷◌,
  ◌++◌, ◌==◌, ltb, if◌then◌else◌, length, Bytes, codes, equal, ℤ, pos, negsuc,
}
use rasql.MysqlErrno.{already_applied}

pub data Category : Type 0 where
  unknown : Category
  unique_violation : Category
  foreign_key_violation : Category
  not_null_violation : Category
  check_violation : Category
  transaction_conflict : Category

-- `String`
abbrev pub category_name : Category → Bytes
category_name unknown = codes "unknown"
category_name unique_violation = codes "unique_violation"
category_name foreign_key_violation = codes "foreign_key_violation"
category_name not_null_violation = codes "not_null_violation"
category_name check_violation = codes "check_violation"
category_name transaction_conflict = codes "transaction_conflict"

pub record Metadata : Type 0 where
  pub category : Category
  pub sql_state : Bytes
  pub native_code : Bytes
  pub constraint : Bytes
  pub table : Bytes
  pub column : Bytes

-- `Metadata{}`
abbrev pub no_metadata : Metadata
no_metadata = record {
  category = unknown;
  sql_state = [];
  native_code = [];
  constraint = [];
  table = [];
  column = [];
}

abbrev pub is_unknown : Category → Bool
is_unknown unknown = true
is_unknown unique_violation = false
is_unknown foreign_key_violation = false
is_unknown not_null_violation = false
is_unknown check_violation = false
is_unknown transaction_conflict = false

-- `Classifier`, over the errors there are.
abbrev pub Classifier : Type 0 → Type 0
Classifier E = E → Metadata × Bool

-- `ok && metadata.Category != Unknown`
abbrev pub is_answer : Metadata × Bool → Bool
is_answer (metadata, found) = found && not (is_unknown metadata.category)

-- The loop of `Classify`; a nil classifier is none.
unfoldable pub ask : {E : Type 0} → E → List (Option (Classifier E)) → Metadata × Bool
ask e [] = (no_metadata, false)
ask e (none ∷ classifiers) = ask e classifiers
ask e (some classifier ∷ classifiers) =
    let rest = ask e classifiers in
    if is_answer (classifier e) then ((classifier e).0, true) else rest

-- `Classify`; a nil error is none.
unfoldable pub classify : {E : Type 0} → Option E → List (Option (Classifier E)) → Metadata × Bool
classify none classifiers = (no_metadata, false)
classify (some e) classifiers = ask e classifiers

-- A read of a Go map, by its entries.
unfoldable pub lookup : {K : Type 0} → (K → K → Bool) → K → List (K × Category) → Option Category
lookup same key [] = none
lookup same key ((k, category) ∷ entries) =
    let rest = lookup same key entries in if same k key then some category else rest

-- The decimal digits of a number, the lowest one last; every digit takes one of the fuel.
unfoldable pub digits : ℕ → ℕ → Bytes
digits zero n = []
digits (suc fuel) n =
    let higher = digits fuel (n / 10) in
    if ltb n 10 then (48 + n) ∷ [] else higher ++ (48 + n % 10) ∷ []

-- `strconv.FormatUint` in base 10: a number has no more digits than its value and one.
abbrev pub decimal : ℕ → Bytes
decimal n = digits (suc n) n

-- `strconv.Itoa`
abbrev pub itoa : ℤ → Bytes
itoa (pos n) = decimal n
itoa (negsuc n) = 45 ∷ decimal (suc n)

-- `strings.TrimRight(text, "\x00")`
unfoldable pub trim_zeros : Bytes → Bytes
trim_zeros [] = []
trim_zeros (c ∷ cs) =
    let rest = trim_zeros cs in if c == 0 && length rest == 0 then [] else c ∷ rest

-- `*mysql.MySQLError`, as far as it is read.
pub record MySqlError : Type 0 where
  pub number : ℕ
  pub sql_state : Bytes

abbrev pub mysql_categories : List (ℕ × Category)
mysql_categories =
    (1062, unique_violation)
    ∷ (1451, foreign_key_violation)
    ∷ (1452, foreign_key_violation)
    ∷ (1048, not_null_violation)
    ∷ (3819, check_violation)
    ∷ (1205, transaction_conflict)
    ∷ (1213, transaction_conflict)
    ∷ []

abbrev mysql_metadata : MySqlError → Category → Metadata
mysql_metadata native named = record {
  category = named;
  sql_state = trim_zeros native.sql_state;
  native_code = decimal native.number;
  constraint = [];
  table = [];
  column = [];
}

-- What a classifier gives back for the category that its table holds.
abbrev pub with_category : Option Category → (Category → Metadata) → Metadata × Bool
with_category none metadata = (no_metadata, false)
with_category (some category) metadata = (metadata category, true)

-- `Classify` of dberror/mysqlerr, for what errors.As finds.
unfoldable pub mysql_classify : Option MySqlError → Metadata × Bool
mysql_classify none = (no_metadata, false)
mysql_classify (some native) =
    with_category (lookup ◌==◌ native.number mysql_categories) (mysql_metadata native)

-- `AlreadyApplied` of dberror/mysqlerr
unfoldable pub mysql_already_applied : Option MySqlError → Bool
mysql_already_applied none = false
mysql_already_applied (some native) = already_applied native.number

-- `*pgconn.PgError`, as far as it is read.
pub record PgError : Type 0 where
  pub code : Bytes
  pub constraint_name : Bytes
  pub table_name : Bytes
  pub column_name : Bytes

abbrev pub pg_categories : List (Bytes × Category)
pg_categories =
    (codes "23505", unique_violation)
    ∷ (codes "23503", foreign_key_violation)
    ∷ (codes "23502", not_null_violation)
    ∷ (codes "23514", check_violation)
    ∷ (codes "40001", transaction_conflict)
    ∷ (codes "40P01", transaction_conflict)
    ∷ (codes "55P03", transaction_conflict)
    ∷ []

abbrev pg_metadata : PgError → Category → Metadata
pg_metadata native named = record {
  category = named;
  sql_state = native.code;
  native_code = native.code;
  constraint = native.constraint_name;
  table = native.table_name;
  column = native.column_name;
}

-- `Classify` of dberror/pgerr
unfoldable pub pg_classify : Option PgError → Metadata × Bool
pg_classify none = (no_metadata, false)
pg_classify (some native) =
    with_category (lookup equal native.code pg_categories) (pg_metadata native)

abbrev same_code : ℤ → ℤ → Bool
same_code (pos m) (pos n) = m == n
same_code (pos m) (negsuc n) = false
same_code (negsuc m) (pos n) = false
same_code (negsuc m) (negsuc n) = m == n

abbrev pub sqlite_categories : List (ℤ × Category)
sqlite_categories =
    (pos 1555, unique_violation)
    ∷ (pos 2067, unique_violation)
    ∷ (pos 787, foreign_key_violation)
    ∷ (pos 1299, not_null_violation)
    ∷ (pos 275, check_violation)
    ∷ (pos 5, transaction_conflict)
    ∷ (pos 6, transaction_conflict)
    ∷ (pos 517, transaction_conflict)
    ∷ []

abbrev sqlite_metadata : ℤ → Category → Metadata
sqlite_metadata code named = record {
  category = named;
  sql_state = [];
  native_code = itoa code;
  constraint = [];
  table = [];
  column = [];
}

-- `Classify` of dberror/sqliteerr, for the code of what errors.As finds.
unfoldable pub sqlite_classify : Option ℤ → Metadata × Bool
sqlite_classify none = (no_metadata, false)
sqlite_classify (some code) =
    with_category (lookup same_code code sqlite_categories) (sqlite_metadata code)
