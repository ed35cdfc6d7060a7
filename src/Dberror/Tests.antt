-- ===== src/Dberror/Tests.antt =====
-- dberror: runs of the model, and its theorems at a concrete error.
use rasql.Prelude.{
  ◌≡◌, ◌↔◌, refl, true, false, Option, none, some, List, [], ◌∷◌, codes, equal, ℤ, All,
}
use rasql.Dberror.{
  unique_violation, category_name, mysql_already_applied, Metadata, no_metadata, Classifier,
  classify, ask, MySqlError, PgError, mysql_classify, pg_classify, lookup, digits,
}
use rasql.MysqlErrno.{already_applied}
use rasql.Dberror.First.{Passes, FirstAnswer, classify_iff}

-- The errors here are PostgreSQL's.
abbrev duplicate : PgError
duplicate = record {
  code = codes "23505";
  constraint_name = codes "users_email_key";
  table_name = codes "users";
  column_name = [];
}

abbrev duplicate_metadata : Metadata
duplicate_metadata = record {
  category = unique_violation;
  sql_state = codes "23505";
  native_code = codes "23505";
  constraint = codes "users_email_key";
  table = codes "users";
  column = [];
}

abbrev not_mysql : PgError → Option MySqlError
not_mysql e = none

abbrev not_sqlite : PgError → Option ℤ
not_sqlite e = none

abbrev two_classifiers : List (Option (Classifier PgError))
two_classifiers =
    none ∷ some (λ e. mysql_classify (not_mysql e)) ∷ some (λ e. pg_classify (some e)) ∷ []

duplicate_test : classify (some duplicate) two_classifiers ≡ (duplicate_metadata, true)
unfolding classify ask mysql_classify pg_classify lookup equal
duplicate_test = refl

mysql_test :
    (mysql_classify (some (record { number = 1062; sql_state = codes "23000" }))).0.native_code
    ≡ codes "1062"
unfolding mysql_classify lookup digits
mysql_test = refl

classify_iff_example :
    ((classify (some duplicate) two_classifiers ≡ (duplicate_metadata, true))
      ↔ FirstAnswer duplicate two_classifiers duplicate_metadata)
    × ((classify (some duplicate) two_classifiers ≡ (no_metadata, false))
        ↔ All (Passes duplicate) two_classifiers)
classify_iff_example = classify_iff duplicate two_classifiers duplicate_metadata

applied_test : mysql_already_applied (some (record { number = 1061; sql_state = [] })) ≡ true
unfolding mysql_already_applied already_applied
applied_test = refl

name_test : category_name unique_violation ≡ codes "unique_violation"
name_test = refl
