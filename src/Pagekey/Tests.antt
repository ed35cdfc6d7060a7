-- ===== src/Pagekey/Tests.antt =====
-- internal/pagekey: a run of the model, and its theorem at a concrete query.
use rasql.Prelude.{
  ◌≡◌, refl, true, false, some, List, [], ◌∷◌, Bytes, codes, equal, Result, ok, err, ℤ, pos, negsuc,
  arith,
}
use rasql.Cursorcodec.BigEndian.{big_endian}
use rasql.Cursorcodec.Value.{bits, to_uint64}
use rasql.Graphkey.{TimeFormat}
use rasql.Pagekey.{
  ResultColumn, KeyField, BindValue, nil_value, int64_value, time_value, named_value, kind_value,
  text_type, plain_type, boolean_kind, FingerprintError, invalid_index, write_field, write_optional,
  plain_name, write_column_type, write_value, write_columns, write_keys, write_arguments, preimage,
  fingerprint,
}
use rasql.Pagekey.Words.{TellsTimes, word_number}
use rasql.Pagekey.Injective.{named_by}
use rasql.Pagekey.Whole.{IsQuery, preimage_inj}

-- The text of a time here is a sign, its seconds and its nanoseconds.
abbrev plain : TimeFormat
plain (pos s) n = 0 ∷ s ∷ n ∷ []
plain (negsuc s) n = 1 ∷ s ∷ n ∷ []

plain-TellsTimes : TellsTimes plain
plain-TellsTimes (pos s) (pos t) m n e =
    let same : s ≡ t = cc in let nanos : m ≡ n = cc in λ i. time_value (pos (same i)) (nanos i)
plain-TellsTimes (negsuc s) (negsuc t) m n e =
    let same : s ≡ t = cc in let nanos : m ≡ n = cc in λ i. time_value (negsuc (same i)) (nanos i)
plain-TellsTimes (pos s) (negsuc t) m n e = absurd (ground arith)
plain-TellsTimes (negsuc s) (pos t) m n e = absurd (ground arith)

abbrev columns : List ResultColumn
columns =
    (record {
      name = codes "id";
      column_type = plain_type boolean_kind;
      codec = [];
      nullable = false;
    })
    ∷ (record {
      name = codes "t";
      column_type = text_type (some (pos 9)) true;
      codec = [];
      nullable = true;
    })
    ∷ []

abbrev keys : List KeyField
keys = (record { direction = 1; nulls = 0; codec = []; source = codes "tasks" }) ∷ []

-- The arguments that two queries are run with: the second has one more, which does not count.
abbrev arguments : List BindValue
arguments =
    int64_value (pos 5) ∷ kind_value (codes "main.ID") 7 ∷ named_value (codes "n") nil_value ∷ []

abbrev more_arguments : List BindValue
more_arguments = nil_value ∷ arguments

abbrev indexes : List ℤ
indexes = pos 0 ∷ pos 2 ∷ pos 1 ∷ []

abbrev more_indexes : List ℤ
more_indexes = pos 1 ∷ pos 3 ∷ pos 2 ∷ []

abbrev bytes_of : Result FingerprintError Bytes → Bytes
bytes_of (err reason) = []
bytes_of (ok bytes) = bytes

abbrev hashed : Bytes
hashed = bytes_of (preimage plain (codes "sqlite") (codes "SELECT") columns arguments keys indexes)

is_query : IsQuery plain (codes "sqlite") (codes "SELECT") columns arguments keys indexes
unfolding bits word_number equal
is_query = (
  (omega arith, omega arith),
  (
    ((omega arith, tt, omega arith), ((omega arith, omega arith, omega arith), tt)),
    ((omega arith, omega arith), tt),
    (omega arith, ((omega arith, tt), ((omega arith, refl, omega arith), tt))),
  ),
  (omega arith, omega arith, omega arith),
)

IsQuery-more :
    IsQuery plain (codes "sqlite") (codes "SELECT") columns more_arguments keys more_indexes
unfolding bits word_number equal
IsQuery-more = (
  (omega arith, omega arith),
  (
    ((omega arith, tt, omega arith), ((omega arith, omega arith, omega arith), tt)),
    ((omega arith, omega arith), tt),
    (omega arith, ((omega arith, tt), ((omega arith, refl, omega arith), tt))),
  ),
  (omega arith, omega arith, omega arith),
)

preimage_inj_example :
    (codes "sqlite" ≡ codes "sqlite")
    × (codes "SELECT" ≡ codes "SELECT")
    × (columns ≡ columns)
    × (keys ≡ keys)
    × (named_by arguments indexes ≡ named_by more_arguments more_indexes)
unfolding preimage write_columns write_keys write_arguments write_value write_column_type
    write_field write_optional plain_name big_endian to_uint64
preimage_inj_example =
    preimage_inj plain (codes "sqlite") (codes "sqlite") (codes "SELECT") (codes "SELECT") columns
      columns arguments more_arguments keys keys indexes more_indexes {bytes = hashed}
      plain-TellsTimes is_query IsQuery-more refl refl

index_test :
    fingerprint
      (λ bs. bs)
      plain
      (codes "sqlite")
      (codes "SELECT")
      columns
      arguments
      keys
      (pos 3 ∷ [])
    ≡ err invalid_index
unfolding fingerprint preimage write_columns write_column_type write_arguments
index_test = refl
