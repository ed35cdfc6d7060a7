-- ===== src/Page/Tests.antt =====
-- Runs of the model of cursor.go and page.go, and its theorems at concrete rows.
use rasql.Prelude.{
  ◌≡◌, refl, ℕ, zero, suc, ◌≤◌, Bool, true, false, Option, none, some, List, [], ◌∷◌, ◌+◌, ◌<◌, ◌^◌,
  ◌%◌, ◌==◌, take, equal, All, Bytes, codes, Result, ok, err, ℤ, pos, negsuc, ltz, arith,
}
use rasql.Cursorcodec.BigEndian.{IsBytes, big_endian}
use rasql.Cursorcodec.Value.{GoValue, int_value, int_type, w64, encode_value}
use rasql.Cursorcodec.Value.RoundTrip.{refused}
use rasql.Page.{
  page_ascending, page_descending, null_order_default, PageError, PageKey, codec_unavailable,
  fingerprint_error,
}
use rasql.Page.Keyset.{DecodedCursor, KeysetPredicate, impossible, branches, keyset_predicate}
use rasql.Page.Keyset.Reading.{selects, row_after, order_after, key_ties}
use rasql.Pagekey.{
  ResultColumn, BindValue, int64_value, plain_type, opaque_kind, fingerprint, preimage,
  write_columns, write_column_type, write_arguments, write_value, write_field, write_keys,
  plain_name,
}
use rasql.Page.Fingerprint.{
  CompiledQuery, find_slot, match_slots, match_base_occurrences, page_fingerprint,
  page_fingerprint_fields,
}
use rasql.Page.Fingerprint.Matched.{kept, ended}
use rasql.Page.After.Served.{IsServed, IsRequest, HasCursor}
use rasql.Page.After.{check_codecs, prepare_page_after}
use rasql.Cursorcodec.Base64.{encode_to_string, char_of}
use rasql.Cursorcodec.Envelope.{encode_envelope, encode_bytes, encode_fields, encode_field}
use rasql.Cursorcodec.Envelope.Whole.{IsFingerprint}
use rasql.Page.Cursor.{
  with_reason, cursor_codec_from, cursor_values, encode_page_value, page_key_fields,
}
use rasql.Cursorcodec.Value.{bits, flip_top, to_uint64}
use rasql.Page.Keyset.Selects.{selects-keyset_predicate}
use rasql.Page.Cursor.{CodecRegistry, next_cursor, decode_page_cursor}
use rasql.Page.Cursor.RoundTrip.{KeyValues, ReadsBack-builtin, decode_page_cursor-next_cursor}
use rasql.Page.Spec.{PagePolicy, page_limit, order_keys, suffix_keys, new_page_spec}
use rasql.Page.Spec.Laws.{IsPageSpec, page_limit-bounds, new_page_spec-eq-ok}
use rasql.Page.After.{PagedQuery, page_after}
use rasql.Page.After.Consumed.{arrived}
use rasql.Page.After.Rows
use rasql.Page.After.Rows.{IsOrdered}
use rasql.Page.After.Walk.{all_pages}
use rasql.Page.After.Complete.{all_pages_complete}

-- A row of this table is its identifier.
abbrev id_of : ℕ → Option GoValue
id_of row = some (int_value (pos row))

abbrev id_key : PageKey ℕ
id_key = record {
  address = 1;
  has_node = true;
  node = id_of;
  nulls = null_order_default;
  direction = page_descending;
  nullable = false;
  codec = [];
  source = codes "t.id";
  typ = int_type w64;
  extract = λ row. ok (id_of row);
}

abbrev no_codecs : CodecRegistry
no_codecs id = none

abbrev int_less : GoValue → GoValue → Bool
int_less (int_value a) (int_value b) = ltz a b
int_less _ _ = false

abbrev int_same : GoValue → GoValue → Bool
int_same (int_value (pos a)) (int_value (pos b)) = a == b
int_same _ _ = false

abbrev table : List ℕ
table = 9 ∷ 5 ∷ 2 ∷ []

abbrev zeros : ℕ → Bytes
zeros zero = []
zeros (suc n) = 0 ∷ zeros n

abbrev or_nothing : Result PageError Bytes → Bytes
or_nothing (err reason) = []
or_nothing (ok bytes) = bytes

-- What stands for SHA-256 here: the bytes' sum, filled up to 32 bytes.
abbrev total : Bytes → ℕ
total [] = 0
total (b ∷ bytes) = b + total bytes

abbrev short_digest : Bytes → Bytes
short_digest bytes = total bytes % 256 ∷ zeros 31

abbrev id_column : ResultColumn
id_column = record {
  name = codes "id";
  column_type = plain_type opaque_kind;
  codec = [];
  nullable = false;
}

-- The query has one argument, and a page's statement the limit beside it.
abbrev base_query : CompiledQuery
base_query = record {
  sql = codes "SELECT id FROM t WHERE a > ?";
  argument_count = 1;
  slots = record { bind_id = 1; codec = [] } ∷ [];
}

abbrev limited_query : CompiledQuery
limited_query = record {
  sql = codes "SELECT id FROM t WHERE a > ? LIMIT ?";
  argument_count = 2;
  slots = record { bind_id = 1; codec = [] } ∷ record { bind_id = 2; codec = [] } ∷ [];
}

abbrev base_values : List BindValue
base_values = int64_value (pos 7) ∷ []

abbrev limited_values : List BindValue
limited_values = int64_value (pos 7) ∷ int64_value (pos 3) ∷ []

abbrev rows_for : KeysetPredicate ℕ → ℤ → Result PageError (List (Result PageError ℕ))
rows_for p (pos m) = ok (arrived (take m (Rows.kept (selects int_less int_same p) table)))
rows_for p (negsuc m) = ok []

abbrev table_query : PagedQuery ℕ
table_query = record {
  digest = short_digest;
  format = λ seconds nanos. [];
  engine = codes "sqlite";
  columns = id_column ∷ [];
  compile_base = ok base_query;
  compile = λ _ _. ok limited_query;
  prepare = λ _. ok limited_values;
  rows = rows_for;
}

abbrev policy : PagePolicy
policy = record { default_limit = pos 2; max_limit = pos 3 }

abbrev keys : List (PageKey ℕ)
keys = id_key ∷ []

abbrev print : Bytes
print = short_digest (
    or_nothing (
      with_reason fingerprint_error (
        preimage table_query.format table_query.engine base_query.sql table_query.columns
          base_values (page_fingerprint_fields keys) (pos 0 ∷ []))))

abbrev values_of : ℕ → List DecodedCursor
values_of row = some (int_value (pos row)) ∷ []

-- The row's values are read back from a cursor.
row_values : (row : ℕ) → row < 2 ^ 63 → KeyValues no_codecs keys row (values_of row)
unfolding refused bits
row_values row h =
    (refl, tt, ReadsBack-builtin no_codecs id_key (int_value (pos row)) refl h refl tt, tt)

abbrev cursor_for : ℕ → Bytes
cursor_for row = or_nothing (next_cursor print keys row (ok no_codecs))

has_cursor :
    (row : ℕ)
    → next_cursor print keys row (ok no_codecs) ≡ ok (cursor_for row)
    → row < 2 ^ 63
    → HasCursor int_less int_same no_codecs table_query keys policy (pos 0) print 2 table row
has_cursor row made h = (row_values row h, (cursor_for row, made))

cursor_made : next_cursor print keys 5 (ok no_codecs) ≡ ok (cursor_for 5)
unfolding next_cursor cursor_values encode_page_value encode_value big_endian flip_top to_uint64
    page_key_fields encode_envelope encode_bytes encode_fields encode_field encode_to_string char_of
    equal
cursor_made = refl

cursors :
    All (HasCursor int_less int_same no_codecs table_query keys policy (pos 0) print 2 table) table
unfolding next_cursor cursor_values encode_page_value encode_value big_endian flip_top to_uint64
    page_key_fields encode_envelope encode_bytes encode_fields encode_field encode_to_string char_of
    equal
cursors = (
  has_cursor 9 refl (omega arith),
  (has_cursor 5 refl (omega arith), (has_cursor 2 refl (omega arith), tt)),
)

served : IsServed int_less int_same no_codecs table_query keys policy (pos 0) print 2 table
unfolding match_base_occurrences match_slots find_slot page_fingerprint fingerprint equal preimage
    write_columns write_column_type write_arguments write_value write_field write_keys
    page_fingerprint_fields plain_name big_endian to_uint64
served = record {
  base = base_query;
  values = base_values;
  compiled = refl;
  is_base = record {
    counted = refl;
    extends = kept _ (int64_value (pos 7)) [] [] [] [] refl (ended [] []);
  };
  printed = refl;
  paged = λ p limit. (
    limited_query,
    limited_values,
    refl,
    refl,
    record { counted = refl; extends = kept _ (int64_value (pos 7)) [] [] _ _ refl (ended _ _) },
  );
  serves = λ p m. refl;
}

zeros-IsBytes : (n : ℕ) → IsBytes (zeros n)
zeros-IsBytes zero = tt
zeros-IsBytes (suc n) = (omega arith, zeros-IsBytes n)

is_print : IsFingerprint print
is_print = (refl, (omega arith, zeros-IsBytes 31))

request : IsRequest int_less int_same no_codecs table_query keys policy (pos 0) print 2 table
unfolding check_codecs page_limit equal
request = ((λ e. absurd cc), refl, refl, omega arith, is_print)

ordered : IsOrdered int_less int_same keys table
unfolding row_after order_after key_ties
ordered = (refl, ((refl, refl), ((refl, refl), tt)), (refl, ((refl, refl), tt), (refl, tt, tt)))

all_pages_complete_example :
    all_pages (ok no_codecs) table_query keys policy (pos 0) 4 [] ≡ some table
all_pages_complete_example =
    all_pages_complete int_less int_same no_codecs table_query keys policy (pos 0) print 2 table 3
      served request ordered cursors (omega arith)

abbrev read : Result PageError (KeysetPredicate ℕ) → KeysetPredicate ℕ
read (err reason) = impossible
read (ok p) = p

selects-keyset_predicate_example :
    selects int_less int_same (read (keyset_predicate keys (values_of 5))) 2
    ≡ row_after int_less int_same keys (values_of 5) 2
unfolding keyset_predicate branches
selects-keyset_predicate_example =
    selects-keyset_predicate int_less int_same keys (values_of 5) 2 refl (λ e. absurd cc) refl

decode_page_cursor-next_cursor_example :
    decode_page_cursor (cursor_for 5) keys (ok no_codecs) ≡ ok (values_of 5, print)
decode_page_cursor-next_cursor_example =
    decode_page_cursor-next_cursor no_codecs print keys 5 (values_of 5) is_print
      (row_values 5 (omega arith)) cursor_made

page_limit-bounds_example :
    (n : ℕ) × pos 2 ≡ pos n × 1 ≤ n × ltz (pos 3) (pos n) ≡ false × n + 1 < 2 ^ 63
unfolding page_limit
page_limit-bounds_example = page_limit-bounds policy (pos 0) refl

new_page_spec-eq-ok_example : IsPageSpec (some id_key ∷ []) (some id_key ∷ []) (keys, keys)
unfolding new_page_spec order_keys suffix_keys
new_page_spec-eq-ok_example = new_page_spec-eq-ok (some id_key ∷ []) (some id_key ∷ []) refl

no_codec_test :
    page_after
      (ok no_codecs)
      table_query
      ((record {
        address = 1;
        has_node = true;
        node = id_of;
        nulls = null_order_default;
        direction = page_ascending;
        nullable = false;
        codec = codes "money";
        source = codes "t.id";
        typ = int_type w64;
        extract = λ row. ok (id_of row);
      })
        ∷ [])
      policy
      (record { limit = pos 2; after = [] })
    ≡ err codec_unavailable
unfolding page_after page_limit equal prepare_page_after check_codecs cursor_codec_from
no_codec_test = refl
