-- ===== src/Pagekey/Words.antt =====
-- The words in front of the bound arguments that internal/pagekey/fingerprint.go writes.
use rasql.Prelude.{
  ◌≡◌, refl, sym, ℕ, ◌<◌, ◌^◌, true, false, [], ◌∷◌, ◌++◌, Bytes, codes, equal, if◌then◌else◌, ok,
  ok_inj, >>=-eq-ok, ℤ, arith,
}
use rasql.Cursorcodec.BigEndian.{big_endian}
use rasql.Cursorcodec.Value.{w64, to_uint64}
use rasql.Cursorcodec.Value.RoundTrip.{InRange}
use rasql.Graphkey.{TimeFormat}
use rasql.Pagekey.{
  BindValue, named_value, nil_value, int64_value, float64_value, bool_value, string_value,
  bytes_value, time_value, kind_value, other_value, write_field, write_value,
}
use rasql.Pagekey.Prefix.{IsText}

-- The number of the word that a value's bytes begin with; 8 for the name of another type.
unfoldable pub word_number : Bytes → ℕ
word_number word =
    if equal word (codes "nil")
    then 0
    else if equal word (codes "int64")
    then 1
    else if equal word (codes "float64")
    then 2
    else if equal word (codes "bool")
    then 3
    else if equal word (codes "string")
    then 4
    else if equal word (codes "bytes")
    then 5
    else if equal word (codes "time")
    then 6
    else if equal word (codes "named")
    then 7
    else 8

-- The values of Go's types, with texts that a field can hold; another type is not named like one of
-- the words.
abbrev pub IsBindValue : TimeFormat → BindValue → Type 0
IsBindValue format (named_value name v) = IsText name × IsBindValue format v
IsBindValue format nil_value = Unit
IsBindValue format (int64_value v) = InRange w64 v
IsBindValue format (float64_value v) = v < 2 ^ 64
IsBindValue format (bool_value b) = Unit
IsBindValue format (string_value v) = IsText v
IsBindValue format (bytes_value v) = IsText v
IsBindValue format (time_value seconds nanos) = IsText (format seconds nanos)
IsBindValue format (kind_value type_name v) =
    IsText type_name × word_number type_name ≡ 8 × v < 2 ^ 64
IsBindValue format other_value = ⊥

-- Different instants have different texts.
abbrev pub TellsTimes : TimeFormat → Type 0
TellsTimes format = (s t : ℤ) (m n : ℕ) → format s m ≡ format t n → time_value s m ≡ time_value t n

abbrev pub word_of : BindValue → Bytes
word_of (named_value name v) = codes "named"
word_of nil_value = codes "nil"
word_of (int64_value v) = codes "int64"
word_of (float64_value v) = codes "float64"
word_of (bool_value b) = codes "bool"
word_of (string_value v) = codes "string"
word_of (bytes_value v) = codes "bytes"
word_of (time_value seconds nanos) = codes "time"
word_of (kind_value type_name v) = type_name
word_of other_value = []

abbrev pub number_of : BindValue → ℕ
number_of nil_value = 0
number_of (int64_value v) = 1
number_of (float64_value v) = 2
number_of (bool_value b) = 3
number_of (string_value v) = 4
number_of (bytes_value v) = 5
number_of (time_value seconds nanos) = 6
number_of (named_value name v) = 7
number_of (kind_value type_name v) = 8
number_of other_value = 8

pub word_number-word_of :
    (format : TimeFormat) (v : BindValue)
    → IsBindValue format v
    → word_number (word_of v) ≡ number_of v
unfolding word_number equal
word_number-word_of format (named_value name v) h = refl
word_number-word_of format nil_value h = refl
word_number-word_of format (int64_value v) h = refl
word_number-word_of format (float64_value v) h = refl
word_number-word_of format (bool_value b) h = refl
word_number-word_of format (string_value v) h = refl
word_number-word_of format (bytes_value v) h = refl
word_number-word_of format (time_value seconds nanos) h = refl
word_number-word_of format (kind_value type_name v) (_, h, _) = h
word_number-word_of format other_value h = absurd h

pub word_of-IsText :
    (format : TimeFormat) (v : BindValue) → IsBindValue format v → IsText (word_of v)
word_of-IsText format (named_value name v) h = omega arith
word_of-IsText format nil_value h = omega arith
word_of-IsText format (int64_value v) h = omega arith
word_of-IsText format (float64_value v) h = omega arith
word_of-IsText format (bool_value b) h = omega arith
word_of-IsText format (string_value v) h = omega arith
word_of-IsText format (bytes_value v) h = omega arith
word_of-IsText format (time_value seconds nanos) h = omega arith
word_of-IsText format (kind_value type_name v) (h, _, _) = h
word_of-IsText format other_value h = absurd h

-- What is written behind the word.
abbrev pub IsWritten : TimeFormat → BindValue → Bytes → Type 0
IsWritten format (named_value name v) body =
    (rest : Bytes) × write_value format v ≡ ok rest × body ≡ (write_field name ++ rest)
IsWritten format nil_value body = body ≡ []
IsWritten format (int64_value v) body = body ≡ big_endian 8 (to_uint64 v)
IsWritten format (float64_value v) body = body ≡ big_endian 8 v
IsWritten format (bool_value true) body = body ≡ (1 ∷ [])
IsWritten format (bool_value false) body = body ≡ (0 ∷ [])
IsWritten format (string_value v) body = body ≡ write_field v
IsWritten format (bytes_value v) body = body ≡ write_field v
IsWritten format (time_value seconds nanos) body = body ≡ write_field (format seconds nanos)
IsWritten format (kind_value type_name v) body = body ≡ big_endian 8 v
IsWritten format other_value body = ⊥

pub write_value-eq-ok :
    (format : TimeFormat) (v : BindValue) {bytes : Bytes}
    → write_value format v ≡ ok bytes
    → (body : Bytes) × bytes ≡ (write_field (word_of v) ++ body) × IsWritten format v body
unfolding write_value
write_value-eq-ok format (named_value name v) h =
    let (rest, written, h1) = >>=-eq-ok (write_value format v) _ h in
    (write_field name ++ rest, sym (ok_inj h1), (rest, written, refl))
write_value-eq-ok format nil_value h = ([], sym (ok_inj h), refl)
write_value-eq-ok format (int64_value v) h = (_, sym (ok_inj h), refl)
write_value-eq-ok format (float64_value v) h = (_, sym (ok_inj h), refl)
write_value-eq-ok format (bool_value true) h = (_, sym (ok_inj h), refl)
write_value-eq-ok format (bool_value false) h = (_, sym (ok_inj h), refl)
write_value-eq-ok format (string_value v) h = (_, sym (ok_inj h), refl)
write_value-eq-ok format (bytes_value v) h = (_, sym (ok_inj h), refl)
write_value-eq-ok format (time_value seconds nanos) h = (_, sym (ok_inj h), refl)
write_value-eq-ok format (kind_value type_name v) h = (_, sym (ok_inj h), refl)
write_value-eq-ok format other_value h = absurd cc
