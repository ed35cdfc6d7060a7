-- ===== src/Pagekey/Whole.antt =====
-- The fingerprints of internal/pagekey/fingerprint.go: what is hashed determines the query.
use rasql.Prelude.{
  ◌≡◌, sym, ◌∙◌, ℕ, ◌<◌, ◌^◌, List, [], ◌++◌, append_assoc, append-nil, length, All, Bytes, codes,
  ok, ok_inj, >>=-eq-ok, ℤ, arith,
}
use rasql.Cursorcodec.BigEndian.{big_endian, big_endian_inj, length-big_endian}
use rasql.Graphkey.{TimeFormat}
use rasql.Pagekey.{
  ResultColumn, KeyField, BindValue, write_field, write_uint_field, write_columns, write_arguments,
  preimage,
}
use rasql.Pagekey.Prefix.{IsText, write_field-Reads}
use rasql.Pagekey.Words.{TellsTimes}
use rasql.Pagekey.Injective.{
  IsColumn, IsKeyField, IsArgument, named_by, write_columns-prefix, write_keys-prefix,
  write_arguments-prefix,
}

-- A count behind its tag, in front of other bytes.
count_read :
    (tag : Bytes) (m n : ℕ) (x y : Bytes)
    → IsText tag
    → m < 2 ^ 64
    → n < 2 ^ 64
    → (write_uint_field tag m ++ x) ≡ (write_uint_field tag n ++ y)
    → (m ≡ n) × (x ≡ y)
count_read tag m n x y ht hm hn h =
    let (_, behind) = write_field-Reads tag tag _ _ ht ht (
      sym (append_assoc (write_field tag) (write_field (big_endian 8 m)) x)
      ∙ h
      ∙ append_assoc (write_field tag) (write_field (big_endian 8 n)) y) in
    let (words, rest) =
      write_field-Reads (big_endian 8 m) (big_endian 8 n) x y (omega (arith, length-big_endian 8 m))
        (omega (arith, length-big_endian 8 n)) behind in
    (big_endian_inj 8 m n hm hn words, rest)

-- The texts, types, values and counts of a query that Go can hold and a field can tell.
abbrev pub IsQuery :
    TimeFormat
    → Bytes
    → Bytes
    → List ResultColumn
    → List BindValue
    → List KeyField
    → List ℤ
    → Type 0
IsQuery format engine sql columns arguments keys indexes =
    (IsText engine × IsText sql)
    × (All IsColumn columns
        × All IsKeyField keys
        × All (IsArgument format) (named_by arguments indexes))
    × (length columns < 2 ^ 64 × length keys < 2 ^ 64 × length indexes < 2 ^ 64)

-- Two queries whose fingerprints hash the same bytes have the same engine, the same SQL text, the
-- same result columns, the same page keys and the same arguments at the indexes that count: if
-- different instants have different texts, no text has 2 ^ 32 bytes or more, and no other type is
-- named like one of the words that stand in front of the values of a driver.
pub preimage_inj :
    (format : TimeFormat) (engine engine' sql sql' : Bytes) (columns columns' : List ResultColumn)
    (arguments arguments' : List BindValue) (keys keys' : List KeyField) (indexes indexes' : List ℤ)
    {bytes : Bytes}
    → TellsTimes format
    → IsQuery format engine sql columns arguments keys indexes
    → IsQuery format engine' sql' columns' arguments' keys' indexes'
    → preimage format engine sql columns arguments keys indexes ≡ ok bytes
    → preimage format engine' sql' columns' arguments' keys' indexes' ≡ ok bytes
    → (engine ≡ engine')
      × (sql ≡ sql')
      × (columns ≡ columns')
      × (keys ≡ keys')
      × (named_by arguments indexes ≡ named_by arguments' indexes')
unfolding preimage
preimage_inj format engine engine' sql sql' columns columns' arguments arguments' keys keys' indexes
      indexes' times ((he, hs), (hc, hk, ha), (nc, nk, ni))
      ((he', hs'), (hc', hk', ha'), (nc', nk', ni')) ea eb =
    let (cs, columned, ea1) = >>=-eq-ok (write_columns columns) _ ea in
    let (vs, argued, ea2) = >>=-eq-ok (write_arguments format arguments indexes) _ ea1 in
    let (cs', columned', eb1) = >>=-eq-ok (write_columns columns') _ eb in
    let (vs', argued', eb2) = >>=-eq-ok (write_arguments format arguments' indexes') _ eb1 in
    let (_, h1) =
      write_field-Reads (codes "rasql-keyset-v1") (codes "rasql-keyset-v1") _ _ (omega arith)
        (omega arith) (ok_inj ea2 ∙ sym (ok_inj eb2)) in
    let (engines, h2) = write_field-Reads engine engine' _ _ he he' h1 in
    let (texts, h3) = write_field-Reads sql sql' _ _ hs hs' h2 in
    let (column_count, h4) =
      count_read (codes "column-count") (length columns) (length columns') _ _ (omega arith) nc nc'
        h3 in
    let (same_columns, h5) =
      write_columns-prefix columns columns' _ _ hc hc' column_count columned columned' h4 in
    let (key_count, h6) =
      count_read (codes "key-count") (length keys) (length keys') _ _ (omega arith) nk nk' h5 in
    let (same_keys, h7) = write_keys-prefix keys keys' _ _ hk hk' key_count h6 in
    let (argument_count, h8) =
      count_read (codes "argument-count") (length indexes) (length indexes') _ _ (omega arith) ni
        ni' h7 in
    let (same_arguments, _) =
      write_arguments-prefix format arguments arguments' indexes indexes' [] [] times ha ha'
        argument_count argued argued' (append-nil vs ∙ h8 ∙ sym (append-nil vs')) in
    (engines, texts, same_columns, same_keys, same_arguments)
