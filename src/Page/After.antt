-- ===== src/Page/After.antt =====
-- page.go: `preparePageAfter` and `consumePreparedPage`. What compiles a query to SQL and what runs it
-- are functions of the predicate and of the most rows that are asked for.
pub mod Consumed
pub mod Rows
pub mod Walk
pub mod Served
pub mod Complete
use rasql.Prelude.{
  ℕ, zero, suc, ◌+◌, ◌-◌, Bool, true, false, not, ◌&&◌, ◌||◌, Option, none, some, List, [], ◌∷◌,
  ◌++◌, ◌==◌, if◌then◌else◌, length, get_elem?, Bytes, equal, Result, ok, err, ◌>>=◌, ◌>>◌, guard,
  or_else, ℤ, pos, negsuc, ltz,
}
use rasql.Page.{
  PageError, invalid_page_spec, codec_unavailable, fingerprint_mismatch, panic, PageKey,
}
use rasql.Page.Keyset.{
  DecodedCursor, KeysetPredicate, no_predicate, impossible, predicate, keyset_predicate,
}
use rasql.Page.Cursor.{
  CodecRegistry, cursor_codec_from, decode_page_cursor, next_cursor, with_reason,
}
use rasql.Graphkey.{TimeFormat}
use rasql.Pagekey.{ResultColumn, BindValue}
use rasql.Page.Fingerprint.{CompiledQuery, match_base_occurrences, page_fingerprint}
use rasql.Page.Spec.{PagePolicy, page_limit}

pub record PageRequest : Type 0 where
  pub limit : ℤ
  pub after : Bytes

pub record Page (R : Type 0) : Type 0 where
  pub values : List R
  pub next : Bytes
  pub has_more : Bool

-- A query, its compiler and its database: the statement of the ordered query, the statement of the
-- query under a predicate and a limit, the arguments of a statement that is prepared, and the rows
-- of a run, which may end in an error. With them stand the columns of the query, the name of the
-- executor's dialect, and what a fingerprint is made with: SHA-256 and the text of a time.
pub record PagedQuery (R : Type 0) : Type 0 where
  pub digest : Bytes → Bytes
  pub format : TimeFormat
  pub engine : Bytes
  pub columns : List ResultColumn
  pub compile_base : Result PageError CompiledQuery
  pub compile : KeysetPredicate R → ℤ → Result PageError CompiledQuery
  pub prepare : CompiledQuery → Result PageError (List BindValue)
  pub rows : KeysetPredicate R → ℤ → Result PageError (List (Result PageError R))

pub record PreparedPage (R : Type 0) : Type 0 where
  pub keyset : KeysetPredicate R
  pub page_size : ℤ
  pub fingerprint : Bytes

abbrev pub plus_one : ℤ → ℤ
plus_one (pos n) = pos (n + 1)
plus_one (negsuc zero) = pos 0
plus_one (negsuc (suc n)) = negsuc n

-- `n == limit`
abbrev pub is_size : ℤ → ℕ → Bool
is_size (pos limit) n = n == limit
is_size (negsuc limit) n = false

module _ {R : Type 0} where
  abbrev pub is_impossible : KeysetPredicate R → Bool
  is_impossible impossible = true
  is_impossible no_predicate = false
  is_impossible (predicate c) = false

  -- The loop that looks up the keys' codecs.
  unfoldable pub check_codecs : CodecRegistry → List (PageKey R) → Result PageError (Unit {0})
  check_codecs registry [] = ok tt
  check_codecs registry (key ∷ keys) =
      if equal key.codec []
      then check_codecs registry keys
      else (with_reason (λ _. codec_unavailable) (cursor_codec_from registry key.codec) >>= λ _.
          check_codecs registry keys)

  -- The cursor of a request, with the fingerprint in it, if the request has one.
  unfoldable pub decode_request :
      Bytes
      → List (PageKey R)
      → Result PageError CodecRegistry
      → Result PageError (List DecodedCursor × Bytes)
  decode_request after keys codecs =
      if equal after [] then ok ([], []) else decode_page_cursor after keys codecs

  -- From the limited query to its fingerprint, which is of the base's SQL and arguments.
  unfoldable pub paged_fingerprint :
      PagedQuery R
      → List (PageKey R)
      → CompiledQuery
      → KeysetPredicate R
      → ℤ
      → Result PageError Bytes
  paged_fingerprint query keys base keyset limit = do
    paged ← query.compile keyset limit
    indexes ← match_base_occurrences base paged
    arguments ← query.prepare paged
    page_fingerprint query.digest query.format query.engine base.sql query.columns arguments keys
        indexes

  -- The part behind the predicate: a page that no row can be on is not compiled.
  unfoldable pub prepare_keyset :
      PagedQuery R
      → List (PageKey R)
      → CompiledQuery
      → Bytes
      → Bytes
      → ℤ
      → KeysetPredicate R
      → Result PageError (PreparedPage R)
  prepare_keyset query keys base after cursor_fingerprint limit keyset =
      if is_impossible keyset
      then ok (record { keyset = keyset; page_size = limit; fingerprint = [] })
      else (paged_fingerprint query keys base keyset (plus_one limit) >>= λ fingerprint.
          guard (equal after [] || equal fingerprint cursor_fingerprint) fingerprint_mismatch
          >>= λ _. ok (record { keyset = keyset; page_size = limit; fingerprint = fingerprint }))

  -- The part behind the compilation of the ordered query.
  unfoldable pub prepare_behind :
      Result PageError CodecRegistry
      → PagedQuery R
      → List (PageKey R)
      → CompiledQuery
      → Bytes
      → ℤ
      → Result PageError (PreparedPage R)
  prepare_behind codecs query keys base after limit = do
    (decoded, cursor_fingerprint) ← decode_request after keys codecs
    keyset ← keyset_predicate keys decoded
    prepare_keyset query keys base after cursor_fingerprint limit keyset

  -- `preparePageAfter`
  unfoldable pub prepare_page_after :
      Result PageError CodecRegistry
      → PagedQuery R
      → List (PageKey R)
      → PagePolicy
      → PageRequest
      → Result PageError (PreparedPage R)
  prepare_page_after codecs query keys policy request = do
    guard (not (length keys == 0)) invalid_page_spec
    limit ← page_limit policy request.limit
    registry ← codecs
    check_codecs registry keys
    base ← query.compile_base
    prepare_behind codecs query keys base request.after limit

  -- The loop over the rows: the page's values, and whether a row is left over.
  unfoldable pub consume_rows :
      ℤ
      → (R → Bool → Result PageError (Unit {0}))
      → List R
      → List (Result PageError R)
      → Result PageError (List R × Bool)
  consume_rows limit callback values [] = ok (values, false)
  consume_rows limit callback values (err reason ∷ rows) = err reason
  consume_rows limit callback values (ok row ∷ rows) =
      let kept = ltz (pos (length values)) limit in
      let with_row = consume_rows limit callback (values ++ row ∷ []) rows in
      let without = consume_rows limit callback values rows in
      do
        callback row kept
        if kept
            then with_row
            else if is_size limit (length values)
            then ok (values, true)
            else without

  -- The page of the values, with a cursor if rows are left.
  unfoldable pub finish_page :
      Result PageError CodecRegistry
      → List (PageKey R)
      → Bytes
      → List R × Bool
      → Result PageError (Page R)
  finish_page codecs keys fingerprint (values, false) =
      ok (record { values = values; next = []; has_more = false })
  finish_page codecs keys fingerprint (values, true) = do
    last ← or_else panic (get_elem? values (length values - 1))
    next ← next_cursor fingerprint keys last codecs
    ok (record { values = values; next = next; has_more = true })

  -- `consumePreparedPage`
  unfoldable pub consume_prepared_page :
      Result PageError CodecRegistry
      → PagedQuery R
      → List (PageKey R)
      → (R → Bool → Result PageError (Unit {0}))
      → PreparedPage R
      → Result PageError (Page R)
  consume_prepared_page codecs query keys callback page =
      if is_impossible page.keyset
      then ok (record { values = []; next = []; has_more = false })
      else (query.rows page.keyset (plus_one page.page_size) >>= λ rows.
          consume_rows page.page_size callback [] rows >>= λ consumed.
          finish_page codecs keys page.fingerprint consumed)

  -- `PageAfter`
  unfoldable pub page_after :
      Result PageError CodecRegistry
      → PagedQuery R
      → List (PageKey R)
      → PagePolicy
      → PageRequest
      → Result PageError (Page R)
  page_after codecs query keys policy request = do
    page ← prepare_page_after codecs query keys policy request
    consume_prepared_page codecs query keys (λ _ _. ok tt) page
