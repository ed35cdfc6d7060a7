-- ===== src/Page/After/Served.antt =====
-- A query of page.go whose database serves its rows, and the page behind a cursor.
use rasql.Prelude.{
  ◌≡◌, ◌≢◌, refl, sym, ap, subst, ◌∙◌, ℕ, ◌+◌, ◌≤◌, Bool, true, false, ◌||◌, List, [], ◌∷◌, ◌++◌,
  ltb, ◌==◌, length, take, Bytes, equal, equal_self, All-of, ok, ◌>>=◌, ℤ, pos,
}
use rasql.Cursorcodec.Value.{GoValue}
use rasql.Cursorcodec.Envelope.Whole.{IsFingerprint}
use rasql.Page.{PageKey}
use rasql.Page.Keyset.{
  DecodedCursor, KeysetPredicate, no_predicate, impossible, predicate, keyset_predicate,
}
use rasql.Page.Keyset.Reading.{selects, row_after}
use rasql.Page.Keyset.Selects.{selects-keyset_predicate}
use rasql.Page.Cursor.{CodecRegistry, next_cursor}
use rasql.Page.Cursor.RoundTrip.{KeyValues, decode_page_cursor-next_cursor}
use rasql.Pagekey.{BindValue}
use rasql.Page.Fingerprint.{CompiledQuery}
use rasql.Page.Fingerprint.Matched.{IsPaged, own_fingerprint, page_fingerprint-own}
use rasql.Page.Spec.{PagePolicy, page_limit}
use rasql.Page.After.{
  PagedQuery, check_codecs, decode_request, paged_fingerprint, prepare_keyset, prepare_page_after,
  prepare_behind, finish_page, consume_prepared_page, page_after,
}
use rasql.Page.After.Consumed.{arrived, consume_rows-arrived}
use rasql.Page.After.Rows.{
  kept, kept_cong, kept_all, kept_none, kept_behind, node_values, length-node_values, one_more,
  nothing, IsOrdered,
}
use rasql.Page.After.Walk.{or_true, keyset_predicate_total, nonempty_cursor, nonzero, length_zero}

-- The query, its database and the client.
module _ {R : Type 0} (less same : GoValue → GoValue → Bool) (registry : CodecRegistry)
    (query : PagedQuery R) (keys : List (PageKey R)) (policy : PagePolicy) (requested : ℤ)
    (fingerprint : Bytes) (n : ℕ) (all : List R) where
  -- The query compiles, with the arguments `values` and a fingerprint of its own. Under each
  -- predicate and limit it compiles to some statement, whose slots and arguments have those of the
  -- query among them, in order, and others of other IDs. The database returns the first of its
  -- rows under the predicate, as many as are asked for, in order.
  pub record IsServed : Type 0 where
    pub base : CompiledQuery
    pub values : List BindValue
    pub compiled : query.compile_base ≡ ok base
    pub is_base :
        IsPaged query.digest query.format query.engine query.columns keys base values base values
    pub printed :
        own_fingerprint query.digest query.format query.engine query.columns keys base values
        ≡ ok fingerprint
    pub paged :
        (p : KeysetPredicate R) (limit : ℤ)
        → (statement : CompiledQuery) × (arguments : List BindValue) × (query.compile p limit
            ≡ ok statement)
          × (query.prepare statement ≡ ok arguments)
          × IsPaged query.digest query.format query.engine query.columns keys base values statement
              arguments
    pub serves :
        (p : KeysetPredicate R) (m : ℕ)
        → query.rows p (pos m) ≡ ok (arrived (take m (kept (selects less same p) all)))

  -- Every page has the query's fingerprint.
  paged_fingerprint-own :
      (served : IsServed) (p : KeysetPredicate R) (limit : ℤ)
      → paged_fingerprint query keys served.base p limit ≡ ok fingerprint
  unfolding paged_fingerprint
  paged_fingerprint-own served p limit =
      let (statement, arguments, compiles, prepared, is_paged) = served.paged p limit in
      let (indexes, matched, same) =
        page_fingerprint-own query.digest query.format query.engine query.columns keys served.base
          served.values statement arguments served.is_base is_paged in
      rw (compiles, matched, prepared) (same ∙ served.printed)

  -- The request is legal: there are keys, their codecs are there, and the page's limit is `n`.
  abbrev pub IsRequest : Type 0
  IsRequest =
      keys ≢ []
      × check_codecs registry keys ≡ ok tt
      × page_limit policy requested ≡ ok (pos n)
      × 1 ≤ n
      × IsFingerprint fingerprint

  -- Each row's values for the keys are what the database reads, read back from a cursor, and fit
  -- into one.
  abbrev pub HasCursor : R → Type 0
  HasCursor row =
      KeyValues registry keys row (node_values keys row)
      × ((cursor : Bytes) × next_cursor fingerprint keys row (ok registry) ≡ ok cursor)

  -- The request with this cursor is for these rows.
  abbrev pub StartsAt : Bytes → List R → Type 0
  StartsAt after rest =
      (decoded : List DecodedCursor × Bytes) × (p : KeysetPredicate R) × (decode_request after keys
          (ok registry)
        ≡ ok decoded)
      × (keyset_predicate keys decoded.0 ≡ ok p)
      × ((equal after [] || equal fingerprint decoded.1) ≡ true)
      × (kept (selects less same p) all ≡ rest)

  pub starts_first : StartsAt [] all
  unfolding decode_request keyset_predicate equal selects
  starts_first =
      (([], []), no_predicate, refl, refl, refl, kept_all _ all (All-of _ (λ row. refl) all))

  pub starts_next :
      (before rest : List R) (last : R) (cursor : Bytes)
      → all ≡ (before ++ (last ∷ rest))
      → IsRequest
      → IsOrdered less same keys all
      → KeyValues registry keys last (node_values keys last)
      → next_cursor fingerprint keys last (ok registry) ≡ ok cursor
      → StartsAt cursor rest
  unfolding decode_request
  starts_next before rest last cursor parts (some_key, _, _, _, prints) ordered values made =
      let read =
        decode_page_cursor-next_cursor registry fingerprint keys last (node_values keys last) prints
          values made in
      let (p, predicated) = keyset_predicate_total registry keys last values in
      let size = length-node_values keys last in
      let some_value : node_values keys last ≢ [] =
        λ e. some_key (length_zero keys (sym size ∙ ap length e)) in
      let behind : kept (selects less same p) all
          ≡ kept (row_after less same keys (node_values keys last)) all =
        kept_cong _ _ all λ row.
          selects-keyset_predicate less same keys (node_values keys last) row size some_value
            predicated in
      let split =
        kept_behind less same keys before rest last
          (subst (IsOrdered less same keys) parts ordered) in
      (
        (node_values keys last, fingerprint),
        p,
        rw (nonempty_cursor registry keys cursor read) read,
        predicated,
        rw (equal_self fingerprint) (or_true (equal cursor [])),
        behind ∙ ap (kept (row_after less same keys (node_values keys last))) parts ∙ split,
      )

  -- What is left of a request when its predicate is known.
  page_of_keyset :
      (after print : Bytes) (p : KeysetPredicate R) (rest : List R)
      → (served : IsServed) → (equal after [] || equal fingerprint print) ≡ true
      → kept (selects less same p) all ≡ rest
      → (prepare_keyset query keys served.base after print (pos n) p
          >>= consume_prepared_page (ok registry) query keys (λ _ _. ok tt))
        ≡ finish_page (ok registry) keys fingerprint (take n rest, ltb n (length rest))
  unfolding prepare_keyset consume_prepared_page selects finish_page
  page_of_keyset after print impossible rest served same_print behind =
      let none_left : [] ≡ rest = sym (kept_none all) ∙ behind in
      subst
        (λ rows.
          ok (record { values = []; next = []; has_more = false })
          ≡ finish_page (ok registry) keys fingerprint (take n rows, ltb n (length rows)))
        none_left (ap (finish_page (ok registry) keys fingerprint) (nothing n))
  page_of_keyset after print no_predicate rest served same_print behind =
      rw
        (
          paged_fingerprint-own served no_predicate (pos (n + 1)),
          same_print,
          served.serves no_predicate (n + 1),
          behind,
          consume_rows-arrived n (take (n + 1) rest),
        )
        (ap (finish_page (ok registry) keys fingerprint) (one_more n rest))
  page_of_keyset after print (predicate c) rest served same_print behind =
      rw
        (
          paged_fingerprint-own served (predicate c) (pos (n + 1)),
          same_print,
          served.serves (predicate c) (n + 1),
          behind,
          consume_rows-arrived n (take (n + 1) rest),
        )
        (ap (finish_page (ok registry) keys fingerprint) (one_more n rest))

  -- The page behind a cursor.
  pub page_after-rest :
      (after : Bytes) (rest : List R)
      → IsServed
      → IsRequest
      → StartsAt after rest
      → page_after (ok registry) query keys policy (record { limit = requested; after = after })
        ≡ finish_page (ok registry) keys fingerprint (take n rest, ltb n (length rest))
  unfolding page_after prepare_page_after prepare_behind
  page_after-rest after rest served (some_key, codecs, limited, _, _)
        ((decoded, print), p, read, predicated, same_print, behind) =
      let some_keys : (length keys == 0) ≡ false = nonzero keys some_key in
      rw (some_keys, limited, codecs)
        (ap
            (λ r.
              (r >>= λ base. prepare_behind (ok registry) query keys base after (pos n))
              >>= consume_prepared_page (ok registry) query keys (λ _ _. ok tt))
            served.compiled
          ∙ rw (read, predicated) (page_of_keyset after print p rest served same_print behind))
