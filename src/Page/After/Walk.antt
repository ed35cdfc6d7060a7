-- ===== src/Page/After/Walk.antt =====
-- Pages of page.go one after another, each behind the cursor of the one before.
use rasql.Prelude.{
  ◌≡◌, ◌≢◌, refl, sym, subst, ℕ, zero, suc, ◌-◌, ◌≤◌, Bool, true, false, ◌||◌, if◌then◌else◌,
  Option, none, some, List, [], ◌∷◌, ◌++◌, ltb, ◌==◌, length, length-take_le, take, drop, Bytes,
  equal, and_then, Result, ok, err, ◌>>=◌, ℤ, arith,
}
use rasql.Cursorcodec.Envelope.{decode_envelope, decode_bytes, slice}
use rasql.Cursorcodec.Base64.{decode_string, without_line_ends, digits_of, bytes_of}
use rasql.Page.{PageError, PageKey}
use rasql.Page.Keyset.{
  DecodedCursor, is_present, KeysetPredicate, no_predicate, branches, keyset_predicate, joined,
  with_branch, prior_parts, current_part, Condition,
}
use rasql.Page.Cursor.{CodecRegistry, decode_page_cursor, next_cursor}
use rasql.Page.Cursor.RoundTrip.{KeyValues, ReadsBack}
use rasql.Page.Spec.{PagePolicy}
use rasql.Page.After.{Page, PagedQuery, finish_page, page_after}
use rasql.Page.After.Rows.{node_values, last_of}

pub not_ltb : (m n : ℕ) → ltb m n ≡ false → n ≤ m
not_ltb m n h = ground arith

pub or_true : (b : Bool) → (b || true) ≡ true
or_true true = refl
or_true false = refl

-- The values of a page, and of those behind its cursor if there are more; none where a page ends
-- in an error.
abbrev pub followed :
    {R : Type 0} → Result PageError (Page R) → (Bytes → Option (List R)) → Option (List R)
followed (err reason) next_pages = none
followed (ok page) next_pages =
    if page.has_more
    then and_then (next_pages page.next) (λ rest. some (page.values ++ rest))
    else some page.values

module _ {R : Type 0} where
  -- A client that asks for page after page, `fuel` at most.
  unfoldable pub all_pages :
      Result PageError CodecRegistry
      → PagedQuery R
      → List (PageKey R)
      → PagePolicy
      → ℤ
      → ℕ
      → Bytes
      → Option (List R)
  all_pages codecs query keys policy limit zero after = none
  all_pages codecs query keys policy limit (suc fuel) after =
      followed (page_after codecs query keys policy (record { limit = limit; after = after }))
        (λ next. all_pages codecs query keys policy limit fuel next)

  pub length_zero : (keys : List (PageKey R)) → length keys ≡ 0 → keys ≡ []
  length_zero [] e = refl
  length_zero (key ∷ keys) e = absurd (omega arith)

  pub nonzero : (keys : List (PageKey R)) → keys ≢ [] → (length keys == 0) ≡ false
  nonzero [] h = absurd (h refl)
  nonzero (key ∷ keys) h = ground arith

  -- A text that decodes as a cursor is not empty.
  pub nonempty_cursor :
      (registry : CodecRegistry) (keys : List (PageKey R)) (cursor : Bytes)
      {read : List DecodedCursor × Bytes}
      → decode_page_cursor cursor keys (ok registry) ≡ ok read
      → equal cursor [] ≡ false
  unfolding decode_page_cursor equal decode_envelope decode_bytes slice decode_string
      without_line_ends digits_of bytes_of
  nonempty_cursor registry keys [] h = absurd cc
  nonempty_cursor registry keys (c ∷ cursor) h = refl

  -- The cursor of a page that is not the last.
  pub finish_page-more :
      (codecs : Result PageError CodecRegistry) (keys : List (PageKey R)) (fingerprint : Bytes)
      (n : ℕ) (rest : List R)
      → 1 ≤ n
      → suc n ≤ length rest
      → (last : R) × (finish_page codecs keys fingerprint (take n rest, true) ≡ (
          next_cursor fingerprint keys last codecs >>= λ next.
          ok (record { values = take n rest; next = next; has_more = true })))
        × (rest ≡ (take (n - 1) rest ++ (last ∷ drop n rest)))
  unfolding finish_page
  finish_page-more codecs keys fingerprint zero rest positive room = absurd (omega arith)
  finish_page-more codecs keys fingerprint (suc m) rest positive room =
      let (last, got, parts) = last_of m rest (omega arith) in
      let size : (length (take (suc m) rest) - 1) ≡ m =
        omega (arith, length-take_le (suc m) rest (omega arith)) in
      let same : (suc m - 1) ≡ m = omega arith in
      (
        last,
        rw (size, got) refl,
        subst (λ k. rest ≡ (take k rest ++ (last ∷ drop (suc m) rest))) (sym same) parts,
      )

  branches_total :
      (registry : CodecRegistry) (priors : List (PageKey R × DecodedCursor))
      (keys : List (PageKey R)) (row : R)
      → KeyValues registry keys row (node_values keys row)
      → (cs : List (Condition R)) × branches priors keys (node_values keys row) ≡ ok cs
  unfolding branches
  branches_total registry priors [] row _ = ([], refl)
  branches_total registry priors (key ∷ keys) row (_, _, back, rest) =
      let (cs, later) =
        branches_total registry (priors ++ (key, key.node row) ∷ []) keys row rest in
      let checked = reads_back key (key.node row) back in
      (
        with_branch (prior_parts priors) (current_part key (key.node row)) cs,
        rw (checked, later) refl,
      )
    where
      reads_back :
          (key : PageKey R) (c : DecodedCursor)
          → ReadsBack registry key c
          → (is_present c || key.nullable) ≡ true
      reads_back key none h = h
      reads_back key (some v) h = refl

  pub keyset_predicate_total :
      (registry : CodecRegistry) (keys : List (PageKey R)) (row : R)
      → KeyValues registry keys row (node_values keys row)
      → (p : KeysetPredicate R) × keyset_predicate keys (node_values keys row) ≡ ok p
  unfolding keyset_predicate
  keyset_predicate_total registry [] row _ = (no_predicate, refl)
  keyset_predicate_total registry (key ∷ keys) row h =
      let (cs, looped) = branches_total registry [] (key ∷ keys) row h in
      (joined cs, rw looped refl)
