-- ===== src/Page/Keyset/Reading.antt =====
-- A database's reading of a keyset predicate of page.go, and the order of the rows behind a cursor.
use rasql.Prelude.{Bool, true, false, not, ◌&&◌, ◌||◌, Option, none, some, List, ◌∷◌}
use rasql.Cursorcodec.Value.{GoValue}
use rasql.Page.{
  PageDirection, page_ascending, page_descending, NullOrder, null_order_default, nulls_first,
  nulls_last, PageKey,
}
use rasql.Page.Keyset.{
  Operator, operator_equal, operator_greater_than, operator_less_than, Condition, is_null,
  is_not_null, compare, and_all, or_all, Conditions, end, also, DecodedCursor, KeysetPredicate,
  no_predicate, impossible, predicate,
}

-- A truth value of SQL.
pub data Truth : Type 0 where
  holds : Truth
  fails : Truth
  unknown : Truth

abbrev pub truth : Bool → Truth
truth true = holds
truth false = fails

abbrev pub truth_and : Truth → Truth → Truth
truth_and holds t = t
truth_and fails t = fails
truth_and unknown fails = fails
truth_and unknown holds = unknown
truth_and unknown unknown = unknown

abbrev pub truth_or : Truth → Truth → Truth
truth_or fails t = t
truth_or holds t = holds
truth_or unknown holds = holds
truth_or unknown fails = unknown
truth_or unknown unknown = unknown

abbrev pub is_holds : Truth → Bool
is_holds holds = true
is_holds fails = false
is_holds unknown = false

abbrev pub is_nulls_first : NullOrder → Bool
is_nulls_first nulls_first = true
is_nulls_first nulls_last = false
is_nulls_first null_order_default = false

abbrev pub is_nulls_last : NullOrder → Bool
is_nulls_last nulls_last = true
is_nulls_last nulls_first = false
is_nulls_last null_order_default = false

abbrev pub is_none : Option GoValue → Bool
is_none none = true
is_none (some v) = false

-- `less` and `same` are how the database compares two values that are not NULL.
module _ (less same : GoValue → GoValue → Bool) where
  -- A comparison with NULL is unknown.
  unfoldable pub compared : Operator → Option GoValue → GoValue → Truth
  compared operator none v = unknown
  compared operator_equal (some u) v = truth (same u v)
  compared operator_greater_than (some u) v = truth (less v u)
  compared operator_less_than (some u) v = truth (less u v)

  -- Where `ORDER BY` puts a value against the cursor's, for one key: behind it.
  unfoldable pub order_after : NullOrder → PageDirection → DecodedCursor → Option GoValue → Bool
  order_after nulls direction none none = false
  order_after nulls direction none (some v) = is_nulls_first nulls
  order_after nulls direction (some v) none = is_nulls_last nulls
  order_after nulls page_ascending (some u) (some v) = less u v
  order_after nulls page_descending (some u) (some v) = less v u

  -- ... or at the same place.
  unfoldable pub key_ties : DecodedCursor → Option GoValue → Bool
  key_ties none none = true
  key_ties none (some v) = false
  key_ties (some u) none = false
  key_ties (some u) (some v) = same v u

module _ {R : Type 0} (less same : GoValue → GoValue → Bool) where
  unfoldable mutual
    pub evaluate : Condition R → R → Truth
    evaluate (is_null node) row = truth (is_none (node row))
    evaluate (is_not_null node) row = truth (not (is_none (node row)))
    evaluate (compare operator node v) row = compared less same operator (node row) v
    evaluate (and_all cs) row = evaluate_all cs row
    evaluate (or_all cs) row = evaluate_any cs row

    pub evaluate_all : Conditions R → R → Truth
    evaluate_all end row = holds
    evaluate_all (also c cs) row = truth_and (evaluate c row) (evaluate_all cs row)

    pub evaluate_any : Conditions R → R → Truth
    evaluate_any end row = fails
    evaluate_any (also c cs) row = truth_or (evaluate c row) (evaluate_any cs row)

  -- The rows that `WHERE` keeps.
  unfoldable pub selects : KeysetPredicate R → R → Bool
  unfolding evaluate
  selects no_predicate row = true
  selects impossible row = false
  selects (predicate c) row = is_holds (evaluate c row)

  abbrev pub key_after : PageKey R → DecodedCursor → R → Bool
  key_after key c row = order_after less same key.nulls key.direction c (key.node row)

  -- The rows that `ORDER BY` puts behind the cursor: behind it by the first key that does not tie.
  unfoldable pub row_after : List (PageKey R) → List DecodedCursor → R → Bool
  row_after (key ∷ keys) (c ∷ cursors) row =
      key_after key c row || (key_ties less same c (key.node row) && row_after keys cursors row)
  row_after keys cursors row = false
