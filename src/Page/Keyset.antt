-- ===== src/Page/Keyset.antt =====
-- `keysetPredicate` of page.go, and what a database makes of the condition in SQL's three-valued
-- logic.
pub mod Reading
pub mod Selects
use rasql.Prelude.{
  Bool, true, false, not, ◌&&◌, ◌||◌, Option, none, some, List, [], ◌∷◌, ◌++◌, if◌then◌else◌,
  Result, ok, err, ◌>>=◌, ◌>>◌, guard,
}
use rasql.Cursorcodec.Value.{GoValue}
use rasql.Page.{
  PageDirection, page_ascending, page_descending, NullOrder, null_order_default, nulls_first,
  nulls_last, PageError, missing_non_null_value, panic, PageKey,
}

pub data Operator : Type 0 where
  operator_equal : Operator
  operator_greater_than : Operator
  operator_less_than : Operator

-- The part of query.Expression that a keyset predicate is built of.
mutual
  pub data Condition (R : Type 0) : Type 0 where
    is_null : (R → Option GoValue) → Condition R
    is_not_null : (R → Option GoValue) → Condition R
    compare : Operator → (R → Option GoValue) → GoValue → Condition R
    and_all : Conditions R → Condition R
    or_all : Conditions R → Condition R

  pub data Conditions (R : Type 0) : Type 0 where
    end : Conditions R
    also : Condition R → Conditions R → Conditions R

-- `decodedCursor`
abbrev pub DecodedCursor : Type 0
DecodedCursor = Option GoValue

abbrev pub is_present : DecodedCursor → Bool
is_present none = false
is_present (some v) = true

-- What the source returns: no predicate, the flag that no row can follow, or a predicate.
pub data KeysetPredicate (R : Type 0) : Type 0 where
  no_predicate : KeysetPredicate R
  impossible : KeysetPredicate R
  predicate : Condition R → KeysetPredicate R

module _ {R : Type 0} where
  abbrev pub conditions : List (Condition R) → Conditions R
  conditions [] = end
  conditions (c ∷ cs) = also c (conditions cs)

  -- The body of the inner loop, over a key in front of the current one.
  unfoldable pub prior_part : PageKey R → DecodedCursor → Condition R
  prior_part prior none = is_null prior.node
  prior_part prior (some v) =
      and_all (conditions (is_not_null prior.node ∷ compare operator_equal prior.node v ∷ []))

  -- The inner loop.
  unfoldable pub prior_parts : List (PageKey R × DecodedCursor) → List (Condition R)
  prior_parts [] = []
  prior_parts ((prior, c) ∷ priors) = prior_part prior c ∷ prior_parts priors

  abbrev pub comparison : PageDirection → (R → Option GoValue) → GoValue → Condition R
  comparison page_ascending node v = compare operator_greater_than node v
  comparison page_descending node v = compare operator_less_than node v

  -- `key.term.nulls == NullsFirst`, or the branch is not valid.
  abbrev pub when_nulls_first : NullOrder → Condition R → Option (Condition R)
  when_nulls_first nulls_first c = some c
  when_nulls_first nulls_last c = none
  when_nulls_first null_order_default c = none

  -- The test for NULL beside a condition, where `key.term.nulls == NullsLast`.
  abbrev pub with_nulls : NullOrder → (R → Option GoValue) → Condition R → Condition R
  with_nulls nulls_last node c = or_all (conditions (is_null node ∷ c ∷ []))
  with_nulls nulls_first node c = c
  with_nulls null_order_default node c = c

  -- The part of the current key, or that its branch is not valid.
  unfoldable pub part_of :
      NullOrder → PageDirection → (R → Option GoValue) → DecodedCursor → Option (Condition R)
  part_of nulls direction node none = when_nulls_first nulls (is_not_null node)
  part_of nulls direction node (some v) = some (
      with_nulls nulls node
        (and_all (conditions (is_not_null node ∷ comparison direction node v ∷ []))))

  abbrev pub current_part : PageKey R → DecodedCursor → Option (Condition R)
  current_part key c = part_of key.nulls key.direction key.node c

  -- `parts[0]`, or all parts together when there are more.
  unfoldable pub branch_of : List (Condition R) → Condition R
  branch_of (c ∷ []) = c
  branch_of cs = and_all (conditions cs)

  -- The branches with the one of the current key in front, if that is valid.
  abbrev pub with_branch :
      List (Condition R) → Option (Condition R) → List (Condition R) → List (Condition R)
  with_branch parts none rest = rest
  with_branch parts (some c) rest = branch_of (parts ++ c ∷ []) ∷ rest

  -- The outer loop, behind the keys that it has passed.
  unfoldable pub branches :
      List (PageKey R × DecodedCursor)
      → List (PageKey R)
      → List DecodedCursor
      → Result PageError (List (Condition R))
  branches prior [] cursors = ok []
  branches prior (key ∷ keys) [] = err panic
  branches prior (key ∷ keys) (c ∷ cursors) = do
    guard (is_present c || key.nullable) missing_non_null_value
    rest ← branches (prior ++ (key, c) ∷ []) keys cursors
    ok (with_branch (prior_parts prior) (current_part key c) rest)

  unfoldable pub joined : List (Condition R) → KeysetPredicate R
  joined [] = impossible
  joined (c ∷ []) = predicate c
  joined cs = predicate (or_all (conditions cs))

  -- `keysetPredicate`
  unfoldable pub keyset_predicate :
      List (PageKey R) → List DecodedCursor → Result PageError (KeysetPredicate R)
  keyset_predicate keys [] = ok no_predicate
  keyset_predicate keys (c ∷ cursors) = do cs ← branches [] keys (c ∷ cursors); ok (joined cs)
