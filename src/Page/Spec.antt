-- ===== src/Page/Spec.antt =====
-- cursor.go and page.go: page specs, and the limit of a page. An item of a spec is `none` where the
-- source finds no valid page key in it.
pub mod Laws
use rasql.Prelude.{
  ℕ, zero, suc, ◌+◌, ◌-◌, ◌^◌, Bool, true, false, not, ◌&&◌, ◌||◌, Option, none, some, List, [],
  ◌∷◌, ltb, ◌==◌, length, get_elem?, if◌then◌else◌, Result, ok, err, ◌>>=◌, ◌>>◌, guard, or_else, ℤ,
  pos, negsuc, ltz, is_zero,
}
use rasql.Page.{
  NullOrder, null_order_default, nulls_first, nulls_last, PageError, invalid_page_spec,
  order_not_unique, invalid_page_policy, invalid_page_limit, panic, PageKey,
}

abbrev pub is_default : NullOrder → Bool
is_default null_order_default = true
is_default nulls_first = false
is_default nulls_last = false

pub record PagePolicy : Type 0 where
  pub default_limit : ℤ
  pub max_limit : ℤ

abbrev pub default_page_policy : PagePolicy
default_page_policy = record { default_limit = pos 50; max_limit = pos 1000 }

abbrev max_int : ℕ
max_int = 2 ^ 63 - 1

abbrev pub in_force : PagePolicy → PagePolicy
in_force policy =
    if is_zero policy.default_limit && is_zero policy.max_limit then default_page_policy else policy

abbrev pub is_policy : PagePolicy → Bool
is_policy policy = not (
    ltz policy.default_limit (pos 1)
    || ltz policy.max_limit policy.default_limit
    || ltz (pos (max_int - 1)) policy.max_limit)

abbrev pub is_limit : PagePolicy → ℤ → Bool
is_limit policy limit = not (ltz limit (pos 0) || ltz policy.max_limit limit)

-- The limit of a request, or the default when it has none.
abbrev pub chosen : ℤ → ℤ → ℤ
chosen requested default = if is_zero requested then default else requested

-- `preparePageAfter`: the limit, from the policy and the request.
unfoldable pub page_limit : PagePolicy → ℤ → Result PageError ℤ
page_limit given requested = do
  let policy = in_force given
  guard (is_policy policy) invalid_page_policy
  let limit = chosen requested policy.default_limit
  guard (is_limit policy limit) invalid_page_limit
  ok limit

module _ {R : Type 0} where
  -- The loop over the keys of the order.
  unfoldable pub order_keys : List (Option (PageKey R)) → Result PageError (List (PageKey R))
  order_keys [] = ok []
  order_keys (item ∷ items) = do
    key ← or_else invalid_page_spec item
    guard key.has_node invalid_page_spec
    guard (not (key.nullable && is_default key.nulls)) invalid_page_spec
    keys ← order_keys items
    ok (key ∷ keys)

  -- The loop over the suffix, of `size` keys, from its key number `i` on.
  unfoldable pub suffix_keys :
      List (PageKey R) → ℕ → ℕ → List (Option (PageKey R)) → Result PageError (List (PageKey R))
  suffix_keys keys size i [] = ok []
  suffix_keys keys size i (item ∷ items) = do
    key ← or_else invalid_page_spec item
    guard (not (ltb (length keys + i) size)) order_not_unique
    found ← or_else panic (get_elem? keys (length keys + i - size))
    guard (found.address == key.address) order_not_unique
    suffix ← suffix_keys keys size (i + 1) items
    ok (key ∷ suffix)

  -- `NewPageSpec`: the keys and the suffix.
  unfoldable pub new_page_spec :
      List (Option (PageKey R))
      → List (Option (PageKey R))
      → Result PageError (List (PageKey R) × List (PageKey R))
  new_page_spec order unique_suffix = do
    guard (not (length order == 0)) invalid_page_spec
    guard (not (length unique_suffix == 0)) order_not_unique
    guard (not (ltb 255 (length order))) invalid_page_spec
    keys ← order_keys order
    suffix ← suffix_keys keys (length unique_suffix) 0 unique_suffix
    ok (keys, suffix)
