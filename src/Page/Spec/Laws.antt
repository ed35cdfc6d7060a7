-- ===== src/Page/Spec/Laws.antt =====
-- Page specs and limits of cursor.go and page.go.
use rasql.Prelude.{
  ◌≡◌, ◌≢◌, refl, sym, ap, ◌∙◌, subst, ℕ, suc, ◌+◌, ◌-◌, ◌^◌, ◌≤◌, ◌<◌, Bool, true, false, not,
  ◌&&◌, Option, some, List, [], ◌∷◌, ltb, ◌==◌, ==_iff, length, drop, get_elem?, All, ok, guard,
  guard-eq-ok, >>=-eq-ok, ok_inj, some_inj, zero, or_else, or_else-eq-ok, ℤ, pos, negsuc, ltz,
  is_zero, arith,
}
use rasql.Page.{
  NullOrder, null_order_default, nulls_first, nulls_last, invalid_page_spec, order_not_unique,
  invalid_page_policy, invalid_page_limit, panic, PageKey,
}
use rasql.Page.Spec.{
  PagePolicy, in_force, page_limit, is_policy, is_limit, chosen, is_default, order_keys,
  suffix_keys, new_page_spec,
}

not_zero :
    (low high requested : ℤ)
    → is_policy (record { default_limit = low; max_limit = high }) ≡ true
    → is_zero (chosen requested low) ≡ false
not_zero (pos m) high (pos k) h = ground arith
not_zero (pos m) high (negsuc k) h = refl
not_zero (negsuc m) high requested h = ground arith

limit_bounds :
    (low high limit : ℤ)
    → is_policy (record { default_limit = low; max_limit = high }) ≡ true
    → is_limit (record { default_limit = low; max_limit = high }) limit ≡ true
    → is_zero limit ≡ false
    → (n : ℕ) × limit ≡ pos n × 1 ≤ n × ltz high (pos n) ≡ false × n + 1 < 2 ^ 63
limit_bounds low (pos k) (pos n) h1 h2 h3 = (n, refl, ground arith, ground arith, ground arith)
limit_bounds low (negsuc k) (pos n) h1 h2 h3 = absurd (ground arith)
limit_bounds low high (negsuc n) h1 h2 h3 = absurd (ground arith)

-- A limit that a page is prepared with is at least one and at most the maximum of the policy in
-- force, and one more than it, which the query is limited to, is still a Go integer.
pub page_limit-bounds :
    (policy : PagePolicy) (requested : ℤ) {limit : ℤ}
    → page_limit policy requested ≡ ok limit
    → (n : ℕ) × limit ≡ pos n
      × 1 ≤ n
      × ltz (in_force policy).max_limit (pos n) ≡ false
      × n + 1 < 2 ^ 63
unfolding page_limit
page_limit-bounds policy requested h =
    let force = in_force policy in
    let chosen_limit = chosen requested force.default_limit in
    let (_, g1, h1) = >>=-eq-ok (guard (is_policy force) invalid_page_policy) _ h in
    let (_, g2, h2) = >>=-eq-ok (guard (is_limit force chosen_limit) invalid_page_limit) _ h1 in
    let legal = guard-eq-ok _ invalid_page_policy g1 in
    subst (λ l. (n : ℕ) × l ≡ pos n × 1 ≤ n × ltz force.max_limit (pos n) ≡ false × n + 1 < 2 ^ 63)
      (ok_inj h2)
      (limit_bounds force.default_limit force.max_limit chosen_limit legal
        (guard-eq-ok _ invalid_page_limit g2)
        (not_zero force.default_limit force.max_limit requested legal))

drop_all {ℓ} : {A : Type ℓ} (n : ℕ) (xs : List A) → length xs ≤ n → drop n xs ≡ []
drop_all zero [] h = refl
drop_all zero (x ∷ xs) h = absurd (omega arith)
drop_all (suc n) [] h = refl
drop_all (suc n) (x ∷ xs) h = drop_all n xs (omega arith)

drop_at {ℓ} :
    {A : Type ℓ} (n : ℕ) (xs : List A) {x : A}
    → get_elem? xs n ≡ some x
    → drop n xs ≡ (x ∷ drop (suc n) xs)
drop_at n [] h = absurd cc
drop_at zero (y ∷ xs) h = λ i. some_inj h i ∷ xs
drop_at (suc n) (y ∷ xs) h = drop_at n xs h

module _ {R : Type 0} where
  -- A key that may stand in an order.
  abbrev pub IsKey : PageKey R → Type 0
  IsKey key = key.has_node ≡ true × (key.nullable ≡ true → key.nulls ≢ null_order_default)

  -- The same pointers, in the same order.
  abbrev pub SameKeys : List (PageKey R) → List (PageKey R) → Type 0
  SameKeys [] [] = Unit
  SameKeys [] (b ∷ bs) = ⊥
  SameKeys (a ∷ as') [] = ⊥
  SameKeys (a ∷ as') (b ∷ bs) = a.address ≡ b.address × SameKeys as' bs

  abbrev pub items : List (PageKey R) → List (Option (PageKey R))
  items [] = []
  items (key ∷ keys) = some key ∷ items keys

  order_keys-eq-ok :
      (order : List (Option (PageKey R))) {keys : List (PageKey R)}
      → order_keys order ≡ ok keys
      → order ≡ items keys × All IsKey keys
  unfolding order_keys
  order_keys-eq-ok [] h = subst (λ ks. [] ≡ items ks × All IsKey ks) (ok_inj h) (refl, tt)
  order_keys-eq-ok (item ∷ order) h =
      let (key, found, h1) = >>=-eq-ok (or_else invalid_page_spec item) _ h in
      let (_, g1, h2) = >>=-eq-ok (guard key.has_node invalid_page_spec) _ h1 in
      let (_, g2, h3) =
        >>=-eq-ok (guard (not (key.nullable && is_default key.nulls)) invalid_page_spec) _ h2 in
      let (keys, looped, h4) = >>=-eq-ok (order_keys order) _ h3 in
      let (same, are) = order_keys-eq-ok order looped in
      let valid = or_else-eq-ok invalid_page_spec item found in
      let ordered = guard-eq-ok (not (key.nullable && is_default key.nulls)) invalid_page_spec g2 in
      subst (λ ks. (item ∷ order) ≡ items ks × All IsKey ks) (ok_inj h4)
        (
          λ i. valid i ∷ same i,
          ((guard-eq-ok _ invalid_page_spec g1, explicit key.nullable key.nulls ordered), are),
        )
    where
      explicit :
          (nullable : Bool) (nulls : NullOrder)
          → not (nullable && is_default nulls) ≡ true
          → nullable ≡ true
          → nulls ≢ null_order_default
      explicit true null_order_default o _ = absurd cc
      explicit true nulls_first o _ = λ e. cc
      explicit true nulls_last o _ = λ e. cc
      explicit false nulls o e = absurd cc

  suffix_keys-eq-ok :
      (keys : List (PageKey R)) (size i : ℕ) (suffix : List (Option (PageKey R)))
      {found : List (PageKey R)}
      → suffix_keys keys size i suffix ≡ ok found
      → size ≤ length keys + i
      → size ≡ i + length suffix
      → suffix ≡ items found × SameKeys (drop (length keys + i - size) keys) found
  unfolding suffix_keys
  suffix_keys-eq-ok keys size i [] h few all =
      let at_end : drop (length keys + i - size) keys ≡ [] =
        drop_all (length keys + i - size) keys (omega arith) in
      subst (λ ks. [] ≡ items ks × SameKeys (drop (length keys + i - size) keys) ks) (ok_inj h)
        (refl, rw at_end tt)
  suffix_keys-eq-ok keys size i (item ∷ suffix) h few all =
      let (key, valid, h1) = >>=-eq-ok (or_else invalid_page_spec item) _ h in
      let (_, g1, h2) =
        >>=-eq-ok (guard (not (ltb (length keys + i) size)) order_not_unique) _ h1 in
      let (found, got, h3) =
        >>=-eq-ok (or_else panic (get_elem? keys (length keys + i - size))) _ h2 in
      let (_, g2, h4) = >>=-eq-ok (guard (found.address == key.address) order_not_unique) _ h3 in
      let (rest, looped, h5) = >>=-eq-ok (suffix_keys keys size (i + 1) suffix) _ h4 in
      let (items_same, same) =
        suffix_keys-eq-ok keys size (i + 1) suffix looped (omega arith) (omega arith) in
      let parts = drop_at (length keys + i - size) keys (or_else-eq-ok panic _ got) in
      let step : (length keys + (i + 1) - size) ≡ suc (length keys + i - size) = omega arith in
      let valid_item = or_else-eq-ok invalid_page_spec item valid in
      let address = (==_iff found.address key.address).0 (guard-eq-ok _ order_not_unique g2) in
      let tail = subst (λ n. SameKeys (drop n keys) rest) step same in
      subst (λ ks. (item ∷ suffix) ≡ items ks × SameKeys (drop (length keys + i - size) keys) ks)
        (ok_inj h5)
        (
          λ j. valid_item j ∷ items_same j,
          subst (λ ks. SameKeys ks (key ∷ rest)) (sym parts) (address, tail),
        )

  suffix_fits :
      (keys : List (PageKey R)) (size : ℕ) (suffix : List (Option (PageKey R)))
      {found : List (PageKey R)}
      → 1 ≤ length suffix
      → suffix_keys keys size 0 suffix ≡ ok found
      → size ≤ length keys
  unfolding suffix_keys
  suffix_fits keys size [] some_key h = absurd (omega arith)
  suffix_fits keys size (item ∷ suffix) some_key h =
      let (key, valid, h1) = >>=-eq-ok (or_else invalid_page_spec item) _ h in
      let (_, g1, h2) =
        >>=-eq-ok (guard (not (ltb (length keys + 0) size)) order_not_unique) _ h1 in
      let inside = guard-eq-ok (not (ltb (length keys + 0) size)) order_not_unique g1 in
      ground arith

  length-items : (keys : List (PageKey R)) → length (items keys) ≡ length keys
  length-items [] = refl
  length-items (key ∷ keys) = ap suc (length-items keys)

  -- What a page spec holds of the items that it is made of.
  abbrev pub IsPageSpec :
      List (Option (PageKey R))
      → List (Option (PageKey R))
      → List (PageKey R) × List (PageKey R)
      → Type 0
  IsPageSpec order unique_suffix (keys, suffix) =
      order ≡ items keys
      × unique_suffix ≡ items suffix
      × All IsKey keys
      × 1 ≤ length keys
      × length keys ≤ 255
      × 1 ≤ length suffix
      × length suffix ≤ length keys
      × SameKeys (drop (length keys - length suffix) keys) suffix

  -- A spec that NewPageSpec returns has the keys that it was given: between one and 255, each an
  -- expression, the nullable ones with an explicit order of NULLs; and its suffix is the last of
  -- those keys, and is not empty.
  pub new_page_spec-eq-ok :
      (order unique_suffix : List (Option (PageKey R))) {spec : List (PageKey R) × List (PageKey R)}
      → new_page_spec order unique_suffix ≡ ok spec
      → IsPageSpec order unique_suffix spec
  unfolding new_page_spec
  new_page_spec-eq-ok order unique_suffix h =
      let (_, g1, h1) = >>=-eq-ok (guard (not (length order == 0)) invalid_page_spec) _ h in
      let (_, g2, h2) = >>=-eq-ok (guard (not (length unique_suffix == 0)) order_not_unique) _ h1 in
      let (_, g3, h3) = >>=-eq-ok (guard (not (ltb 255 (length order))) invalid_page_spec) _ h2 in
      let (keys, ordered, h4) = >>=-eq-ok (order_keys order) _ h3 in
      let (suffix, suffixed, h5) =
        >>=-eq-ok (suffix_keys keys (length unique_suffix) 0 unique_suffix) _ h4 in
      let some_order = guard-eq-ok (not (length order == 0)) invalid_page_spec g1 in
      let some_suffix = guard-eq-ok (not (length unique_suffix == 0)) order_not_unique g2 in
      let few = guard-eq-ok (not (ltb 255 (length order))) invalid_page_spec g3 in
      let lower : 1 ≤ length order = ground arith in
      let upper : length order ≤ 255 = ground arith in
      let suffix_lower : 1 ≤ length unique_suffix = ground arith in
      let fits = suffix_fits keys (length unique_suffix) unique_suffix suffix_lower suffixed in
      let (same_order, are) = order_keys-eq-ok order ordered in
      let (same_suffix, tail) =
        suffix_keys-eq-ok keys (length unique_suffix) 0 unique_suffix suffixed (omega arith)
          (omega arith) in
      let order_size : length order ≡ length keys = ap length same_order ∙ length-items keys in
      let suffix_size : length unique_suffix ≡ length suffix =
        ap length same_suffix ∙ length-items suffix in
      let start : (length keys + 0 - length unique_suffix) ≡ (length keys - length suffix) =
        omega arith in
      subst (IsPageSpec order unique_suffix) (ok_inj h5) (
        same_order,
        same_suffix,
        are,
        omega arith,
        omega arith,
        omega arith,
        omega arith,
        subst (λ n. SameKeys (drop n keys) suffix) start tail,
      )
