-- ===== src/Sqlscan/Select/Parens.antt =====
-- internal/sqlscan/sqlscan.go: what `matchingParen` finds, as nested parentheses.
use rasql.Prelude.{
  and_then-eq-some, ℕ, zero, suc, ◌+◌, ◌-◌, ◌≡◌, refl, subst, sym, ap, ◌∙◌, Bool, true, false,
  Option, none, some, List, [], ◌∷◌, ◌++◌, append_assoc, more, length, length-append, take_left,
  take, drop, Bytes, arith, ◌==◌,
}
use rasql.Sqlscan.Words.{
  token_word, token_open, token_close, token_comma, token_opaque, Token, token,
}
use rasql.Sqlscan.Select.{matching_paren, parenthesized}

abbrev pub is_paren : Token → Bool
is_paren (token token_open x) = true
is_paren (token token_close x) = true
is_paren (token token_word x) = false
is_paren (token token_comma x) = false
is_paren (token token_opaque x) = false

-- Tokens whose parentheses match.
pub data Nested : List Token → Type 0 where
  nothing : Nested []
  single : (t : Token) {ts : List Token} → is_paren t ≡ false → Nested ts → Nested (t ∷ ts)
  group :
      (x y : Bytes) (a b : List Token)
      → Nested a
      → Nested b
      → Nested (token token_open x ∷ (a ++ token token_close y ∷ b))

-- Tokens that close `d` parentheses, and match beside.
data Closes : ℕ → List Token → Type 0 where
  matched : {a : List Token} → Nested a → Closes 0 a
  closing :
      (y : Bytes) {d : ℕ} (a b : List Token)
      → Nested a
      → Closes d b
      → Closes (suc d) (a ++ token token_close y ∷ b)

Closes-single :
    {d : ℕ} (t : Token) {ts : List Token} → is_paren t ≡ false → Closes d ts → Closes d (t ∷ ts)
Closes-single t e (matched n) = matched (single t e n)
Closes-single t e (closing y a b n c) = closing y (t ∷ a) b (single t e n) c

Closes-group :
    (x y : Bytes) {d : ℕ} (a b : List Token)
    → Nested a
    → Closes d b
    → Closes d (token token_open x ∷ (a ++ token token_close y ∷ b))
Closes-group x y a b n (matched m) = matched (group x y a b n m)
Closes-group x y {d} a b n (closing z b1 c m k) =
    subst (λ l. Closes d (token token_open x ∷ l))
      (append_assoc a (token token_close y ∷ b1) (token token_close z ∷ c))
      (closing z (token token_open x ∷ (a ++ token token_close y ∷ b1)) c (group x y a b1 n m) k)

Closes-open :
    (x : Bytes) {d : ℕ} {ts : List Token} → Closes (suc d) ts → Closes d (token token_open x ∷ ts)
Closes-open x (closing y a b n c) = Closes-group x y a b n c

-- What is found at a depth closes the parentheses above it, and stands before a closing one.
abbrev Found : ℕ → List Token → Option ℕ → Type 0
Found d ts none = Unit
Found d ts (some n) =
    (a : List Token) × (y : Bytes) × (b : List Token) × ((ts ≡ a ++ token token_close y ∷ b)
      × (length a ≡ n)
      × Closes d a)

more-Found :
    (d e : ℕ) (t : Token) (ts : List Token) (o : Option ℕ)
    → ((l : List Token) → Closes d l → Closes e (t ∷ l))
    → Found d ts o
    → Found e (t ∷ ts) (more 1 o)
unfolding more
more-Found d e t ts none f h = tt
more-Found d e t ts (some n) f (a, y, b, (h, l, c)) =
    (t ∷ a, y, b, (ap (◌∷◌ t) h, omega arith, f a c))

matching_paren-Found : (d : ℕ) (ts : List Token) → Found d ts (matching_paren (suc d) ts)
unfolding matching_paren
matching_paren-Found d [] = tt
matching_paren-Found d (token token_word x ∷ ts) =
    more-Found d d _ ts _ (λ l. Closes-single _ refl) (matching_paren-Found d ts)
matching_paren-Found d (token token_comma x ∷ ts) =
    more-Found d d _ ts _ (λ l. Closes-single _ refl) (matching_paren-Found d ts)
matching_paren-Found d (token token_opaque x ∷ ts) =
    more-Found d d _ ts _ (λ l. Closes-single _ refl) (matching_paren-Found d ts)
matching_paren-Found d (token token_open x ∷ ts) =
    let e : suc (suc d) ≡ suc d + 1 = omega arith in
    more-Found (suc d) d _ ts _ (λ l. Closes-open x)
      (subst (λ k. Found (suc d) ts (matching_paren k ts)) e (matching_paren-Found (suc d) ts))
matching_paren-Found zero (token token_close x ∷ ts) = ([], x, ts, (refl, refl, matched nothing))
matching_paren-Found (suc d) (token token_close x ∷ ts) =
    let e : suc d ≡ suc (suc d) - 1 = omega arith in
    let deep : (suc (suc d) - 1 == 0) ≡ false = ground arith in
    rw deep (
      more-Found d (suc d) (token token_close x) ts _ (λ l c. closing x [] l nothing c)
        (subst (λ k. Found d ts (matching_paren k ts)) e (matching_paren-Found d ts)))

drop_left : (a : List Token) (t : Token) (b : List Token) → drop (length a + 1) (a ++ t ∷ b) ≡ b
drop_left [] t b = refl
drop_left (x ∷ a) t b =
    let e : suc (length a) + 1 ≡ suc (length a + 1) = omega arith in
    ap (λ k. drop k (x ∷ (a ++ t ∷ b))) e ∙ drop_left a t b

Nested-of : {a : List Token} → Closes 0 a → Nested a
Nested-of (matched n) = n

-- The parentheses hold nested tokens, and are closed behind them.
pub parenthesized-Nested :
    (ts inside rest : List Token)
    → parenthesized ts ≡ some (inside, rest)
    → Nested inside × ((y : Bytes) × (ts ≡ inside ++ token token_close y ∷ rest))
unfolding parenthesized
parenthesized-Nested ts inside rest h =
    let (n, e, h2) = and_then-eq-some (matching_paren 1 ts) _ h in
    let (a, y, b, (split, l, c)) = subst (Found 0 ts) e (matching_paren-Found 0 ts) in
    let left : take n ts ≡ inside = cc in
    let right : drop (n + 1) ts ≡ rest = cc in
    let whole : take (length a) (a ++ token token_close y ∷ b) ≡ a = take_left a _ in
    let before : a ≡ inside =
      sym whole
      ∙ ap (λ k. take k (a ++ token token_close y ∷ b)) l
      ∙ ap (take n) (sym split)
      ∙ left in
    let behind : b ≡ rest =
      sym (drop_left a (token token_close y) b)
      ∙ ap (λ k. drop (k + 1) (a ++ token token_close y ∷ b)) l
      ∙ ap (drop (n + 1)) (sym split)
      ∙ right in
    (
      subst Nested before (Nested-of c),
      (
        y,
        split
            ∙ ap (λ l. l ++ token token_close y ∷ b) before
            ∙ ap (λ k. inside ++ token token_close y ∷ k) behind,
      ),
    )

more_zero : (o : Option ℕ) → more 0 o ≡ o
unfolding more
more_zero none = refl
more_zero (some n) = let e : 0 + n ≡ n = omega arith in ap some e

more_next : (n : ℕ) (o : Option ℕ) → more 1 (more n o) ≡ more (suc n) o
unfolding more
more_next n none = refl
more_next n (some k) = let e : 1 + (n + k) ≡ suc n + k = omega arith in ap some e

more_group :
    (x y : Bytes) (a b : List Token) (o : Option ℕ)
    → more 1 (more (length a) (more 1 (more (length b) o)))
      ≡ more (length (token token_open x ∷ (a ++ token token_close y ∷ b))) o
unfolding more
more_group x y a b none = refl
more_group x y a b (some n) =
    let e : 1 + (length a + (1 + (length b + n)))
        ≡ suc (length (a ++ token token_close y ∷ b)) + n =
      omega (arith, length-append a (token token_close y ∷ b)) in
    ap some e

single_step :
    (k : ℕ) (t : Token) (ts : List Token)
    → is_paren t ≡ false
    → matching_paren k (t ∷ ts) ≡ more 1 (matching_paren k ts)
unfolding matching_paren
single_step k (token token_word x) ts e = refl
single_step k (token token_comma x) ts e = refl
single_step k (token token_opaque x) ts e = refl
single_step k (token token_open x) ts e = absurd cc
single_step k (token token_close x) ts e = absurd cc

close_step :
    (d : ℕ) (y : Bytes) (ts : List Token)
    → matching_paren (suc (suc d)) (token token_close y ∷ ts) ≡ more 1 (matching_paren (suc d) ts)
unfolding matching_paren
close_step d y ts =
    let e : suc (suc d) - 1 ≡ suc d = omega arith in
    let deep : (suc (suc d) - 1 == 0) ≡ false = ground arith in
    rw deep (ap (λ k. more 1 (matching_paren k ts)) e)

open_step :
    (d : ℕ) (x : Bytes) (ts : List Token)
    → matching_paren (suc d) (token token_open x ∷ ts) ≡ more 1 (matching_paren (suc (suc d)) ts)
unfolding matching_paren
open_step d x ts =
    let e : suc d + 1 ≡ suc (suc d) = omega arith in ap (λ k. more 1 (matching_paren k ts)) e

-- Nested tokens are passed at any depth.
passes :
    {a : List Token}
    → Nested a
    → (d : ℕ) (ts : List Token)
    → matching_paren (suc d) (a ++ ts) ≡ more (length a) (matching_paren (suc d) ts)
passes nothing d ts = sym (more_zero _)
passes (single t {ts = a} e n) d ts =
    single_step (suc d) t (a ++ ts) e ∙ ap (more 1) (passes n d ts) ∙ more_next (length a) _
passes (group x y a b n m) d ts =
    let regroup : (a ++ token token_close y ∷ b) ++ ts ≡ a ++ (token token_close y ∷ (b ++ ts)) =
      append_assoc a (token token_close y ∷ b) ts in
    open_step d x ((a ++ token token_close y ∷ b) ++ ts)
    ∙ ap (λ l. more 1 (matching_paren (suc (suc d)) l)) regroup
    ∙ ap (more 1) (
        passes n (suc d) (token token_close y ∷ (b ++ ts))
        ∙ ap (more (length a)) (close_step d y (b ++ ts) ∙ ap (more 1) (passes m d ts)))
    ∙ more_group x y a b _

first_close :
    (y : Bytes) (a rest : List Token)
    → Nested a
    → matching_paren 1 (a ++ token token_close y ∷ rest) ≡ some (length a)
unfolding matching_paren more
first_close y a rest n =
    let e : length a + 0 ≡ length a = omega arith in
    passes n 0 (token token_close y ∷ rest) ∙ ap some e

pub Nested-parenthesized :
    (y : Bytes) {inside : List Token} (rest : List Token)
    → Nested inside
    → parenthesized (inside ++ token token_close y ∷ rest) ≡ some (inside, rest)
unfolding parenthesized
Nested-parenthesized y {inside} rest n =
    let found = first_close y inside rest n in
    rw found (
      ap (λ l. some (l, drop (length inside + 1) (inside ++ token token_close y ∷ rest)))
        (take_left inside (token token_close y ∷ rest))
      ∙ ap (λ l. some (inside, l)) (drop_left inside (token token_close y) rest))
