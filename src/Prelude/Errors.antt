-- ===== src/Prelude/Errors.antt =====
-- Values beside errors: what a Go function that returns `(T, error)` gives back.
use mathlib.Core.Path.{◌≡◌, refl, ap}
use mathlib.Core.Logic.{◌⊎◌, inl, inr}
use mathlib.Core.Bool.{Bool, true, false}
use mathlib.Core.Option.{Option, none, some}

pub data Result {ℓ} (E A : Type ℓ) : Type ℓ where
  err : E → Result E A
  ok : A → Result E A

-- `if err != nil { return err }` between two steps.
infixl 5 ◌>>=◌ ◌>>◌
abbrev pub ◌>>=◌ {ℓ} : {E A B : Type ℓ} → Result E A → (A → Result E B) → Result E B
err reason >>= next = err reason
ok value >>= next = next value

abbrev pub ◌>>◌ {ℓ} : {E A B : Type ℓ} → Result E A → Result E B → Result E B
first >> next = first >>= λ _. next

-- `if !test { return err }`
abbrev pub guard : {E : Type 0} → Bool → E → Result E (Unit {0})
guard false reason = err reason
guard true _ = ok tt

-- A chain that succeeds: its first step does, and so does the rest from what that step gave.
pub >>=-eq-ok {ℓ} :
    {E A B : Type ℓ} (first : Result E A) (next : A → Result E B) {result : B}
    → (first >>= next) ≡ ok result
    → (value : A) × (first ≡ ok value) × (next value ≡ ok result)
>>=-eq-ok (err reason) next h = cc
>>=-eq-ok (ok value) next h = (value, refl, h)

pub Result-cases {ℓ} :
    {E A : Type ℓ} (r : Result E A) → ((a : A) × (r ≡ ok a)) ⊎ ((e : E) × (r ≡ err e))
Result-cases (ok a) = inl (a, refl)
Result-cases (err e) = inr (e, refl)

pub ok_inj {ℓ} : {E A : Type ℓ} {a b : A} → ◌≡◌ {A = Result E A} (ok a) (ok b) → a ≡ b
ok_inj h = cc

-- Two steps of which each may return false.
abbrev pub and_then {ℓ} : {A B : Type ℓ} → Option A → (A → Option B) → Option B
and_then none f = none
and_then (some a) f = f a

pub and_then-eq-some {ℓ} :
    {A B : Type ℓ} (o : Option A) (f : A → Option B) {b : B}
    → and_then o f ≡ some b
    → (a : A) × (o ≡ some a) × (f a ≡ some b)
and_then-eq-some none f h = absurd cc
and_then-eq-some (some a) f h = (a, refl, h)

pub and_then-some {ℓ} :
    {A B : Type ℓ} (o : Option A) (f : A → Option B) (a : A) → o ≡ some a → and_then o f ≡ f a
and_then-some o f a h = rw h refl

pub guard-eq-ok :
    {E : Type 0} (test : Bool) (reason : E) {u : Unit {0}} → guard test reason ≡ ok u → test ≡ true
guard-eq-ok true reason h = refl
guard-eq-ok false reason h = absurd cc

pub guard-true : {E : Type 0} (test : Bool) (reason : E) → test ≡ true → guard test reason ≡ ok tt
guard-true test reason h = rw h refl

-- `if !ok { return err }` behind a step that returns a value and whether there is one.
abbrev pub or_else {ℓ} : {E A : Type ℓ} → E → Option A → Result E A
or_else reason none = err reason
or_else reason (some value) = ok value

-- A chain that fails: its first step does, or the rest from what that step gave.
pub >>=-eq-err {ℓ} :
    {E A B : Type ℓ} (first : Result E A) (next : A → Result E B) {reason : E}
    → (first >>= next) ≡ err reason
    → first ≡ err reason ⊎ ((value : A) × (first ≡ ok value) × (next value ≡ err reason))
>>=-eq-err (err reason) next h = inl (cc)
>>=-eq-err (ok value) next h = inr (value, refl, h)

-- A chain whose steps cannot fail for a reason does not fail for it.
pub >>=-ne-err {ℓ} :
    {E A B : Type ℓ} (first : Result E A) (next : A → Result E B) (reason : E)
    → (first ≡ err reason → ⊥)
    → ((value : A) → first ≡ ok value → next value ≡ err reason → ⊥)
    → (first >>= next) ≡ err reason
    → ⊥
>>=-ne-err first next reason f g h = elim (>>=-eq-err first next h) [
  | inl e ↦ f e
  | inr (value, e, e') ↦ g value e e'
]

-- A test in front of steps that cannot fail for a reason, if it does not fail for it itself.
pub guarded-ne-err :
    {E B : Type 0} (test : Bool) (why : E) (next : Unit {0} → Result E B) (reason : E)
    → (why ≡ reason → ⊥)
    → (test ≡ true → next tt ≡ err reason → ⊥)
    → (guard test why >>= next) ≡ err reason
    → ⊥
guarded-ne-err true why next reason f g h = g refl h
guarded-ne-err false why next reason f g h = f (cc)

pub some_inj {ℓ} : {A : Type ℓ} {a b : A} → ◌≡◌ {A = Option A} (some a) (some b) → a ≡ b
some_inj h = cc

pub or_else-eq-ok {ℓ} :
    {E A : Type ℓ} (reason : E) (o : Option A) {a : A} → or_else reason o ≡ ok a → o ≡ some a
or_else-eq-ok reason none h = absurd cc
or_else-eq-ok reason (some b) h = ap some (ok_inj h)
