-- ===== src/Prelude/Search.antt =====
-- Search in strings: counts of bytes up to what is looked for.
use Prim.Native.Nat.{ℕ, ◌+◌}
use mathlib.Core.Bool.{Bool, true, false}
use mathlib.Core.Option.{Option, none, some}
use mathlib.Core.List.{[], ◌∷◌}
use rasql.Prelude.Tests.{◌==◌, if◌then◌else◌}
use rasql.Prelude.Text.{Bytes}

-- A count behind `k` bytes more.
unfoldable pub more : ℕ → Option ℕ → Option ℕ
more k none = none
more k (some n) = some (k + n)

-- `strings.HasPrefix` and `strings.Index`.
unfoldable pub has_prefix : Bytes → Bytes → Bool
has_prefix s [] = true
has_prefix [] (p ∷ ps) = false
has_prefix (c ∷ cs) (p ∷ ps) = if c == p then has_prefix cs ps else false

unfoldable pub index_of : Bytes → Bytes → Option ℕ
unfolding more has_prefix
index_of [] sub = if has_prefix [] sub then some 0 else none
index_of (c ∷ cs) sub =
    let later = more 1 (index_of cs sub) in if has_prefix (c ∷ cs) sub then some 0 else later
