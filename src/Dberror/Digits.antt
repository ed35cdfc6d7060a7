-- ===== src/Dberror/Digits.antt =====
-- The digits of an error's number in dberror/mysqlerr and dberror/sqliteerr: the fuel is enough.
use rasql.Prelude.{◌≡◌, refl, ℕ, zero, suc, ◌/◌, ◌<◌, ltb, Bool-cases, inl, inr, arith}
use rasql.Dberror.{digits}

digits_enough : (fuel n : ℕ) → n < fuel → digits (suc fuel) n ≡ digits fuel n
unfolding digits
digits_enough zero n h = absurd (omega arith)
digits_enough (suc fuel) n h = elim (Bool-cases (ltb n 10)) [
  | inl last ↦ rw last refl
  | inr more ↦
      let left : n / 10 < fuel = ground arith in rw (more, digits_enough fuel (n / 10) left) refl
]
