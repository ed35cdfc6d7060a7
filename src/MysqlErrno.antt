-- ===== src/MysqlErrno.antt =====
-- internal/mysqlerrno/mysqlerrno.go: the MySQL server error number that an error carries, and the
-- numbers that mean that a statement's work was already done.
use rasql.Prelude.{ℕ, ◌≡◌, refl, Bool, ◌||◌, Option, none, some, ◌==◌}

-- An error as `Number` sees it. `server` is the driver's `*MySQLError` with its field `Number`,
-- `opaque` any value that is neither that nor a wrapper.
mutual
  pub data GoError : Type 0 where
    opaque : GoError
    server : ℕ → GoError
    wraps_nil : GoError
    wraps : GoError → GoError
    joins : GoErrors → GoError

  pub data GoErrors : Type 0 where
    nil : GoErrors
    cons : GoError → GoErrors → GoErrors

abbrev or_else : Option ℕ → Option ℕ → Option ℕ
or_else (some n) _ = some n
or_else none other = other

unfoldable mutual
  -- `Number`
  pub number : GoError → Option ℕ
  number opaque = none
  number (server n) = some n
  number wraps_nil = none
  number (wraps e) = number e
  number (joins es) = number_of_any es

  pub number_of_any : GoErrors → Option ℕ
  number_of_any nil = none
  number_of_any (cons e es) = or_else (number e) (number_of_any es)

unfoldable pub already_applied : ℕ → Bool
already_applied n = n == 1050 || n == 1060 || n == 1061 || n == 1091 || n == 3821 || n == 3940

number_test : number (wraps (joins (cons opaque (cons (wraps (server 1061)) nil)))) ≡ some 1061
unfolding number number_of_any
number_test = refl
