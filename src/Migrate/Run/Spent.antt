-- ===== src/Migrate/Run/Spent.antt =====
-- How many failing calls are still to come, over the calls of a run (migrate/apply.go,
-- migrate/revert.go): a call that fails takes one of them.
use rasql.Prelude.{
  ◌≡◌, refl, ap, ℕ, suc, ◌+◌, ◌≤◌, Option, none, some, List, [], ◌∷◌, inl, inr, arith, Option-cases,
  Bytes,
}
use rasql.MysqlErrno.{GoError}
use rasql.Migrate.Migration.{Statement}
use rasql.Migrate.Reason.{Reason}
use rasql.Migrate.Prepare.{PreparedMigration}
use rasql.Migrate.Connection.{
  Outcome, done, refused, fails, Connection, Engine, next_outcome, later_outcomes, error_of, call,
  attempt, execute, close_transaction, commit_implicitly, add_executed, write_history, read_history,
  ensure_history, open_transaction,
}
use rasql.Migrate.Run.Direction.{Direction, strict, run_sources, write_row}
use rasql.Migrate.Run.Engines.{Action, ◌>>◌, named, begin, commit, change}
use rasql.Migrate.Run.Runner.{change_all}

-- How many of the outcomes are failures.
unfoldable pub failures : List Outcome → ℕ
failures [] = 0
failures (done ∷ os) = failures os
failures (refused ∷ os) = failures os
failures (fails e ∷ os) = suc (failures os)

abbrev pub left : Connection → ℕ
left c = failures c.outcomes

abbrev pub spent : {A : Type 0} → Option A → ℕ
spent none = 0
spent (some x) = 1

-- The call takes a failure if it ends in an error.
abbrev pub Spends : {A : Type 0} → (Connection → Option A × Connection) → Type 0
Spends m = (c : Connection) → left (m c).1 + spent (m c).0 ≤ left c

outcome_spent :
    (os : List Outcome)
    → failures (later_outcomes os) + spent (error_of (next_outcome os)) ≡ failures os
unfolding failures next_outcome later_outcomes
outcome_spent [] = refl
outcome_spent (done ∷ os) = omega arith
outcome_spent (refused ∷ os) = omega arith
outcome_spent (fails e ∷ os) = omega arith

pub attempt-Spends :
    (effect : Connection → Connection)
    → ((c : Connection) → (effect c).outcomes ≡ c.outcomes)
    → Spends (attempt effect)
unfolding attempt call
attempt-Spends effect keeps c =
    let all = outcome_spent c.outcomes in
    elim (Option-cases (error_of (next_outcome c.outcomes))) [
      | inl e ↦
          let same = keeps (record c { outcomes = later_outcomes c.outcomes }) in
          let count : failures (effect (record c { outcomes = later_outcomes c.outcomes })).outcomes
              ≡ failures (later_outcomes c.outcomes) =
            ap failures same in
          let taken = rw (e, spent) at all in rw (e, attempt, spent) (omega arith)
      | inr (x, e) ↦ let taken = rw (e, spent) at all in rw (e, attempt, spent) (omega arith)
    ]

pub named-Spends :
    (reason : GoError → Reason) (m : Connection → Option GoError × Connection)
    → Spends m
    → Spends (named reason m)
unfolding named
named-Spends reason m spends c = elim (Option-cases (m c).0) [
  | inl e ↦ rw (e, named, spent) (rw (e, spent) at (spends c))
  | inr (x, e) ↦ rw (e, named, spent) (rw (e, spent) at (spends c))
]

pub then-Spends : (m k : Action) → Spends m → Spends k → Spends (m >> k)
unfolding ◌>>◌
then-Spends m k first second c = elim (Option-cases (m c).0) [
  | inl e ↦
      let a = rw (e, spent) at (first c) in
      let b = second (m c).1 in rw (e, ◌>>◌, spent) (omega arith)
  | inr (x, e) ↦ rw (e, ◌>>◌, spent) (rw (e, spent) at (first c))
]

execute-Spends : (engine : Engine) (sql : Bytes) → Spends (execute engine sql)
unfolding execute
execute-Spends engine sql c =
    let made = attempt-Spends (add_executed sql) (λ d. refl) (commit_implicitly engine sql c) in
    let same : left (commit_implicitly engine sql c) ≡ left c = ground arith in omega arith

run_sources-Spends :
    (engine : Engine) (wrap : Bytes → GoError → Reason) (id : Bytes) (ss : List Statement)
    → Spends (run_sources engine strict wrap id ss)
unfolding run_sources
run_sources-Spends engine wrap id [] c = omega arith
run_sources-Spends engine wrap id (s ∷ ss) c =
    let made = execute-Spends engine s.sql c in
    elim (Option-cases (execute engine s.sql c).0) [
      | inl e ↦
          let taken = rw (e, spent) at made in
          let rest = run_sources-Spends engine wrap id ss (execute engine s.sql c).1 in
          rw (e, run_sources, spent) (omega arith)
      | inr (x, e) ↦ rw (e, run_sources, spent) (rw (e, spent) at made)
    ]

write_row-Spends : (direction : Direction) (m : PreparedMigration) → Spends (write_row direction m)
unfolding write_row
write_row-Spends direction m c =
    let made = attempt-Spends (write_history (direction.write m)) (λ d. refl) c in
    elim (Option-cases (attempt (write_history (direction.write m)) c).0) [
      | inl e ↦ rw (e, write_row, spent) (rw (e, spent) at made)
      | inr (x, e) ↦ rw (e, write_row, spent) (rw (e, spent) at made)
    ]

pub change_all-Spends :
    (direction : Direction) (engine : Engine) (ms : List PreparedMigration)
    → Spends (change_all direction engine ms)
unfolding change_all
change_all-Spends direction engine [] c = omega arith
change_all-Spends direction engine (m ∷ ms) c =
    then-Spends (change direction engine strict m) (change_all direction engine ms)
      (then-Spends (run_sources engine strict _ m.id (direction.sources m)) (write_row direction m)
        (run_sources-Spends engine _ m.id (direction.sources m)) (write_row-Spends direction m))
      (change_all-Spends direction engine ms) c

pub begin-Spends : Spends begin
begin-Spends = named-Spends _ _ (attempt-Spends open_transaction (λ d. refl))

pub commit-Spends : Spends commit
commit-Spends = named-Spends _ _ (attempt-Spends close_transaction (λ d. refl))

pub history-Spends : Spends (named Reason.create_history ensure_history)
unfolding ensure_history
history-Spends = named-Spends _ _ (attempt-Spends (λ d. d) (λ d. refl))

pub read_history-left : (c : Connection) → left (read_history c).1 ≤ left c
unfolding read_history call
read_history-left c = let all = outcome_spent c.outcomes in omega arith
