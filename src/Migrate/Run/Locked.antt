-- ===== src/Migrate/Run/Locked.antt =====
-- Runs under the migration lock: migrate/postgresql_lock.go and the lock of migrate/apply.go.
use mathlib.Core.Path.{subst}
use mathlib.Core.List.{cons-ne-nil}
use rasql.Prelude.{
  Bytes, ◌≡◌, ◌≢◌, refl, sym, ap, ◌∙◌, append_assoc, true, false, List, [], ◌∷◌, ◌++◌, ◌⊎◌, inl,
  inr, arith, ok,
}
use rasql.Migrate.Reason.{Reason}
use rasql.Migrate.Prepare.{PreparedMigration}
use rasql.Migrate.History.{Row, collect_applied}
use rasql.Migrate.Connection.{
  postgresql, Store, Connection, Engine, Outcome, call, done, refused, fails,
}
use rasql.Migrate.Run.Direction.{Direction, tolerates}
use rasql.Migrate.Run.Engines.{Run, Selection, with_selection}
use rasql.Migrate.Run.Runner.{
  set_locked, marked_after, mark_bad, release, release_after, give_back, locked_run,
  after_postgresql_lock, after_mysql_lock, with_postgresql_lock, with_mysql_lock, run_postgresql,
}
use rasql.Migrate.Run.Sources.{IsQuiet, IsStrict}
use rasql.Migrate.Run.Selecting.{with_selection_holds}
use rasql.Migrate.Run.Prefix.{
  Prefix, ReportsUnmarked, Ending, finished, atomic_failed, nontransactional_failed, unreleased,
  each_migration-Prefix,
}

-- The lock was given back; or there is an error, and the connection is marked bad, so that the pool
-- closes it, or an error tells that it could not be.
abbrev pub IsReleased : Run → Type 0
IsReleased r =
    (r.connection.locked ≡ false)
    ⊎ ((r.failure ≢ []) × ((r.connection.bad ≡ true) ⊎ ReportsUnmarked r.failure))

unmarked_after : (xs ys : List Reason) → ReportsUnmarked ys → ReportsUnmarked (xs ++ ys)
unmarked_after xs ys (front, (e, (back, same))) =
    (xs ++ front, (e, (back, ap (λ z. xs ++ z) same ∙ sym (append_assoc xs front _))))

unmarked_before : (xs ys : List Reason) → ReportsUnmarked xs → ReportsUnmarked (xs ++ ys)
unmarked_before xs ys (front, (e, (back, same))) =
    (front, (e, (back ++ ys, ap (λ z. z ++ ys) same ∙ append_assoc front _ ys)))

pub append-nil_left : (xs ys : List Reason) → (xs ++ ys) ≡ [] → xs ≡ []
append-nil_left [] ys h = refl
append-nil_left (x ∷ xs) ys h = absurd (cons-ne-nil x (xs ++ ys) h)

append-nil_right : (xs ys : List Reason) → (xs ++ ys) ≡ [] → ys ≡ []
append-nil_right [] ys h = h
append-nil_right (x ∷ xs) ys h = absurd (cons-ne-nil x (xs ++ ys) h)

pub release-store : (c : Connection) → (release c).1.store ≡ c.store
unfolding release release_after mark_bad marked_after call
release-store c = ground arith

mark_cases :
    (c : Connection)
    → ((mark_bad c).1.bad ≡ true) ⊎ ReportsUnmarked (Reason.release_lock ∷ (mark_bad c).0)
unfolding mark_bad marked_after
mark_cases c = by_outcome (call c).0 (call c).1
  where
    by_outcome :
        (o : Outcome) (c : Connection)
        → ((marked_after o c).1.bad ≡ true)
          ⊎ ReportsUnmarked (Reason.release_lock ∷ (marked_after o c).0)
    by_outcome done c = inl refl
    by_outcome refused c = inl refl
    by_outcome (fails e) c = inr (Reason.release_lock ∷ [], (e, ([], refl)))

release_cases :
    (c : Connection)
    → (((release c).0 ≡ []) × ((release c).1.locked ≡ false))
      ⊎ (((release c).0 ≢ []) × (((release c).1.bad ≡ true) ⊎ ReportsUnmarked (release c).0))
unfolding release release_after
release_cases c = by_outcome (call c).0 (call c).1
  where
    by_outcome :
        (o : Outcome) (c : Connection)
        → (((release_after o c).0 ≡ []) × ((release_after o c).1.locked ≡ false))
          ⊎ (((release_after o c).0 ≢ [])
              × (((release_after o c).1.bad ≡ true) ⊎ ReportsUnmarked (release_after o c).0))
    by_outcome done c = inl (refl, refl)
    by_outcome refused c = inr (cons-ne-nil _ _, mark_cases c)
    by_outcome (fails e) c = inr (cons-ne-nil _ _, mark_cases c)

release-bad : (c : Connection) → c.bad ≡ true → (release c).1.bad ≡ true
unfolding release release_after mark_bad marked_after call
release-bad c h = ground arith

release_refused :
    (c : Connection)
    → (release c).0 ≢ []
    → ((release c).1.bad ≡ true) ⊎ ReportsUnmarked (release c).0
release_refused c h = elim (release_cases c) [ inl (e, f) ↦ absurd (h e) | inr (e, f) ↦ f ]

locked_run-IsReleased : (run : Connection → Run) (c : Connection) → IsReleased (locked_run run c)
unfolding locked_run give_back
locked_run-IsReleased run c = elim (release_cases (run (set_locked true c)).connection) [
  | inl (e, f) ↦ inl f
  | inr (e, f) ↦
      let r = run (set_locked true c) in
      let cleanup = (release r.connection).0 in
      inr (
        λ h. e (append-nil_right r.failure cleanup h),
        elim f [ inl b ↦ inl b | inr u ↦ inr (unmarked_after r.failure cleanup u) ],
      )
]

after_postgresql-IsReleased :
    (run : Connection → Run) (o : Outcome) (c : Connection)
    → c.locked ≡ false
    → IsReleased (after_postgresql_lock run o c)
unfolding after_postgresql_lock
after_postgresql-IsReleased run (fails e) c h = inl h
after_postgresql-IsReleased run _ c h = locked_run-IsReleased run c

after_mysql-IsReleased :
    (run : Connection → Run) (o : Outcome) (c : Connection)
    → c.locked ≡ false
    → IsReleased (after_mysql_lock run o c)
unfolding after_mysql_lock
after_mysql-IsReleased run done c h = locked_run-IsReleased run c
after_mysql-IsReleased run _ c h = inl h

call-locked : (c : Connection) → (call c).1.locked ≡ c.locked
unfolding call
call-locked c = refl

pub call-store : (c : Connection) → (call c).1.store ≡ c.store
unfolding call
call-store c = refl

-- On PostgreSQL and on MySQL, if the lock was not held before, whatever the run under the lock does
-- and whatever calls fail: the lock is given back; or there is an error, and the connection is
-- marked bad or an error tells that it could not be marked.
pub locks-IsReleased :
    (run : Connection → Run) (c : Connection)
    → c.locked ≡ false
    → IsReleased (with_postgresql_lock run c) × IsReleased (with_mysql_lock run c)
unfolding with_postgresql_lock with_mysql_lock
locks-IsReleased run c h =
    let free = call-locked c ∙ h in
    (
      after_postgresql-IsReleased run (call c).0 (call c).1 free,
      after_mysql-IsReleased run (call c).0 (call c).1 free,
    )

-- Under a lock: nothing was changed and there is an error, or the selection was made from the
-- recorded history and a prefix of it was completed.
pub record Ran (direction : Direction) (select : Selection) (s : Store) (r : Run) : Type 0 where
  pub rows : List Row
  pub selected : List PreparedMigration
  pub read : collect_applied [] s.history ≡ ok rows
  pub chosen : select rows ≡ ok selected
  pub prefix : Prefix direction selected s r

abbrev pub PrefixRun : Direction → Selection → Store → Run → Type 0
PrefixRun direction select s r =
    ((r.failure ≢ []) × (r.completed ≡ []) × (r.connection.store ≡ s)) ⊎ Ran direction select s r

List-cases : (xs : List Reason) → (xs ≡ []) ⊎ (xs ≢ [])
List-cases [] = inl refl
List-cases (x ∷ xs) = inr (cons-ne-nil x xs)

-- PostgreSQL tolerates no error.
tolerates_nothing : (engine : Engine) → engine.dialect ≡ postgresql → IsStrict (tolerates engine)
unfolding tolerates
tolerates_nothing engine h e = ground arith

module _ (direction : Direction) (select : Selection) where
  released-Ending :
      (rest : List PreparedMigration) (partial : List Bytes) (r : Run)
      → Ending direction rest partial r
      → Ending direction rest partial (give_back r)
  unfolding give_back
  released-Ending rest partial r (finished f e p) = elim (List-cases (release r.connection).0) [
    | inl none_left ↦ finished (rw (f, none_left)) e p
    | inr some_left ↦
        let cleanup = (release r.connection).0 in
        unreleased (λ h. some_left (append-nil_right r.failure cleanup h)) e p
          (elim (release_refused r.connection some_left) [
            | inl b ↦ inl b
            | inr u ↦ inr (unmarked_after r.failure cleanup u)
          ])
  ]
  released-Ending rest partial r (atomic_failed m later f e a p) =
      atomic_failed m later (λ h. f (append-nil_left r.failure (release r.connection).0 h)) e a p
  released-Ending rest partial r (nontransactional_failed m later k f e a p) =
      nontransactional_failed m later k
        (λ h. f (append-nil_left r.failure (release r.connection).0 h)) e a p
  released-Ending rest partial r (unreleased f e p b) =
      unreleased (λ h. f (append-nil_left r.failure (release r.connection).0 h)) e p
        (elim b [
          | inl bad ↦ inl (release-bad r.connection bad)
          | inr u ↦ inr (unmarked_before r.failure (release r.connection).0 u)
        ])

  -- Giving the lock back keeps what the run did.
  released-Prefix :
      (selected : List PreparedMigration) (s : Store) (r : Run)
      → Prefix direction selected s r
      → Prefix direction selected s (give_back r)
  unfolding give_back
  released-Prefix selected s r p = record {
    changed = p.changed;
    rest = p.rest;
    partial = p.partial;
    splits = p.splits;
    completed = p.completed;
    history = ap (λ (t : Store). t.history) (release-store r.connection) ∙ p.history;
    executed = ap (λ (t : Store). t.executed) (release-store r.connection) ∙ p.executed;
    ending = released-Ending p.rest p.partial r p.ending;
  }

  released-PrefixRun :
      (s : Store) (r : Run)
      → PrefixRun direction select s r
      → PrefixRun direction select s (give_back r)
  unfolding give_back
  released-PrefixRun s r (inl (f, d, t)) = inl (
    λ h. f (append-nil_left r.failure (release r.connection).0 h),
    d,
    release-store r.connection ∙ t,
  )
  released-PrefixRun s r (inr p) = inr (record {
    rows = p.rows;
    selected = p.selected;
    read = p.read;
    chosen = p.chosen;
    prefix = released-Prefix p.selected s r p.prefix;
  })

  module _ (k : List PreparedMigration → Connection → Run)
      (step : (ms : List PreparedMigration) (c : Connection)
        → Prefix direction ms c.store (k ms c)) where
    with_selection-PrefixRun :
        (c : Connection) → PrefixRun direction select c.store (with_selection select k c)
    with_selection-PrefixRun c =
        with_selection_holds select k c.notices (PrefixRun direction select)
          (λ s e c same. inl (cons-ne-nil e [], refl, same))
          (λ s rows ms c same _ read chosen. inr (record {
            rows = rows;
            selected = ms;
            read = read;
            chosen = chosen;
            prefix = subst (λ t. Prefix direction ms t (k ms c)) same (step ms c);
          }))
          c refl

    locked-PrefixRun :
        (o : Outcome) (c : Connection)
        → PrefixRun direction select c.store (after_postgresql_lock (with_selection select k) o c)
    unfolding after_postgresql_lock locked_run
    locked-PrefixRun (fails e) c = inl (cons-ne-nil _ [], refl, refl)
    locked-PrefixRun _ c =
        released-PrefixRun c.store (with_selection select k (set_locked true c))
          (with_selection-PrefixRun (set_locked true c))

-- On PostgreSQL, with no source at which the engine commits by itself, an apply or a revert stops at
-- the first migration that fails. Either nothing was
-- changed and there is an error, or the selection was made from the recorded history and a first
-- part of it was completed, in order: the history is then that of the completed migrations and of
-- no other, and beside their sources only those are in effect that a failed nontransactional
-- migration ran. With no error all was completed; an error means that a migration failed, or that
-- the lock was not given back, and then the connection is marked bad or an error tells that it
-- could not be marked.
pub run_postgresql-PrefixRun :
    (direction : Direction) (engine : Engine)
    → engine.dialect ≡ postgresql
    → IsQuiet engine
    → (select : Selection) (c : Connection)
    → PrefixRun direction select c.store (run_postgresql direction engine select c)
unfolding run_postgresql with_postgresql_lock
run_postgresql-PrefixRun direction engine here quiet select c =
    subst (λ s. PrefixRun direction select s (run_postgresql direction engine select c))
      (call-store c)
      (locked-PrefixRun direction select _
        (each_migration-Prefix direction engine quiet (tolerates_nothing engine here)) (call c).0
        (call c).1)
