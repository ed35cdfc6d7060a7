-- ===== src/Migrate/Run/Plan/Reads.antt =====
-- What the reads of migrate/apply.go, migrate/revert.go and migrate/status.go give back and leave.
use mathlib.Core.Path.{subst}
use rasql.Prelude.{
  ◌≡◌, refl, sym, ap, ◌∙◌, List, [], ◌∷◌, inl, inr, arith, true, Option-cases, Result, ok, err,
  ok_inj, ◌>>=◌, >>=-eq-ok,
}
use rasql.Migrate.Reason.{Reason}
use rasql.Migrate.History.{Row, collect_applied}
use rasql.Migrate.Connection.{
  Outcome, done, refused, fails, Store, Connection, Dialect, postgresql, mysql, sqlite, unsupported,
  Engine, call, attempt, read_history, ensure_history,
}
use rasql.Migrate.Run.Engines.{named}
use rasql.Migrate.Run.Runner.{set_locked}
use rasql.Migrate.Run.Calls.{named-store, read_history-store, read_history_done}
use rasql.Migrate.Run.Locked.{release-store}
use rasql.Migrate.Run.Plan.{
  observe, joined_result, locked_read, after_postgresql_read, after_mysql_read, read_engine,
  read_connected,
}

-- What is made of the history that the store holds.
pub record Seen {A : Type 0} (make : List Row → Result Reason A) (s : Store) (value : A)
    : Type 0 where
  pub rows : List Row
  pub read : collect_applied [] s.history ≡ ok rows
  pub makes : make rows ≡ ok value

pub Seen-unique :
    {A : Type 0} (make : List Row → Result Reason A) (s : Store) (a b : A)
    → Seen make s a
    → Seen make s b
    → a ≡ b
Seen-unique make s a b p q = ok_inj (sym p.makes ∙ ap make (ok_inj (sym p.read ∙ q.read)) ∙ q.makes)

joined_ok :
    {A : Type 0} (r : Result Reason A) (cleanup : List Reason) (value : A)
    → joined_result r cleanup ≡ ok value
    → r ≡ ok value
joined_ok (err e) cleanup value h = absurd cc
joined_ok (ok a) [] value h = ap ok (ok_inj h)
joined_ok (ok a) (e ∷ es) value h = absurd cc

pub opened-store :
    (c : Connection) → (named Reason.open_connection (attempt (λ x. x)) c).1.store ≡ c.store
unfolding named attempt call
opened-store c = ground arith

module _ {A : Type 0} (make : List Row → Result Reason A) where
  -- A read changes nothing.
  observe-store : (c : Connection) → (observe make c).1.store ≡ c.store
  unfolding observe
  observe-store c =
      let there = (named Reason.create_history ensure_history c).1 in
      elim (Option-cases (named Reason.create_history ensure_history c).0) [
        | inr (e, p) ↦ rw (p, observe) (named-store c)
        | inl p ↦ rw (p, observe) (read_history-store there ∙ named-store c)
      ]

  observe-Seen :
      (c : Connection) (value : A) → (observe make c).0 ≡ ok value → Seen make c.store value
  unfolding observe
  observe-Seen c value h =
      let there = (named Reason.create_history ensure_history c).1 in
      elim (Option-cases (named Reason.create_history ensure_history c).0) [
        | inr (e, p) ↦ let bad = rw (p, observe) at h in absurd cc
        | inl p ↦
            let told : ((read_history there).0 >>= make) ≡ ok value = rw (p, observe) at h in
            let (rows, read, makes) = >>=-eq-ok (read_history there).0 make told in
            record {
              rows = rows;
              read =
                  subst (λ (t : Store). collect_applied [] t.history ≡ ok rows) (named-store c)
                    (read_history_done there rows read);
              makes = makes;
            }
      ]

  locked_read-store : (c : Connection) → (locked_read (observe make) c).1.store ≡ c.store
  unfolding locked_read
  locked_read-store c = release-store _ ∙ observe-store (set_locked true c)

  locked_read-Seen :
      (c : Connection) (value : A)
      → (locked_read (observe make) c).0 ≡ ok value
      → Seen make c.store value
  unfolding locked_read
  locked_read-Seen c value h = observe-Seen (set_locked true c) value (joined_ok _ _ value h)

  postgresql-store :
      (o : Outcome) (c : Connection) → (after_postgresql_read (observe make) o c).1.store ≡ c.store
  unfolding after_postgresql_read
  postgresql-store (fails e) c = refl
  postgresql-store _ c = locked_read-store c

  postgresql-Seen :
      (o : Outcome) (c : Connection) (value : A)
      → (after_postgresql_read (observe make) o c).0 ≡ ok value
      → Seen make c.store value
  unfolding after_postgresql_read
  postgresql-Seen (fails e) c value h = absurd cc
  postgresql-Seen done c value h = locked_read-Seen c value h
  postgresql-Seen refused c value h = locked_read-Seen c value h

  mysql-store :
      (o : Outcome) (c : Connection) → (after_mysql_read (observe make) o c).1.store ≡ c.store
  unfolding after_mysql_read
  mysql-store done c = locked_read-store c
  mysql-store _ c = refl

  mysql-Seen :
      (o : Outcome) (c : Connection) (value : A)
      → (after_mysql_read (observe make) o c).0 ≡ ok value
      → Seen make c.store value
  unfolding after_mysql_read
  mysql-Seen done c value h = locked_read-Seen c value h
  mysql-Seen refused c value h = absurd cc
  mysql-Seen (fails e) c value h = absurd cc

  read_engine-store :
      (d : Dialect) (c : Connection) → (read_engine d (observe make) c).1.store ≡ c.store
  unfolding read_engine call
  read_engine-store postgresql c = postgresql-store _ (call c).1
  read_engine-store mysql c = mysql-store _ (call c).1
  read_engine-store sqlite c = observe-store c
  read_engine-store unsupported c = refl

  read_engine-Seen :
      (d : Dialect) (c : Connection) (value : A)
      → (read_engine d (observe make) c).0 ≡ ok value
      → Seen make c.store value
  unfolding read_engine call
  read_engine-Seen postgresql c value h = postgresql-Seen _ (call c).1 value h
  read_engine-Seen mysql c value h = mysql-Seen _ (call c).1 value h
  read_engine-Seen sqlite c value h = observe-Seen c value (joined_ok _ [] value h)
  read_engine-Seen unsupported c value h = absurd cc

  pub read_connected-store :
      (engine : Engine) (c : Connection) → (read_connected engine make c).1.store ≡ c.store
  unfolding read_connected
  read_connected-store engine c =
      let opened = named Reason.open_connection (attempt (λ x. x)) c in
      elim (Option-cases opened.0) [
        | inr (e, p) ↦ rw (p, read_connected) (opened-store c)
        | inl p ↦
            rw (p, read_connected) (read_engine-store engine.dialect opened.1 ∙ opened-store c)
      ]

  pub read_connected-Seen :
      (engine : Engine) (c : Connection) (value : A)
      → (read_connected engine make c).0 ≡ ok value
      → Seen make c.store value
  unfolding read_connected
  read_connected-Seen engine c value h =
      let opened = named Reason.open_connection (attempt (λ x. x)) c in
      elim (Option-cases opened.0) [
        | inr (e, p) ↦ let bad = rw (p, read_connected) at h in absurd cc
        | inl p ↦
            let told : (read_engine engine.dialect (observe make) opened.1).0 ≡ ok value =
              rw (p, read_connected) at h in
            subst (λ s. Seen make s value) (opened-store c)
              (read_engine-Seen engine.dialect opened.1 value told)
      ]
