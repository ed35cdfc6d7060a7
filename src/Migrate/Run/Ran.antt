-- ===== src/Migrate/Run/Ran.antt =====
-- What one migration leaves that ends without an error: the loop over its sources with the tolerance
-- of migrate/mysql_already_applied.go, and its row.
use rasql.Prelude.{
  ◌≡◌, refl, sym, ap, ◌∙◌, ℕ, true, Option, none, some, List, [], ◌∷◌, ◌++◌, append_assoc,
  append-nil, ◌⊎◌, inl, inr, arith, Bool-cases, Option-cases, Bytes,
}
use rasql.MysqlErrno.{GoError, number, already_applied}
use rasql.Migrate.Migration.{Statement}
use rasql.Migrate.Reason.{Reason}
use rasql.Migrate.Prepare.{PreparedMigration}
use rasql.Migrate.Connection.{Notice, Store, Connection, Engine, execute, attempt}
use rasql.Migrate.Run.Direction.{
  Direction, tolerates, already_done, notice_of, note, run_sources, write_row,
}
use rasql.Migrate.Run.Engines.{change}
use rasql.Migrate.Run.Actions.{then_none, then_some}
use rasql.Migrate.Run.Sources.{change-history}

-- The server's error numbers that say of DDL that its work was done before.
abbrev pub IsDoneBefore : GoError → Type 0
IsDoneBefore e =
    (n : ℕ) × ((number e ≡ some n)
      × ((n ≡ 1050) ⊎ (n ≡ 1060) ⊎ (n ≡ 1061) ⊎ (n ≡ 1091) ⊎ (n ≡ 3821) ⊎ (n ≡ 3940)))

-- Each source of migration `id` took effect, in order, or ended in an error that its work was done
-- before, which is noted. `ran` is the SQL that took effect.
abbrev pub Ran : Bytes → List Statement → List Bytes → List Notice → Type 0
Ran id [] ran notes = (ran ≡ []) × (notes ≡ [])
Ran id (s ∷ ss) ran notes =
    ((later : List Bytes) × ((ran ≡ s.sql ∷ later) × Ran id ss later notes))
    ⊎ ((e : GoError) × ((later : List Notice) × (IsDoneBefore e
            × (notes ≡ notice_of id s.source e ∷ later)
            × Ran id ss ran later)))

already_applied_number :
    (n : ℕ)
    → already_applied n ≡ true
    → (n ≡ 1050) ⊎ (n ≡ 1060) ⊎ (n ≡ 1061) ⊎ (n ≡ 1091) ⊎ (n ≡ 3821) ⊎ (n ≡ 3940)
unfolding already_applied
already_applied_number n h = ground arith

tolerates-IsDoneBefore :
    (engine : Engine) (e : GoError) → tolerates engine e ≡ true → IsDoneBefore e
unfolding tolerates already_done
tolerates-IsDoneBefore engine e h = elim (Option-cases (number e)) [
  | inl lost ↦ absurd (ground arith)
  | inr (n, found) ↦
      let listed : already_applied n ≡ true = ground arith in
      (n, (found, already_applied_number n listed))
]

module _ (engine : Engine) (sql : Bytes) (c : Connection) where
  execute_ran :
      (execute engine sql c).0 ≡ none
      → (execute engine sql c).1.store.executed ≡ c.store.executed ++ sql ∷ []
  unfolding execute attempt
  execute_ran h = ground arith

  execute_refused :
      {e : GoError}
      → (execute engine sql c).0 ≡ some e
      → (execute engine sql c).1.store.executed ≡ c.store.executed
  unfolding execute attempt
  execute_refused h = ground arith

  execute-notices : (execute engine sql c).1.notices ≡ c.notices
  unfolding execute attempt
  execute-notices = ground arith

-- From a connection to a later one: the sources that were run.
pub record HasRun (id : Bytes) (ss : List Statement) (c d : Connection) : Type 0 where
  pub ran : List Bytes
  pub notes : List Notice
  pub executed : d.store.executed ≡ c.store.executed ++ ran
  pub noticed : d.notices ≡ c.notices ++ notes
  pub sources : Ran id ss ran notes

module _ (engine : Engine) (wrap : Bytes → GoError → Reason) (id : Bytes) where
  run_sources-HasRun :
      (ss : List Statement) (c : Connection)
      → (run_sources engine (tolerates engine) wrap id ss c).0 ≡ none
      → HasRun id ss c (run_sources engine (tolerates engine) wrap id ss c).1
  unfolding run_sources
  run_sources-HasRun [] c h = record {
    ran = [];
    notes = [];
    executed = sym (append-nil c.store.executed);
    noticed = sym (append-nil c.notices);
    sources = (refl, refl);
  }
  run_sources-HasRun (s ∷ ss) c h =
      let there = (execute engine s.sql c).1 in
      elim (Option-cases (execute engine s.sql c).0) [
        | inl e ↦
            let rest = run_sources-HasRun ss there (rw (e, run_sources) at h) in
            rw (e, run_sources)
              (record {
                ran = s.sql ∷ rest.ran;
                notes = rest.notes;
                executed =
                    rest.executed
                    ∙ ap (λ z. z ++ rest.ran) (execute_ran engine s.sql c e)
                    ∙ append_assoc c.store.executed (s.sql ∷ []) rest.ran;
                noticed = rest.noticed ∙ ap (λ z. z ++ rest.notes) (execute-notices engine s.sql c);
                sources = inl (rest.ran, (refl, rest.sources));
              })
        | inr (x, e) ↦ elim (Bool-cases (tolerates engine x)) [
          | inl t ↦
              let noted = note id s.source x there in
              let rest = run_sources-HasRun ss noted (rw (e, run_sources, t) at h) in
              rw (e, run_sources, t)
                (record {
                  ran = rest.ran;
                  notes = notice_of id s.source x ∷ rest.notes;
                  executed =
                      rest.executed ∙ ap (λ z. z ++ rest.ran) (execute_refused engine s.sql c e);
                  noticed =
                      rest.noticed
                      ∙ ap (λ z. (z ++ notice_of id s.source x ∷ []) ++ rest.notes)
                          (execute-notices engine s.sql c)
                      ∙ append_assoc c.notices (notice_of id s.source x ∷ []) rest.notes;
                  sources =
                      inr
                        (x, (rest.notes, (tolerates-IsDoneBefore engine x t, refl, rest.sources)));
                })
          | inr t ↦ let bad = rw (e, run_sources, t) at h in absurd cc
        ]
      ]

module _ (direction : Direction) (m : PreparedMigration) (c : Connection) where
  write_row-executed : (write_row direction m c).1.store.executed ≡ c.store.executed
  unfolding write_row attempt
  write_row-executed = ground arith

  write_row-notices : (write_row direction m c).1.notices ≡ c.notices
  unfolding write_row attempt
  write_row-notices = ground arith

-- A migration that is complete: its sources were run and its row is written.
pub record Applied (direction : Direction) (m : PreparedMigration) (s : Store)
    (notices : List Notice) (d : Connection) : Type 0 where
  pub ran : List Bytes
  pub notes : List Notice
  pub sources : Ran m.id (direction.sources m) ran notes
  pub stored :
      d.store ≡ record { history = direction.write m s.history; executed = s.executed ++ ran }
  pub noticed : d.notices ≡ notices ++ notes

module _ (direction : Direction) (engine : Engine) (m : PreparedMigration) where
  pub change-Applied :
      (c : Connection)
      → (change direction engine (tolerates engine) m c).0 ≡ none
      → Applied direction m c.store c.notices (change direction engine (tolerates engine) m c).1
  change-Applied c h =
      let sources =
        run_sources engine (tolerates engine) (direction.source_failed m.id) m.id
          (direction.sources m) in
      elim (Option-cases (sources c).0) [
        | inr (x, e) ↦
            let lost : some x ≡ none =
              sym (
                ap (λ (r : Option Reason × Connection). r.0)
                  (then_some sources (write_row direction m) c x e))
              ∙ h in
            absurd cc
        | inl e ↦
            let has = run_sources-HasRun engine _ m.id (direction.sources m) c e in
            let both = then_none sources (write_row direction m) c e in
            let executed : (change direction engine (tolerates engine) m c).1.store.executed
                ≡ c.store.executed ++ has.ran =
              ap (λ (r : Option Reason × Connection). r.1.store.executed) both
              ∙ write_row-executed direction m (sources c).1
              ∙ has.executed in
            let written = change-history direction engine (tolerates engine) m c h in
            record {
              ran = has.ran;
              notes = has.notes;
              sources = has.sources;
              stored = λ i. record { history = written i; executed = executed i };
              noticed =
                  ap (λ (r : Option Reason × Connection). r.1.notices) both
                  ∙ write_row-notices direction m (sources c).1
                  ∙ has.noticed;
            }
      ]
