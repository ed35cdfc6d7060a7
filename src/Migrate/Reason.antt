-- ===== src/Migrate/Reason.antt =====
-- The errors of migrate/*.go as values: each constructor is one `fmt.Errorf` of the sources, with
-- the values that its message names.
use rasql.Prelude.{ℕ, ℤ, Bytes}
use rasql.MysqlErrno.{GoError}
use rasql.Migrate.Migration.{Fault}

pub data Reason : Type 0 where
  invalid_runner unsupported_dialect no_target : Reason
  invalid_migration : Bytes → Fault → Reason
  duplicate_id recorded_not_supplied checksum_mismatch recorded_after_missing : Bytes → Reason
  apply_target_not_supplied revert_target_not_applied no_reverse_source not_recorded :
      Bytes → Reason
  duplicate_history_id : Bytes → Reason
  step_count_not_positive : ℤ → Reason
  too_many_steps : ℕ → ℕ → Reason
  open_connection create_history read_applied begin commit acquire_lock : GoError → Reason
  lock_timed_out : Reason
  execute_source execute_reverse_source : Bytes → Bytes → GoError → Reason
  record_migration remove_record : Bytes → GoError → Reason
  release_lock : Reason
  not_marked_bad : GoError → Reason
