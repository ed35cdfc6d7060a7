-- ===== src/Migrate/Run.antt =====
-- migrate/apply.go and migrate/revert.go: the runs themselves. Forward and reverse runs have one
-- shape, each engine's loop written for both; a `Direction` holds what differs.
pub mod Direction
pub mod Engines
pub mod Runner
pub mod Sources
pub mod Spent
pub mod Calls
pub mod Actions
pub mod AllOrNothing
pub mod Step
pub mod Prefix
pub mod Selecting
pub mod Locked
pub mod Ran
pub mod Recorded
pub mod Mysql
pub mod Plan
