-- ===== src/Migrate.antt =====
-- migrate/*.go: ordered SQL migrations, their history, and the runner that applies and reverts them.
pub mod Migration
pub mod Reason
pub mod Prepare
pub mod History
pub mod Select
pub mod Unselect
pub mod Status
pub mod Connection
pub mod Run
pub mod RoundTrip
mod Tests
