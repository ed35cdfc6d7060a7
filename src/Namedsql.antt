-- ===== src/Namedsql.antt =====
-- namedsql: SQL with named binds.
mod Fields
pub mod Parse
pub mod Compile
mod Names
pub mod Template
pub mod Values
pub mod Ending
pub mod Describe
mod Tests
