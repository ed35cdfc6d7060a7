-- ===== src/Sqlscan.antt =====
-- internal/sqlscan: the lexical scan of SQL text and the checks that use it.
mod Lexemes
pub mod Scan
pub mod Words
pub mod Select
mod Tests
