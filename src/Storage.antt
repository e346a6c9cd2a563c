-- ===== src/Storage.antt =====
-- internal/storage/sqlite, as far as the services of internal/auth use it: each statement is a
-- function on the rows of its table. The engine is not modelled; it may refuse any statement.
pub mod Table
pub mod Db
pub mod Credentials
pub mod Changes
pub mod Pairings
pub mod Steps
pub mod Statements
