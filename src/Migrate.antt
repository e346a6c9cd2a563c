-- ===== src/Migrate.antt =====
-- internal/migrate: the migration runner. The registry, the ledger, a transaction and the runner are modules; the
-- database is a parameter behind the ports of port.go.
pub mod Registry
pub mod Ledger
pub mod Transaction
pub mod Runner
