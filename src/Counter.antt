-- ===== src/Counter.antt =====
-- internal/counter/counter.go: the counter-store port, its types and its documented contract.
-- The implementations are the modules below.
pub mod Failover
pub mod Memory
pub mod Port
