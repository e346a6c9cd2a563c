-- ===== src/Examples.antt =====
-- Concrete inputs for the theorems, and runs of the definitions.
mod Counters
mod Limits
mod Grants
mod Migrations
mod Blocks
mod Sessions
mod Pairings
