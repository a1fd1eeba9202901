-- ===== src/Ledger.antt =====
-- The agent ledger (services/agent_ledger.go, models/agent.go).
pub mod Rows
pub mod Tx
pub mod Commission
pub mod Idempotency
pub mod Postings
pub mod Entries
pub mod Money
pub mod Checks
pub mod Issue
pub mod Return
pub mod Statement
pub mod Samples
mod Tests
