-- ===== src/Payout.antt =====
-- Payouts of an ISP's share (services/payout.go).
pub mod Price
pub mod Samples
pub mod Rows
pub mod States
pub mod Invariant
pub mod Laws
pub mod Create
pub mod Claims
pub mod Runs
pub mod Settled
pub mod B2b
mod Tests
