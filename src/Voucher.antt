-- ===== src/Voucher.antt =====
-- Vouchers (services/voucher.go).
pub mod Generate
pub mod Codes
pub mod Redeem
pub mod Spent
mod Tests
