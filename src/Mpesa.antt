-- ===== src/Mpesa.antt =====
-- Payments over M-Pesa (services/mpesa.go, services/cache.go, services/c2b_verify.go).
pub mod Creds
pub mod Routes
pub mod Cache
pub mod C2b
pub mod Stk
mod Tests
