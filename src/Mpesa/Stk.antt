-- ===== src/Mpesa/Stk.antt =====
-- Payments by STK push (services/mpesa.go, services/credit.go, services/tenant_scope.go,
-- services/money_jobs.go): what becomes of a payment when Safaricom's callback or the answer to a
-- status query says that it went through, fell short or failed.
pub mod Rows
pub mod Payer
pub mod Granting
pub mod Reasons
pub mod Success
pub mod Actions
pub mod Callback
pub mod Query
pub mod Evolves
pub mod Steps
pub mod Outcomes
pub mod Entries
pub mod Runs
pub mod Once
pub mod Balance
pub mod Stamp
pub mod Order
pub mod Closing
mod Tests
