-- ===== src/Utils.antt =====
-- Pure helpers of the services and handlers (utils/*.go).
pub mod Phone
pub mod Subdomain
pub mod Ports
pub mod Expiry
mod Tests
