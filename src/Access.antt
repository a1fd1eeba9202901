-- ===== src/Access.antt =====
-- Who may call the API (middleware/auth.go, middleware/rbac.go, middleware/tenant.go,
-- middleware/realip.go).
pub mod Tenant
pub mod Sessions
pub mod RealIp
pub mod Laws
pub mod Revoked
mod Tests
