-- ===== src/Router.antt =====
-- The routers of the zones (services/router_health.go, services/watchdog.go).
pub mod Health
pub mod Watchdog
