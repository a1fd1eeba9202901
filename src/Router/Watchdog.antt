-- ===== src/Router/Watchdog.antt =====
-- The watchdog's look at the routers' heartbeats (services/watchdog.go: `runRouterHealthSweep`). The
-- zones are read once; each write is a statement of its own, whose error the source does not look at.
pub mod Alerts
pub mod Overload
pub mod Cutoff
mod Tests
use zyranet_api.Base.{
  ℕ, ◌+◌, ◌*◌, ◌≡◌, Bool, true, false, not, ◌&&◌, Option, none, some, List, [], ◌∷◌, ◌++◌, ltb,
  ◌==◌, ◌≤◌, arith, if◌then◌else◌, count_where, update_where, opt_eq, select, Bool-cases, inl, inr,
  refl,
}
use zyranet_api.Text.{Text, bytes, text_eq}
use zyranet_api.Models.{Zone}
use zyranet_api.Router.Health.{ZoneAlert, HealthDb, second}

pub data WatchStmt : Type 0 where
  find_zones mark_zone count_alerts create_alert resolve_alerts : WatchStmt

pub record WatchEnv : Type 0 where
  pub now : ℕ
  pub fails : WatchStmt → Bool

abbrev pub stale_after : ℕ
stale_after = 5 * (60 * second)

abbrev pub is_silent : ℕ → Option ℕ → Bool
is_silent now none = true
is_silent now (some seen) = ltb (seen + stale_after) now

abbrev pub is_open_offline : ℕ → ZoneAlert → Bool
is_open_offline id a =
    a.zone_id == id && text_eq a.kind (bytes "offline") && opt_eq a.resolved_at none

abbrev pub offline_alert : ℕ → ZoneAlert
offline_alert id = record { zone_id = id; kind = bytes "offline"; resolved_at = none }

module _ (env : WatchEnv) where
  abbrev pub mark_zone_as : Text → ℕ → List Zone → List Zone
  mark_zone_as status id zones =
      if env.fails mark_zone
      then zones
      else update_where (λ z. z.id == id) (λ z. record z { last_status = status }) zones

  -- A count that fails leaves its variable at 0.
  abbrev pub open_alerts : ℕ → List ZoneAlert → ℕ
  open_alerts id alerts =
      if env.fails count_alerts then 0 else count_where (is_open_offline id) alerts

  abbrev pub raise_alert : ℕ → List ZoneAlert → List ZoneAlert
  raise_alert id alerts =
      if open_alerts id alerts == 0 && not (env.fails create_alert)
      then alerts ++ offline_alert id ∷ []
      else alerts

  abbrev pub close_alerts : ℕ → List ZoneAlert → List ZoneAlert
  close_alerts id alerts =
      if env.fails resolve_alerts
      then alerts
      else update_where (is_open_offline id) (λ a. record a { resolved_at = some env.now }) alerts

  -- `zone` is the row that the sweep read.
  unfoldable pub sweep_zone : Zone → HealthDb → HealthDb
  sweep_zone zone db =
      if is_silent env.now zone.last_seen_at
      then if text_eq zone.last_status (bytes "offline") then db else record db {
        zones = mark_zone_as (bytes "offline") zone.id db.zones;
        alerts = raise_alert zone.id db.alerts;
      }
      else if text_eq zone.last_status (bytes "online")
      then db
      else record db {
        zones = mark_zone_as (bytes "online") zone.id db.zones;
        alerts = close_alerts zone.id db.alerts;
      }

  abbrev pub sweep_each : List Zone → HealthDb → HealthDb
  sweep_each [] db = db
  sweep_each (zone ∷ zones) db = sweep_each zones (sweep_zone zone db)

  unfoldable pub run_router_health_sweep : HealthDb → HealthDb
  run_router_health_sweep db =
      if env.fails find_zones
      then db
      else sweep_each (select (λ z. text_eq z.status (bytes "active")) db.zones) db

unfoldable pub run_sweeps : List WatchEnv → HealthDb → HealthDb
run_sweeps [] db = db
run_sweeps (env ∷ envs) db = run_sweeps envs (run_router_health_sweep env db)
