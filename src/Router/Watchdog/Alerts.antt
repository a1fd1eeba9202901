-- ===== src/Router/Watchdog/Alerts.antt =====
-- The alerts that the watchdog raises and closes (services/watchdog.go: `runRouterHealthSweep`).
use zyranet_api.Base.{
  ℕ, ◌+◌, ◌≡◌, false, some, List, [], ◌∷◌, ◌++◌, ◌==◌, ◌≤◌, arith, if◌then◌else◌, count_where,
  update_where, select, Bool-cases, inl, inr,
}
use zyranet_api.Text.{bytes, text_eq}
use zyranet_api.Models.{Zone}
use zyranet_api.Router.Health.{ZoneAlert, HealthDb}
use zyranet_api.Router.Watchdog.{
  WatchEnv, find_zones, count_alerts, is_open_offline, offline_alert, raise_alert, sweep_zone,
  sweep_each, run_router_health_sweep, run_sweeps,
}

-- No zone has two open alerts.
abbrev pub HasSingleAlerts : HealthDb → Type 0
HasSingleAlerts db = (id : ℕ) → count_where (is_open_offline id) db.alerts ≤ 1

-- Every run's count of open alerts comes back.
abbrev pub CountsAll : List WatchEnv → Type 0
CountsAll [] = Unit
CountsAll (env ∷ envs) = (env.fails count_alerts ≡ false) × CountsAll envs

raise_count :
    (id at : ℕ) (alerts : List ZoneAlert)
    → count_where (is_open_offline id) (alerts ++ offline_alert at ∷ [])
      ≡ count_where (is_open_offline id) alerts + (if at == id then 1 else 0)
unfolding text_eq
raise_count id at [] = ground arith
raise_count id at (a ∷ alerts) = ground (arith, raise_count id at alerts)

close_count :
    (id at now : ℕ) (alerts : List ZoneAlert)
    → count_where
        (is_open_offline id)
        (update_where (is_open_offline at) (λ a. record a { resolved_at = some now }) alerts)
      ≤ count_where (is_open_offline id) alerts
close_count id at now [] = omega arith
close_count id at now (a ∷ alerts) = ground (arith, close_count id at now alerts)

raise_alert-single :
    (env : WatchEnv) (at id : ℕ) (alerts : List ZoneAlert)
    → env.fails count_alerts ≡ false
    → count_where (is_open_offline id) alerts ≤ 1
    → count_where (is_open_offline id) (raise_alert env at alerts) ≤ 1
raise_alert-single env at id alerts counts h = elim (Bool-cases (at == id)) [
  | inl own ↦ ground (arith, raise_count id at alerts)
  | inr other ↦ ground (arith, raise_count id at alerts)
]

sweep_zone-single :
    (env : WatchEnv) (zone : Zone) (db : HealthDb)
    → env.fails count_alerts ≡ false
    → HasSingleAlerts db
    → HasSingleAlerts (sweep_zone env zone db)
unfolding sweep_zone
sweep_zone-single env zone db counts h id =
    let before = h id in
    ground
      (arith, raise_alert-single env zone.id id db.alerts, close_count id zone.id env.now db.alerts)

sweep_each-single :
    (env : WatchEnv) (zones : List Zone) (db : HealthDb)
    → env.fails count_alerts ≡ false
    → HasSingleAlerts db
    → HasSingleAlerts (sweep_each env zones db)
sweep_each-single env [] db counts h = h
sweep_each-single env (zone ∷ zones) db counts h =
    sweep_each-single env zones (sweep_zone env zone db) counts
      (sweep_zone-single env zone db counts h)

run_router_health_sweep-single :
    (env : WatchEnv) (db : HealthDb)
    → env.fails count_alerts ≡ false
    → HasSingleAlerts db
    → HasSingleAlerts (run_router_health_sweep env db)
unfolding run_router_health_sweep
run_router_health_sweep-single env db counts h = elim (Bool-cases (env.fails find_zones)) [
  | inl failing ↦ rw failing h
  | inr found ↦
      rw found (
        sweep_each-single env (select (λ z. text_eq z.status (bytes "active")) db.zones) db counts
          h)
]

-- However often the watchdog looks at the routers, no zone ever has two open alerts that it is offline,
-- if none had two before and the watchdog's counts of open alerts do not fail; its other statements may.
pub run_sweeps-HasSingleAlerts :
    (envs : List WatchEnv) (db : HealthDb)
    → CountsAll envs
    → HasSingleAlerts db
    → HasSingleAlerts (run_sweeps envs db)
unfolding run_sweeps
run_sweeps-HasSingleAlerts [] db counts h = h
run_sweeps-HasSingleAlerts (env ∷ envs) db counts h =
    run_sweeps-HasSingleAlerts envs (run_router_health_sweep env db) counts.1
      (run_router_health_sweep-single env db counts.0 h)
