-- ===== src/Router/Watchdog/Tests.antt =====
-- Runs and witnesses for the watchdog.
use zyranet_api.Base.{◌+◌, ◌≡◌, refl, true, false, none, some, [], ◌∷◌, arith}
use zyranet_api.Int.{pos}
use zyranet_api.Text.{bytes, text_eq}
use zyranet_api.Models.{Zone, Customer, CustomerStatus}
use zyranet_api.Router.Health.{HealthDb}
use zyranet_api.Router.Watchdog.{
  WatchEnv, mark_zone, run_sweeps, offline_alert, sweep_zone, run_router_health_sweep, stale_after,
}
use zyranet_api.Router.Watchdog.Alerts.{HasSingleAlerts, run_sweeps-HasSingleAlerts}
use zyranet_api.Router.Watchdog.Overload.{
  OnlineDb, OverloadEnv, run_overload_protection_sweep, shut_off, disconnect_client,
}
use zyranet_api.Router.Watchdog.Cutoff.{AllOnTime, run_overload_protection_sweep-AllOnTime}

abbrev router : Zone
router = record {
  id = 4;
  org_id = 2;
  name = bytes "Market";
  status = bytes "active";
  last_seen_at = some 100;
  last_status = bytes "online";
  router_ip = bytes "10.8.0.2";
  public_ip = [];
  router_name = [];
}

abbrev silent_db : HealthDb
silent_db = record {
  zones = router ∷ [];
  packages = [];
  customers = [];
  outages = [];
  alerts = [];
  audits = [];
  reconciled = [];
}

-- The mark does not reach the zone's row, so that the second run finds it silent again.
abbrev unmarked : WatchEnv
unmarked = record { now = 101 + stale_after; fails = λ s. elim s [ mark_zone ↦ true | _ ↦ false ] }

two_sweeps : (run_sweeps (unmarked ∷ unmarked ∷ []) silent_db).alerts ≡ offline_alert 4 ∷ []
unfolding run_sweeps run_router_health_sweep sweep_zone text_eq
two_sweeps = refl

run_sweeps-HasSingleAlerts_example :
    HasSingleAlerts (run_sweeps (unmarked ∷ unmarked ∷ []) silent_db)
run_sweeps-HasSingleAlerts_example =
    run_sweeps-HasSingleAlerts (unmarked ∷ unmarked ∷ []) silent_db (refl, (refl, tt))
      (λ id. omega arith)

abbrev guest : Customer
guest = record {
  id = 8;
  name = bytes "Guest";
  phone = bytes "0712345678";
  zone_id = 4;
  package_id = 1;
  kind = bytes "hotspot";
  status = CustomerStatus.active;
  expires_at = some 100;
  pppoe_username = none;
  mac_address = none;
  credit_balance = pos 0;
}

abbrev online : OnlineDb
online = record {
  customers = guest ∷ record guest { id = 9; expires_at = some 300 } ∷ [];
  sessions = record { customer_id = 8; ended_at = none } ∷ [];
  zones = router ∷ [];
  calls = [];
}

abbrev at_200 : OverloadEnv
at_200 = record { now = 200; account_number = λ id. []; fails = λ s. false }

guest_disconnected :
    (run_overload_protection_sweep at_200 online).calls
    ≡ disconnect_client 4 (bytes "0712345678") ∷ []
unfolding run_overload_protection_sweep shut_off text_eq
guest_disconnected = refl

run_overload_protection_sweep-AllOnTime_example :
    AllOnTime 200 (run_overload_protection_sweep at_200 online).customers
run_overload_protection_sweep-AllOnTime_example =
    run_overload_protection_sweep-AllOnTime at_200 online refl refl
