-- ===== src/Router/Health/Tests.antt =====
-- Runs of check-ins and outages at concrete values (services/router_health.go).
use zyranet_api.Base.{ℕ, ◌+◌, ◌*◌, ◌≡◌, refl, true, false, none, some, [], ◌∷◌, arith}
use zyranet_api.Int.{pos}
use zyranet_api.Text.{bytes, text_eq, trim_space, trim_left, trim_right}
use zyranet_api.Models.{Zone, Package, Customer, CustomerStatus}
use zyranet_api.Router.Health.{
  HealthDb, HealthEnv, compensate_one, compensate_outage, compensate_all, new_expiry, second,
  restored, is_open_zone,
}
use zyranet_api.Router.Health.Record.{RouterCheckIn, record_router_check_in}
use zyranet_api.Router.Health.Laws.{IsCompensated, compensate_one_restores}
use zyranet_api.Router.Health.CheckIn.{SameBooks, check_in_once}

abbrev env_at : ℕ → HealthEnv
env_at now = record {
  now = now;
  app_env = bytes "production";
  usable_public_ip = λ ip. true;
  fails = λ s. false;
}

abbrev zone : Zone
zone = record {
  id = 4;
  org_id = 1;
  name = [];
  status = bytes "active";
  last_seen_at = some 1000;
  last_status = bytes "online";
  router_ip = bytes "10.200.0.7";
  public_ip = bytes "41.1.1.1";
  router_name = [];
}

abbrev plan : Package
plan = record {
  id = 9;
  zone_id = 4;
  name = [];
  price = pos 5000;
  is_free_tier = false;
  time_limit_minutes = none;
  billing_cycle = bytes "daily";
  status = bytes "active";
}

abbrev customer : Customer
customer = record {
  id = 2;
  name = [];
  phone = [];
  zone_id = 4;
  package_id = 9;
  kind = bytes "hotspot";
  status = CustomerStatus.expired;
  expires_at = some (1000 + 300 * second);
  pppoe_username = none;
  mac_address = none;
  credit_balance = pos 0;
}

abbrev db : HealthDb
db = record {
  zones = zone ∷ [];
  packages = plan ∷ [];
  customers = customer ∷ [];
  outages = [];
  alerts = [];
  audits = [];
  reconciled = [];
}

abbrev beat : RouterCheckIn
beat = record { source_ip = bytes "41.1.1.2"; board = bytes "hAP"; heartbeat = true }

-- Back after twenty minutes: the five minutes that were left start now.
compensated_test :
    (record_router_check_in (env_at (1000 + 1200 * second)) zone beat db).customers
    ≡ restored 1000 (1000 + 1200 * second) (1000 + 300 * second) customer ∷ []
unfolding record_router_check_in compensate_outage compensate_all text_eq trim_space trim_left
    trim_right
compensated_test = refl

five_minutes_test :
    new_expiry 1000 (1000 + 1200 * second) (1000 + 300 * second) ≡ 1000 + 1500 * second
unfolding new_expiry
five_minutes_test = refl

compensate_one_restores_example :
    let end = 1000 + 1200 * second in
    IsCompensated true 1000 end
      (1000 + 300 * second)
      3
      customer
      (0, db)
      (compensate_one (env_at end) 1000 end customer (0, db))
compensate_one_restores_example =
    compensate_one_restores (env_at (1000 + 1200 * second)) 1000 (1000 + 1200 * second)
      (1000 + 300 * second) 0 3 customer db (omega arith) (omega arith) refl refl refl refl refl

check_in_once_example :
    let after = record_router_check_in (env_at (1000 + 1200 * second)) zone beat db in
    SameBooks after (record_router_check_in (env_at (1001 + 1200 * second)) zone beat after)
check_in_once_example =
    check_in_once (env_at (1000 + 1200 * second)) (env_at (1001 + 1200 * second)) zone beat beat db
      refl refl

open_test : is_open_zone zone ≡ true
unfolding text_eq
open_test = refl
