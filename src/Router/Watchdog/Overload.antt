-- ===== src/Router/Watchdog/Overload.antt =====
-- The watchdog's look at the customers whose time is up (services/watchdog.go:
-- `runOverloadProtectionSweep`). What it tells the routers is listed; account numbers, which the
-- customer's row here leaves out, are a function of the customer's id.
use zyranet_api.Base.{
  ℕ, Bool, true, false, ◌&&◌, Option, none, some, List, [], ◌∷◌, ◌==◌, if◌then◌else◌, update_where,
  opt_eq, select, find_first,
}
use zyranet_api.Text.{Text, bytes, text_eq}
use zyranet_api.Voucher.Redeem.{is_past}
use zyranet_api.Models.{Zone, Customer, CustomerStatus}

pub record Session : Type 0 where
  pub customer_id : ℕ
  pub ended_at : Option ℕ

-- A call of a router, which runs beside the sweep.
pub data RouterCall : Type 0 where
  decommission_pppoe : ℕ → Text → RouterCall
  disconnect_client : ℕ → Text → RouterCall

pub record OnlineDb : Type 0 where
  pub customers : List Customer
  pub sessions : List Session
  pub zones : List Zone
  pub calls : List RouterCall

pub data OverloadStmt : Type 0 where
  find_expired expire_customer end_sessions : OverloadStmt

pub record OverloadEnv : Type 0 where
  pub now : ℕ
  pub account_number : ℕ → Text
  pub fails : OverloadStmt → Bool

abbrev pub is_active_customer : CustomerStatus → Bool
is_active_customer CustomerStatus.active = true
is_active_customer _ = false

abbrev pub is_overdue : ℕ → Customer → Bool
is_overdue now c = is_active_customer c.status && is_past now c.expires_at

abbrev pub filled : Option Text → Text → Text
filled none otherwise = otherwise
filled (some s) otherwise = if text_eq s [] then otherwise else s

-- The call with this name, if there is one.
abbrev pub with_name : Text → (Text → RouterCall) → List RouterCall → List RouterCall
with_name s call calls = if text_eq s [] then calls else call s ∷ calls

module _ (env : OverloadEnv) where
  -- The call for a customer of this zone, in front of the others.
  abbrev pub kick : Option Zone → Customer → List RouterCall → List RouterCall
  kick none c calls = calls
  kick (some z) c calls =
      if text_eq z.router_ip []
      then calls
      else if text_eq c.kind (bytes "pppoe")
      then with_name (filled c.pppoe_username (env.account_number c.id)) (decommission_pppoe z.id)
          calls
      else with_name (filled c.mac_address c.phone) (disconnect_client z.id) calls

  abbrev pub expire : ℕ → List Customer → List Customer
  expire id cs =
      if env.fails expire_customer
      then cs
      else update_where (λ c. c.id == id) (λ c. record c { status = CustomerStatus.expired }) cs

  abbrev pub close_sessions : ℕ → List Session → List Session
  close_sessions id ss =
      if env.fails end_sessions
      then ss
      else update_where (λ s. s.customer_id == id && opt_eq s.ended_at none)
          (λ s. record s { ended_at = some env.now }) ss

  unfoldable pub shut_off : Customer → OnlineDb → OnlineDb
  shut_off c db = record db {
    customers = expire c.id db.customers;
    sessions = close_sessions c.id db.sessions;
    calls = kick (find_first (λ z. z.id == c.zone_id) db.zones) c db.calls;
  }

  abbrev pub shut_off_each : List Customer → OnlineDb → OnlineDb
  shut_off_each [] db = db
  shut_off_each (c ∷ cs) db = shut_off_each cs (shut_off c db)

  unfoldable pub run_overload_protection_sweep : OnlineDb → OnlineDb
  run_overload_protection_sweep db =
      if env.fails find_expired
      then db
      else shut_off_each (select (is_overdue env.now) db.customers) db
