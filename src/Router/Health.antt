-- ===== src/Router/Health.antt =====
-- Whether a zone takes payments, and the time that customers get back after an outage
-- (services/router_health.go). What `net.ParseIP` says of an address, and
-- `ReconcileCustomer` (which works on other tables) are outside; the ids that it is called for are kept.
pub mod Record
pub mod Laws
pub mod CheckIn
mod Tests
use zyranet_api.Base.{
  ℕ, suc, ◌+◌, ◌-◌, ◌*◌, ◌/◌, ◌^◌, Bool, true, false, not, ◌&&◌, ◌||◌, Option, none, some, List, [],
  ◌∷◌, ◌++◌, leb, ltb, ◌==◌, if◌then◌else◌, find_first, select, count_where, update_where, opt_eq,
}
use zyranet_api.Int.{pos, leb_ℤ}
use zyranet_api.Text.{Text, bytes, text_eq, trim_space}
use zyranet_api.Text.Cut.{has_prefix}
use zyranet_api.Models.{Zone, Package, Customer, CustomerStatus}

-- Durations in nanoseconds.
abbrev pub second : ℕ
second = 10 ^ 9

abbrev pub router_offline_after : ℕ
router_offline_after = 5 * 60 * second

abbrev pub outage_compensate_after : ℕ
outage_compensate_after = 10 * 60 * second

abbrev pub max_outage_compensation : ℕ
max_outage_compensation = 7 * 24 * 60 * 60 * second

pub record ZoneOutage : Type 0 where
  pub org_id : ℕ
  pub zone_id : ℕ
  pub started_at : ℕ
  pub ended_at : ℕ
  pub duration_seconds : ℕ
  pub compensated_seconds : ℕ
  pub customers_compensated : ℕ

pub record ZoneAlert : Type 0 where
  pub zone_id : ℕ
  pub kind : Text
  pub resolved_at : Option ℕ

-- An entry of the audit log about a changed address.
pub record IpChange : Type 0 where
  pub zone_id : ℕ
  pub field_name : Text
  pub old : Text
  pub new : Text

pub record HealthDb : Type 0 where
  pub zones : List Zone
  pub packages : List Package
  pub customers : List Customer
  pub outages : List ZoneOutage
  pub alerts : List ZoneAlert
  pub audits : List IpChange
  pub reconciled : List ℕ

pub data HealthStmt : Type 0 where
  find_zone update_zone freshen_zone audit resolve_alert find_customers update_customer
        insert_outage :
      HealthStmt

pub record HealthEnv : Type 0 where
  pub now : ℕ
  pub app_env : Text
  pub usable_public_ip : Text → Bool
  pub fails : HealthStmt → Bool

pub data Accepting : Type 0 where
  accepts not_set_up offline : Accepting

abbrev pub seen_recently : ℕ → Option ℕ → Bool
seen_recently now none = false
seen_recently now (some seen) = leb (now - seen) router_offline_after

-- The status of a zone that is open: none, or active.
abbrev pub is_open_zone : Zone → Bool
is_open_zone z = text_eq z.status [] || text_eq z.status (bytes "active")

abbrev pub accepting_zone : ℕ → Option Zone → Accepting
accepting_zone now none = not_set_up
accepting_zone now (some z) =
    if not (is_open_zone z)
    then offline
    else if seen_recently now z.last_seen_at
    then accepts
    else offline

abbrev pub zone_by_id : ℕ → HealthDb → Option Zone
zone_by_id id db = find_first (λ z. z.id == id) db.zones

unfoldable pub zone_accepting_payments : HealthEnv → ℕ → HealthDb → Accepting
zone_accepting_payments env zone_id db =
    if text_eq env.app_env (bytes "local")
    then accepts
    else accepting_zone env.now (if env.fails find_zone then none else zone_by_id zone_id db)

abbrev pub is_wire_guard_ip : Text → Bool
is_wire_guard_ip ip = has_prefix (trim_space ip) (bytes "10.200.")

-- Customers whose time was running when the outage started.
abbrev pub is_affected : ℕ → ℕ → Customer → Bool
is_affected zone_id start c =
    c.zone_id == zone_id
    && (elim c.status [
      | CustomerStatus.active ↦ true
      | CustomerStatus.expired ↦ true
      | CustomerStatus.suspended ↦ false
    ])
    && (elim c.expires_at [ none ↦ false | some e ↦ ltb start e ])

-- A plan that was paid for.
abbrev pub is_paid_plan : Option Package → Bool
is_paid_plan none = false
is_paid_plan (some p) = not p.is_free_tier && not (leb_ℤ p.price (pos 0))

abbrev pub min_of : ℕ → ℕ → ℕ
min_of a b = if ltb b a then b else a

-- The end of a plan that ended at `e`, after an outage from `start` to `end`.
unfoldable pub new_expiry : ℕ → ℕ → ℕ → ℕ
new_expiry start end e =
    let cutoff = start + min_of (end - start) max_outage_compensation in
    let give = min_of e cutoff - start in if ltb end e then e + give else end + give

abbrev pub restored : ℕ → ℕ → ℕ → Customer → Customer
restored start end e c = record c {
  expires_at = some (new_expiry start end e);
  status = CustomerStatus.active;
}

module _ (env : HealthEnv) where
  -- One customer of those that were read; the row is written only if it still ends as it was read.
  abbrev pub give_back : ℕ → ℕ → Customer → ℕ → ℕ × HealthDb → ℕ × HealthDb
  give_back start end c e (count, db) =
      let hit : Customer → Bool = λ r. r.id == c.id && opt_eq r.expires_at (some e) in
      if env.fails update_customer || not (count_where hit db.customers == 1)
      then (count, db)
      else (
        suc count,
        record db {
          customers = update_where hit (restored start end e) db.customers;
          reconciled = db.reconciled ++ c.id ∷ [];
        },
      )

  abbrev pub compensate_one : ℕ → ℕ → Customer → ℕ × HealthDb → ℕ × HealthDb
  compensate_one start end c acc = elim c.expires_at [
    | none ↦ acc
    | some e ↦
        if is_paid_plan (find_first (λ p. p.id == c.package_id) acc.1.packages)
          && ltb start (min_of e (start + min_of (end - start) max_outage_compensation))
        then give_back start end c e acc
        else acc
  ]

  unfoldable pub compensate_all : ℕ → ℕ → List Customer → ℕ × HealthDb → ℕ × HealthDb
  compensate_all start end [] acc = acc
  compensate_all start end (c ∷ cs) acc =
      compensate_all start end cs (compensate_one start end c acc)

  abbrev pub log_outage : Zone → ℕ → ℕ → ℕ × HealthDb → HealthDb
  log_outage zone start end (count, db) = if env.fails insert_outage then db else record db {
    outages =
        db.outages
        ++ record {
          org_id = zone.org_id;
          zone_id = zone.id;
          started_at = start;
          ended_at = end;
          duration_seconds = (end - start) / second;
          compensated_seconds = min_of (end - start) max_outage_compensation / second;
          customers_compensated = count;
        }
          ∷ [];
  }

  unfoldable pub compensate_outage : Zone → ℕ → ℕ → HealthDb → HealthDb
  compensate_outage zone start end db =
      if leb end start
      then db
      else let affected =
          if env.fails find_customers
          then []
          else select (is_affected zone.id start) db.customers in
        log_outage zone start end (compensate_all start end affected (0, db))
