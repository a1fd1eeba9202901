-- ===== src/Router/Health/CheckIn.antt =====
-- One outage is compensated once, and a router that checks in opens its zone (services/router_health.go).
use zyranet_api.Base.{
  ℕ, ◌+◌, ◌-◌, ◌≤◌, ◌≡◌, refl, sym, ◌∙◌, true, false, Option, none, some, List, [], ◌∷◌, ◌==◌, leb,
  if◌then◌else◌, count_where, update_where, opt_eq, some-injective, ==_refl, find_first, select,
  subst, arith, Bool-cases, Option-cases, inl, inr,
}
use zyranet_api.Text.{bytes, text_eq}
use zyranet_api.Models.{Zone, Customer}
use zyranet_api.Router.Health.{
  HealthDb, HealthEnv, update_zone, freshen_zone, find_zone, compensate_outage, compensate_all,
  compensate_one, give_back, log_outage, zone_accepting_payments, accepts, is_open_zone,
  router_offline_after, zone_by_id, find_customers, is_affected,
}
use zyranet_api.Router.Health.Record.{
  RouterCheckIn, record_router_check_in, end_outage, log_changes, resolve_alerts, is_as_read,
  keep_fresh, checked_in, fresh,
}

-- The tables that a check-in may write beside the zones.
pub record SameBooks (db db' : HealthDb) : Type 0 where
  pub customers : db'.customers ≡ db.customers
  pub outages : db'.outages ≡ db.outages
  pub audits : db'.audits ≡ db.audits
  pub alerts : db'.alerts ≡ db.alerts
  pub reconciled : db'.reconciled ≡ db.reconciled

-- Compensation leaves the zones alone.
compensate_all-zones :
    (env : HealthEnv) (start end : ℕ) (cs : List Customer) (count : ℕ) (db : HealthDb)
    → (compensate_all env start end cs (count, db)).1.zones ≡ db.zones
unfolding compensate_all
compensate_all-zones env start end [] count db = refl
compensate_all-zones env start end (c ∷ cs) count db =
    let step = compensate_one env start end c (count, db) in
    compensate_all-zones env start end cs step.0 step.1
    ∙ compensate_one-zones env start end c (count, db)
  where
    give_back-zones :
        (env : HealthEnv) (start end : ℕ) (c : Customer) (e : ℕ) (acc : ℕ × HealthDb)
        → (give_back env start end c e acc).1.zones ≡ acc.1.zones
    give_back-zones env start end c e (count, db) = ground arith

    compensate_one-zones :
        (env : HealthEnv) (start end : ℕ) (c : Customer) (acc : ℕ × HealthDb)
        → (compensate_one env start end c acc).1.zones ≡ acc.1.zones
    compensate_one-zones env start end c acc = elim (Option-cases c.expires_at) [
      | inl none_left ↦ rw none_left refl
      | inr (e, ends) ↦ ground (arith, give_back-zones env start end c e acc)
    ]

log_outage-zones :
    (env : HealthEnv) (zone : Zone) (start end : ℕ) (acc : ℕ × HealthDb)
    → (log_outage env zone start end acc).zones ≡ acc.1.zones
log_outage-zones env zone start end (count, db) = ground arith

compensate_outage-zones :
    (env : HealthEnv) (zone : Zone) (start end : ℕ) (db : HealthDb)
    → (compensate_outage env zone start end db).zones ≡ db.zones
unfolding compensate_outage
compensate_outage-zones env zone start end db =
    let affected =
      if env.fails find_customers then [] else select (is_affected zone.id start) db.customers in
    ground (
      arith,
      log_outage-zones env zone start end (compensate_all env start end affected (0, db)),
      compensate_all-zones env start end affected 0 db,
    )

end_outage-zones :
    (env : HealthEnv) (zone : Zone) (inp : RouterCheckIn) (prev : Option ℕ) (db : HealthDb)
    → (end_outage env zone inp prev db).zones ≡ db.zones
end_outage-zones env zone inp none db = refl
end_outage-zones env zone inp (some prev) db =
    ground (arith, compensate_outage-zones env zone prev env.now (resolve_alerts env zone inp db))

-- After a check-in no row has the time that was read.
none_as_read :
    (env : HealthEnv) (zone : Zone) (inp : RouterCheckIn) (zs : List Zone)
    → opt_eq (some env.now) zone.last_seen_at ≡ false
    → count_where
        (is_as_read env zone inp)
        (update_where (is_as_read env zone inp) (checked_in env zone inp) zs)
      ≡ 0
none_as_read env zone inp [] h = refl
none_as_read env zone inp (z ∷ zs) h = ground (arith, none_as_read env zone inp zs h)

none_fresh :
    (env : HealthEnv) (zone : Zone) (inp : RouterCheckIn) (zs : List Zone)
    → opt_eq (some env.now) zone.last_seen_at ≡ false
    → count_where
        (is_as_read env zone inp)
        (update_where (λ z. z.id == zone.id) (fresh env zone inp) zs)
      ≡ 0
none_fresh env zone inp [] h = refl
none_fresh env zone inp (z ∷ zs) h = ground (arith, none_fresh env zone inp zs h)

-- The zones after a check-in whose first write did not fail have no row with the time that was read.
checked_in-none_as_read :
    (env : HealthEnv) (zone : Zone) (inp : RouterCheckIn) (db : HealthDb)
    → opt_eq (some env.now) zone.last_seen_at ≡ false
    → env.fails update_zone ≡ false
    → count_where (is_as_read env zone inp) (record_router_check_in env zone inp db).zones ≡ 0
unfolding record_router_check_in
checked_in-none_as_read env zone inp db later works =
    elim (Bool-cases (count_where (is_as_read env zone inp) db.zones == 0)) [
      | inl stale ↦ ground (arith, none_fresh env zone inp db.zones later)
      | inr first ↦ ground (
        arith,
        none_as_read env zone inp db.zones later,
        end_outage-zones env zone inp zone.last_seen_at (
            log_changes env zone inp (record db {
              zones = update_where (is_as_read env zone inp) (checked_in env zone inp) db.zones;
            })),
      )
    ]

keep_fresh-SameBooks :
    (env : HealthEnv) (zone : Zone) (inp : RouterCheckIn) (db : HealthDb)
    → SameBooks db (keep_fresh env zone inp db)
keep_fresh-SameBooks env zone inp db = elim (Bool-cases (env.fails freshen_zone)) [
  | inl failing ↦
      rw failing (record {
        customers = refl;
        outages = refl;
        audits = refl;
        alerts = refl;
        reconciled = refl;
      })
  | inr works ↦
      rw works (record {
        customers = refl;
        outages = refl;
        audits = refl;
        alerts = refl;
        reconciled = refl;
      })
]

stale_check_in :
    (env : HealthEnv) (zone : Zone) (inp : RouterCheckIn) (db : HealthDb)
    → count_where (is_as_read env zone inp) db.zones ≡ 0
    → record_router_check_in env zone inp db ≡ keep_fresh env zone inp db
unfolding record_router_check_in
stale_check_in env zone inp db h = ground arith

-- Of two check-ins that read the same row of a zone, where the first comes at another moment than the
-- one that was read and its write goes through, the second leaves the customers, the outages, the log
-- of changed addresses, the alerts and the reconciliations as they are: an outage is compensated once.
pub check_in_once :
    (env env' : HealthEnv) (zone : Zone) (inp inp' : RouterCheckIn) (db : HealthDb)
    → opt_eq (some env.now) zone.last_seen_at ≡ false
    → env.fails update_zone ≡ false
    → SameBooks
        (record_router_check_in env zone inp db)
        (record_router_check_in env' zone inp' (record_router_check_in env zone inp db))
check_in_once env env' zone inp inp' db later works =
    let after = record_router_check_in env zone inp db in
    let none_left : count_where (is_as_read env' zone inp') after.zones ≡ 0 =
      checked_in-none_as_read env zone inp db later works in
    let second : record_router_check_in env' zone inp' after ≡ keep_fresh env' zone inp' after =
      stale_check_in env' zone inp' after none_left in
    subst (SameBooks after) (sym second) (keep_fresh-SameBooks env' zone inp' after)

opt_eq_refl : (o : Option ℕ) → opt_eq o o ≡ true
opt_eq_refl none = refl
opt_eq_refl (some n) = ==_refl n

self_as_read :
    (env : HealthEnv) (zone : Zone) (inp : RouterCheckIn) → is_as_read env zone inp zone ≡ true
self_as_read env zone inp = rw (==_refl zone.id) (rw (opt_eq_refl zone.last_seen_at) refl)

found_counts :
    (env : HealthEnv) (zone : Zone) (inp : RouterCheckIn) (zs : List Zone)
    → find_first (λ z. z.id == zone.id) zs ≡ some zone
    → (count_where (is_as_read env zone inp) zs == 0) ≡ false
found_counts env zone inp [] h = absurd (ground arith)
found_counts env zone inp (z ∷ zs) h = elim (Bool-cases (z.id == zone.id)) [
  | inl hit ↦
      let this : z ≡ zone = some-injective z zone (ground arith) in
      subst (λ y. (count_where (is_as_read env zone inp) (y ∷ zs) == 0) ≡ false) (sym this)
        (rw (self_as_read env zone inp) (ground arith))
  | inr miss ↦ ground (arith, found_counts env zone inp zs)
]

-- The row that was read is the one that is written.
found_checked_in :
    (env : HealthEnv) (zone : Zone) (inp : RouterCheckIn) (zs : List Zone)
    → find_first (λ z. z.id == zone.id) zs ≡ some zone
    → find_first
        (λ z. z.id == zone.id)
        (update_where (is_as_read env zone inp) (checked_in env zone inp) zs)
      ≡ some (checked_in env zone inp zone)
found_checked_in env zone inp [] h = absurd (ground arith)
found_checked_in env zone inp (z ∷ zs) h = elim (Bool-cases (z.id == zone.id)) [
  | inl hit ↦
      let this : z ≡ zone = some-injective z zone (ground arith) in
      subst
        (λ y.
          find_first (λ z. z.id == zone.id)
            (update_where (is_as_read env zone inp) (checked_in env zone inp) (y ∷ zs))
          ≡ some (checked_in env zone inp zone))
        (sym this) (rw (self_as_read env zone inp) (rw (==_refl zone.id) refl))
  | inr miss ↦ ground (arith, found_checked_in env zone inp zs)
]

checked_in-zones :
    (env : HealthEnv) (zone : Zone) (inp : RouterCheckIn) (db : HealthDb)
    → env.fails update_zone ≡ false
    → (count_where (is_as_read env zone inp) db.zones == 0) ≡ false
    → (record_router_check_in env zone inp db).zones
      ≡ update_where (is_as_read env zone inp) (checked_in env zone inp) db.zones
unfolding record_router_check_in
checked_in-zones env zone inp db works first = ground (
  arith,
  end_outage-zones env zone inp zone.last_seen_at (
      log_changes env zone inp (record db {
        zones = update_where (is_as_read env zone inp) (checked_in env zone inp) db.zones;
      })),
)

found-accepts :
    (env : HealthEnv) (id seen : ℕ) (z : Zone) (db : HealthDb)
    → env.fails find_zone ≡ false
    → zone_by_id id db ≡ some z
    → is_open_zone z ≡ true
    → z.last_seen_at ≡ some seen
    → env.now ≤ seen + router_offline_after
    → zone_accepting_payments env id db ≡ accepts
unfolding zone_accepting_payments
found-accepts env id seen z db read found opened last soon =
    let recent : leb (env.now - seen) router_offline_after ≡ true = ground arith in
    elim (Bool-cases (text_eq env.app_env (bytes "local"))) [
      | inl here ↦ rw (zone_accepting_payments, here) refl
      | inr away ↦ rw (zone_accepting_payments, away, read, found, opened, last, recent) refl
    ]

-- When the router of an open zone checks in, with the row as it stands and nothing failing on the
-- write, the zone takes payments from then on for five minutes.
pub check_in_opens :
    (env env' : HealthEnv) (zone : Zone) (inp : RouterCheckIn) (db : HealthDb)
    → zone_by_id zone.id db ≡ some zone
    → is_open_zone zone ≡ true
    → env.fails update_zone ≡ false
    → env'.fails find_zone ≡ false
    → env'.now ≤ env.now + router_offline_after
    → zone_accepting_payments env' zone.id (record_router_check_in env zone inp db) ≡ accepts
check_in_opens env env' zone inp db here opened works read soon =
    let found = found_checked_in env zone inp db.zones here in
    let same = checked_in-zones env zone inp db works (found_counts env zone inp db.zones here) in
    found-accepts env' zone.id env.now (checked_in env zone inp zone)
      (record_router_check_in env zone inp db) read
      (subst (λ zs. find_first (λ z. z.id == zone.id) zs ≡ some (checked_in env zone inp zone))
        (sym same) found)
      opened refl soon
