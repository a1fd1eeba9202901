-- ===== src/Router/Health/Record.antt =====
-- The check-ins of a zone's router (services/router_health.go: `RecordRouterCheckIn`).
use zyranet_api.Base.{
  ℕ, ◌-◌, Bool, not, ◌&&◌, ◌||◌, Option, none, some, List, [], ◌∷◌, ◌++◌, leb, ltb, ◌==◌,
  if◌then◌else◌, count_where, update_where, opt_eq, length,
}
use zyranet_api.Text.{Text, bytes, text_eq, trim_space}
use zyranet_api.Models.{Zone}
use zyranet_api.Router.Health.{
  outage_compensate_after, is_wire_guard_ip, compensate_outage, ZoneAlert, IpChange, HealthDb,
  HealthEnv, update_zone, freshen_zone, audit, resolve_alert,
}

-- An authenticated request of a zone's router.
pub record RouterCheckIn : Type 0 where
  pub source_ip : Text
  pub board : Text
  pub heartbeat : Bool

abbrev pub is_default_name : Text → Bool
is_default_name name =
    text_eq name [] || text_eq name (bytes "Default Router") || text_eq name (bytes "RB951")

module _ (env : HealthEnv) (zone : Zone) (inp : RouterCheckIn) where
  abbrev pub has_ip : Bool
  has_ip = inp.heartbeat && env.usable_public_ip inp.source_ip

  abbrev pub moves_public_ip : Bool
  moves_public_ip = has_ip && not (text_eq zone.public_ip (trim_space inp.source_ip))

  abbrev pub moves_router_ip : Bool
  moves_router_ip =
      has_ip
      && not (is_wire_guard_ip zone.router_ip)
      && not (text_eq zone.router_ip (trim_space inp.source_ip))

  abbrev pub names_board : Bool
  names_board =
      inp.heartbeat
      && not (text_eq (trim_space inp.board) [])
      && leb (length (trim_space inp.board)) 64
      && is_default_name zone.router_name

  abbrev pub checked_in : Zone → Zone
  checked_in z = record z {
    last_seen_at = some env.now;
    last_status = bytes "online";
    public_ip = if moves_public_ip then trim_space inp.source_ip else z.public_ip;
    router_ip = if moves_router_ip then trim_space inp.source_ip else z.router_ip;
    router_name = if names_board then trim_space inp.board else z.router_name;
  }

  abbrev pub fresh : Zone → Zone
  fresh z = record z { last_seen_at = some env.now; last_status = bytes "online" }

  abbrev pub ip_changes : List IpChange
  ip_changes =
      (if moves_public_ip && not (text_eq zone.public_ip [])
        then record {
          zone_id = zone.id;
          field_name = bytes "public_ip";
          old = zone.public_ip;
          new = trim_space inp.source_ip;
        }
          ∷ []
        else [])
      ++ (if moves_router_ip
          then record {
            zone_id = zone.id;
            field_name = bytes "router_ip";
            old = zone.router_ip;
            new = trim_space inp.source_ip;
          }
            ∷ []
          else [])

  abbrev pub is_open_alert : ZoneAlert → Bool
  is_open_alert a =
      a.zone_id == zone.id && text_eq a.kind (bytes "offline") && opt_eq a.resolved_at none

  abbrev pub resolve_alerts : HealthDb → HealthDb
  resolve_alerts db = if env.fails resolve_alert then db else record db {
    alerts = update_where is_open_alert (λ a. record a { resolved_at = some env.now }) db.alerts;
  }

  abbrev pub end_outage : Option ℕ → HealthDb → HealthDb
  end_outage none db = db
  end_outage (some prev) db =
      if ltb outage_compensate_after (env.now - prev)
      then compensate_outage env zone prev env.now (resolve_alerts db)
      else db

  abbrev pub log_changes : HealthDb → HealthDb
  log_changes db = if env.fails audit then db else record db { audits = db.audits ++ ip_changes }

  abbrev pub is_as_read : Zone → Bool
  is_as_read z = z.id == zone.id && opt_eq z.last_seen_at zone.last_seen_at

  abbrev pub keep_fresh : HealthDb → HealthDb
  keep_fresh db =
      if env.fails freshen_zone
      then db
      else record db { zones = update_where (λ z. z.id == zone.id) fresh db.zones }

  -- `zone` is the row that was read before.
  unfoldable pub record_router_check_in : HealthDb → HealthDb
  record_router_check_in db =
      if env.fails update_zone || count_where is_as_read db.zones == 0
      then keep_fresh db
      else end_outage zone.last_seen_at
          (log_changes (record db { zones = update_where is_as_read checked_in db.zones }))
