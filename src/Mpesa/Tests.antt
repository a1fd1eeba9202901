-- ===== src/Mpesa/Tests.antt =====
-- Runs of the choice of a Daraja app at concrete values (services/mpesa.go, services/cache.go).
use zyranet_api.Base.{ℕ, ◌≡◌, refl, true, false, some, none, List, [], ◌∷◌, Bool}
use zyranet_api.Text.{bytes, text_eq}
use zyranet_api.Models.{Zone}
use zyranet_api.Payout.Rows.{Organization}
use zyranet_api.Mpesa.Creds.{MpesaConfig, OrgMpesaConfig, CredsDb, CredsStmt, resolve_with}
use zyranet_api.Mpesa.Creds.Laws.{but_callback, resolve_with-own}
use zyranet_api.Mpesa.Cache.{resolve_cached, empty_cache}
use zyranet_api.Mpesa.Cache.Laws.{
  IsRecent, cache_steps, read_creds, save_config, resolve_cached-IsRecent, CacheCall,
}

abbrev cfg : MpesaConfig
cfg = record {
  consumer_key = bytes "key";
  consumer_secret = bytes "secret";
  shortcode = bytes "600100";
  passkey = bytes "pass";
  callback_url = bytes "https://api.zyra.example/callback";
  env = bytes "Production";
  app_env = bytes "production";
  callback_secret = bytes "s3cret";
}

abbrev other_cfg : MpesaConfig
other_cfg = record cfg { consumer_key = bytes "other"; shortcode = bytes "600999" }

abbrev zone_of : ℕ → ℕ → Zone
zone_of id org_id = record {
  id = id;
  org_id = org_id;
  name = [];
  status = bytes "active";
  last_seen_at = none;
  last_status = [];
  router_ip = [];
  public_ip = [];
  router_name = [];
}

abbrev own_app : OrgMpesaConfig
own_app = record {
  org_id = 1;
  mode = bytes "own";
  consumer_key = bytes " isp-key ";
  consumer_secret = bytes "isp-secret";
  shortcode = bytes "555000";
  passkey = bytes "isp-pass";
  callback_url = [];
  env = [];
  billing_type = bytes "paybill";
  till_number = [];
  paybill_number = [];
  paybill_account = [];
}

-- An ISP that is paid straight to its till.
abbrev till_isp : Organization
till_isp = record {
  id = 2;
  commission_percent = none;
  settlement_type = bytes "till";
  settlement_till = bytes " 5123 ";
  settlement_paybill = [];
  settlement_account = [];
  direct_settlement = true;
}

abbrev db : CredsDb
db = record {
  settings = record { key = bytes "mpesa_shortcode"; value = some (bytes " 600 200") } ∷ [];
  zones = zone_of 4 1 ∷ zone_of 5 2 ∷ zone_of 6 3 ∷ [];
  configs = own_app ∷ [];
  orgs = till_isp ∷ record till_isp { id = 3; direct_settlement = false } ∷ [];
}

abbrev fine : CredsStmt → Bool
fine _ = false

resolve_with-own_example :
    (but_callback (resolve_with cfg fine [] db 4)
      ≡ but_callback (resolve_with other_cfg fine [] db 4))
    × ((resolve_with cfg fine [] db 4).own ≡ true)
    × ((resolve_with cfg fine [] db 4).direct_till ≡ [])
    × ((resolve_with cfg fine [] db 4).direct_paybill ≡ [])
unfolding text_eq
resolve_with-own_example =
    resolve_with-own cfg fine [] db 4 (zone_of 4 1) own_app refl refl refl refl refl other_cfg []

abbrev calls : List (ℕ × CacheCall)
calls = (5, read_creds 4) ∷ (0, save_config) ∷ (29, read_creds 6) ∷ []

resolve_cached-IsRecent_example :
    let after = cache_steps cfg (λ t. db) (λ t. fine) 100 calls empty_cache in
    IsRecent cfg (λ t. db) (λ t. fine) after.0 4 (resolve_cached cfg fine db after.0 4 after.1).0
resolve_cached-IsRecent_example = resolve_cached-IsRecent cfg (λ t. db) (λ t. fine) 100 calls 4
