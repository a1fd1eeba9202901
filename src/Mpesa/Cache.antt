-- ===== src/Mpesa/Cache.antt =====
-- The caches of the platform's settings and of each zone's credentials (services/cache.go), and the
-- reads through them (services/mpesa.go: `ResolveMpesaCreds`, `loadMpesaSettingsMap`). The time is in
-- nanoseconds.
pub mod Laws
use zyranet_api.Base.{
  ℕ, ◌+◌, ◌*◌, ◌^◌, Bool, Option, none, some, List, [], ◌∷◌, ◌==◌, ltb, leb, if◌then◌else◌, length,
  find_first,
}
use zyranet_api.Text.{Text}
use zyranet_api.Mpesa.Creds.{
  Creds, MpesaConfig, CredsDb, CredsStmt, find_settings, query_settings, resolve_with,
}

abbrev pub cache_ttl : ℕ
cache_ttl = 30 * 10 ^ 9

abbrev pub cache_max_entries : ℕ
cache_max_entries = 5000

pub record CachedSettings : Type 0 where
  pub settings : List (Text × Text)
  pub expires : ℕ

pub record CachedCreds : Type 0 where
  pub zone_id : ℕ
  pub creds : Creds
  pub expires : ℕ

pub record Cache : Type 0 where
  pub settings : Option CachedSettings
  pub creds : List CachedCreds

-- The state when the server starts, and after `InvalidateMpesaCaches`.
abbrev pub empty_cache : Cache
empty_cache = record { settings = none; creds = [] }

unfoldable pub invalidate : Cache → Cache
invalidate _ = empty_cache

abbrev pub unexpired : ℕ → Option CachedSettings → Option (List (Text × Text))
unexpired now none = none
unexpired now (some e) = if ltb now e.expires then some e.settings else none

abbrev pub cached_settings : ℕ → Cache → Option (List (Text × Text))
cached_settings now cache = unexpired now cache.settings

abbrev pub store_settings : ℕ → List (Text × Text) → Cache → Cache
store_settings now m cache = record cache {
  settings = some (record { settings = m; expires = now + cache_ttl });
}

abbrev pub unexpired_creds : ℕ → Option CachedCreds → Option Creds
unexpired_creds now none = none
unexpired_creds now (some e) = if ltb now e.expires then some e.creds else none

abbrev pub cached_creds_for : ℕ → ℕ → Cache → Option Creds
cached_creds_for now zone_id cache =
    unexpired_creds now (find_first (λ e. e.zone_id == zone_id) cache.creds)

-- A write to the map of credentials.
abbrev pub put_creds : CachedCreds → List CachedCreds → List CachedCreds
put_creds entry [] = entry ∷ []
put_creds entry (e ∷ es) = if e.zone_id == entry.zone_id then entry ∷ es else e ∷ put_creds entry es

abbrev pub store_creds : ℕ → ℕ → Creds → Cache → Cache
store_creds now zone_id c cache =
    let kept = if leb cache_max_entries (length cache.creds) then [] else cache.creds in
    record cache {
      creds = put_creds (record { zone_id = zone_id; creds = c; expires = now + cache_ttl }) kept;
    }

-- The settings, from the cache or from the database of the moment.
unfoldable pub load_settings : (CredsStmt → Bool) → CredsDb → ℕ → Cache → List (Text × Text) × Cache
load_settings fails db now cache = elim (cached_settings now cache) [
  | some m ↦ (m, cache)
  | none ↦
      let m = query_settings (fails find_settings) db.settings in (m, store_settings now m cache)
]

-- The credentials of a zone, from the caches or from the database of the moment.
unfoldable pub resolve_cached :
    MpesaConfig → (CredsStmt → Bool) → CredsDb → ℕ → ℕ → Cache → Creds × Cache
unfolding load_settings
resolve_cached cfg fails db now zone_id cache = elim (cached_creds_for now zone_id cache) [
  | some c ↦ (c, cache)
  | none ↦
      let loaded = load_settings fails db now cache in
      let c = resolve_with cfg fails loaded.0 db zone_id in (c, store_creds now zone_id c loaded.1)
]
