-- ===== src/Access/Tenant.antt =====
-- Which ISP's portal a request came from (middleware/tenant.go). `url.Parse` is a parameter.
use zyranet_api.Base.{
  ℕ, ◌+◌, ◌*◌, ◌||◌, Bool, true, false, not, ◌&&◌, Option, none, some, List, [], ◌∷◌, ◌++◌, ltb,
  leb, if◌then◌else◌, find_first, length, exists_where,
}
use zyranet_api.Text.{Text, bytes, text_eq, trim_space, to_lower}
use zyranet_api.Text.Cut.{equal_fold}
use zyranet_api.Router.Health.{second}
use zyranet_api.Utils.Subdomain.{subdomain_from_host, without_port}

pub record Url : Type 0 where
  pub scheme : Text
  pub host : Text
  pub hostname : Text

pub record AccessConfig : Type 0 where
  pub app_env : Text
  pub base_domain : Text
  pub allowed_origins : List Text
  pub parse_url : Text → Option Url

abbrev pub tenant_cache_ttl : ℕ
tenant_cache_ttl = 30 * second

abbrev pub tenant_cache_max : ℕ
tenant_cache_max = 2000

pub record TenantEntry : Type 0 where
  pub subdomain : Text
  pub found : Bool
  pub id : ℕ
  pub status : Text
  pub expires : ℕ

-- The columns of an organization that a portal needs.
pub record Portal : Type 0 where
  pub id : ℕ
  pub subdomain : Text
  pub status : Text

abbrev pub is_fresh : ℕ → Text → TenantEntry → Bool
is_fresh now sub e = text_eq e.subdomain sub && ltb now e.expires

abbrev pub entry_of : ℕ → Text → Option Portal → TenantEntry
entry_of now sub none = record {
  subdomain = sub;
  found = false;
  id = 0;
  status = [];
  expires = now + tenant_cache_ttl;
}
entry_of now sub (some p) = record {
  subdomain = sub;
  found = true;
  id = p.id;
  status = p.status;
  expires = now + tenant_cache_ttl;
}

abbrev pub drop_subdomain : Text → List TenantEntry → List TenantEntry
drop_subdomain sub [] = []
drop_subdomain sub (e ∷ es) =
    if text_eq e.subdomain sub then drop_subdomain sub es else e ∷ drop_subdomain sub es

-- A later entry stands in front of an older one for the same subdomain.
abbrev pub remember : TenantEntry → List TenantEntry → List TenantEntry
remember e cache =
    let others = drop_subdomain e.subdomain cache in
    if leb tenant_cache_max (length cache) then e ∷ [] else e ∷ others

-- The first portal with this subdomain; a query that fails finds none.
abbrev pub query_portal : Bool → List Portal → Text → Option Portal
query_portal failing portals sub =
    if failing then none else find_first (λ p. text_eq p.subdomain sub) portals

unfoldable pub lookup_tenant :
    ℕ → Bool → List Portal → Text → List TenantEntry → TenantEntry × List TenantEntry
lookup_tenant now failing portals sub cache = elim (find_first (is_fresh now sub) cache) [
  | some e ↦ (e, cache)
  | none ↦ let e = entry_of now sub (query_portal failing portals sub) in (e, remember e cache)
]

unfoldable pub is_platform_host : AccessConfig → Text → Bool
is_platform_host cfg host =
    exists_where
      (λ o. elim (cfg.parse_url (trim_space o)) [
        | none ↦ false
        | some u ↦ equal_fold u.hostname (without_port (to_lower (trim_space host)))
      ])
      cfg.allowed_origins

unfoldable pub is_platform_label : AccessConfig → Text → Bool
is_platform_label cfg label = is_platform_host cfg (to_lower label ++ bytes "." ++ cfg.base_domain)

abbrev pub host_in : AccessConfig → Text → Text
host_in cfg h = if text_eq h [] then [] else elim (cfg.parse_url h) [ none ↦ [] | some u ↦ u.host ]

unfoldable pub request_host : AccessConfig → Text → Text → Text
request_host cfg origin referer =
    if text_eq (host_in cfg origin) [] then host_in cfg referer else host_in cfg origin

-- The subdomain of an ISP's portal, or nothing.
unfoldable pub portal_subdomain : AccessConfig → Text → Text
portal_subdomain cfg host =
    if is_platform_host cfg host then [] else subdomain_from_host host cfg.base_domain

unfoldable pub is_tenant_origin :
    AccessConfig → ℕ → Bool → List Portal → Text → List TenantEntry → Bool × List TenantEntry
is_tenant_origin cfg now failing portals origin cache = elim (cfg.parse_url origin) [
  | none ↦ (false, cache)
  | some u ↦
      if text_eq u.host []
        || not (text_eq u.scheme (bytes "https")) && text_eq cfg.app_env (bytes "production")
        || text_eq (portal_subdomain cfg u.host) []
      then (false, cache)
      else let found = lookup_tenant now failing portals (portal_subdomain cfg u.host) cache in
        (found.0.found, found.1)
]

unfoldable pub admin_url : AccessConfig → Option Text → Text
admin_url cfg none = []
admin_url cfg (some sub) =
    if text_eq sub [] then [] else bytes "https://" ++ to_lower sub ++ bytes "." ++ cfg.base_domain
