-- ===== src/Access/Sessions.antt =====
-- Sessions of staff, of the platform and of customers (middleware/auth.go, middleware/rbac.go). The
-- token library is a parameter: which claims a token carries, if it is signed and still runs. A counter
-- of revocations does not overflow, and its update does not fail.
use zyranet_api.Base.{
  ℕ, ◌+◌, Bool, false, not, ◌||◌, Option, none, some, List, [], ◌∷◌, ◌==◌, if◌then◌else◌,
  find_first, select, map, update_where,
}
use zyranet_api.Text.{Text, bytes, text_eq}
use zyranet_api.Text.Cut.{equal_fold}
use zyranet_api.Models.{Zone}
use zyranet_api.Access.Tenant.{
  AccessConfig, TenantEntry, Portal, lookup_tenant, portal_subdomain, request_host,
}

pub record Claims : Type 0 where
  pub user_id : ℕ
  pub customer_id : ℕ
  pub platform_user_id : ℕ
  pub role : Text
  pub zone_id : Option ℕ
  pub organization_id : ℕ
  pub kind : Text
  pub auth_method : Text
  pub token_version : ℕ

pub record User : Type 0 where
  pub id : ℕ
  pub role : Text
  pub zone_id : Option ℕ
  pub organization_id : ℕ
  pub status : Text
  pub token_version : ℕ

pub record PlatformUser : Type 0 where
  pub id : ℕ
  pub role : Text
  pub status : Text
  pub token_version : ℕ

pub data Cookie : Type 0 where
  admin_cookie customer_cookie platform_cookie : Cookie

pub record Request : Type 0 where
  pub cookie : Cookie → Text
  pub authorization : Text
  pub origin : Text
  pub referer : Text

pub record AccessEnv : Type 0 where
  pub now : ℕ
  pub config : AccessConfig
  pub claims_of : Text → Option Claims
  pub users : List User
  pub platform_users : List PlatformUser
  pub portals : List Portal
  pub zones : List Zone
  pub query_fails : Bool

pub data Denial : Type 0 where
  no_token wrong_kind other_portal no_account inactive revoked forbidden unverified : Denial

pub data Access : Type 0 where
  granted : Claims → Access
  denied : Denial → Access

abbrev pub snoc : Text → ℕ → Text
snoc [] c = c ∷ []
snoc (d ∷ s) c = d ∷ snoc s c

-- The text behind a first space, where the text in front of it is `Bearer` in any case.
abbrev pub bearer_from : Text → Text → Text
bearer_from scheme [] = []
bearer_from scheme (c ∷ s) =
    if c == 32
    then if equal_fold scheme (bytes "Bearer") then s else []
    else bearer_from (snoc scheme c) s

abbrev pub extract_token : Cookie → Request → Text
extract_token name req =
    if text_eq (req.cookie name) [] then bearer_from [] req.authorization else req.cookie name

module _ (env : AccessEnv) where
  unfoldable pub extract_and_validate : Cookie → Request → Option Claims
  extract_and_validate name req =
      if text_eq (extract_token name req) [] then none else env.claims_of (extract_token name req)

  abbrev pub user_by_id : ℕ → Option User
  user_by_id id = if env.query_fails then none else find_first (λ u. u.id == id) env.users

  -- The account behind the token. Role and zone are those of the account.
  abbrev pub account_access : Claims → Option User → Access
  account_access claims none = denied no_account
  account_access claims (some u) =
      if u.id == 0
      then denied no_account
      else if not (text_eq u.status (bytes "active"))
      then denied inactive
      else if not (u.token_version == claims.token_version)
      then denied revoked
      else if not (u.organization_id == claims.organization_id)
      then denied revoked
      else granted (record claims { role = u.role; zone_id = u.zone_id })

  abbrev pub is_foreign : Claims → TenantEntry → Bool
  is_foreign claims e = not e.found || not (e.id == claims.organization_id)

  abbrev pub staff_access : Claims → Access
  staff_access claims = account_access claims (user_by_id claims.user_id)

  -- On a portal only the staff of its ISP may act.
  abbrev pub portal_access : Claims → Text → List TenantEntry → Access × List TenantEntry
  portal_access claims sub cache =
      if text_eq sub []
      then (staff_access claims, cache)
      else let found = lookup_tenant env.now env.query_fails env.portals sub cache in
        (if is_foreign claims found.0 then denied other_portal else staff_access claims, found.1)

  abbrev pub admin_access : Option Claims → Request → List TenantEntry → Access × List TenantEntry
  admin_access none req cache = (denied no_token, cache)
  admin_access (some claims) req cache =
      if not (text_eq claims.kind (bytes "admin"))
      then (denied wrong_kind, cache)
      else portal_access claims
          (portal_subdomain env.config (request_host env.config req.origin req.referer)) cache

  unfoldable pub admin_auth : Request → List TenantEntry → Access × List TenantEntry
  admin_auth req cache = admin_access (extract_and_validate admin_cookie req) req cache

  abbrev pub platform_user_by_id : ℕ → Option PlatformUser
  platform_user_by_id id =
      if env.query_fails then none else find_first (λ u. u.id == id) env.platform_users

  abbrev pub platform_account : Claims → Option PlatformUser → Access
  platform_account claims none = denied no_account
  platform_account claims (some u) =
      if u.id == 0
      then denied no_account
      else if not (text_eq u.status (bytes "active"))
      then denied inactive
      else if not (u.token_version == claims.token_version)
      then denied revoked
      else granted (record claims { role = u.role })

  abbrev pub platform_access : Option Claims → Access
  platform_access none = denied no_token
  platform_access (some claims) =
      if not (text_eq claims.kind (bytes "platform"))
      then denied wrong_kind
      else platform_account claims (platform_user_by_id claims.platform_user_id)

  unfoldable pub platform_auth : Request → Access
  platform_auth req = platform_access (extract_and_validate platform_cookie req)

  abbrev pub customer_access : Option Claims → Access
  customer_access none = denied no_token
  customer_access (some claims) =
      if text_eq claims.kind (bytes "customer") then granted claims else denied wrong_kind

  unfoldable pub customer_auth : Request → Access
  customer_auth req = customer_access (extract_and_validate customer_cookie req)

  -- The token version that a new token is given.
  abbrev pub version_of : ℕ → ℕ
  version_of id = elim (user_by_id id) [ none ↦ 0 | some u ↦ u.token_version ]

  unfoldable pub admin_claims : ℕ → Text → Option ℕ → ℕ → Claims
  admin_claims user_id role zone_id organization_id = record {
    user_id = user_id;
    customer_id = 0;
    platform_user_id = 0;
    role = role;
    zone_id = zone_id;
    organization_id = organization_id;
    kind = bytes "admin";
    auth_method = [];
    token_version = version_of user_id;
  }

  -- The zones of the caller's ISP; nothing if the query fails.
  unfoldable pub org_zone_ids : Claims → Option (List ℕ)
  org_zone_ids claims =
      if env.query_fails
      then none
      else some (map (λ z. z.id) (select (λ z. z.org_id == claims.organization_id) env.zones))

abbrev pub has_role : Text → List Text → Bool
has_role role [] = false
has_role role (r ∷ rs) = text_eq r role || has_role role rs

-- A guard behind a session.
unfoldable pub require_roles : List Text → Access → Access
require_roles roles (denied d) = denied d
require_roles roles (granted c) =
    if text_eq c.role [] || not (has_role c.role roles) then denied forbidden else granted c

unfoldable pub require_platform_owner : Access → Access
require_platform_owner (denied d) = denied d
require_platform_owner (granted c) =
    if text_eq c.role (bytes "owner") then granted c else denied forbidden

-- A session from a device's address alone may not change the account.
unfoldable pub require_strong_customer_auth : Access → Access
require_strong_customer_auth (denied d) = denied d
require_strong_customer_auth (granted c) =
    if text_eq c.auth_method (bytes "device") then denied unverified else granted c

unfoldable pub revoke_admin_sessions : ℕ → List User → List User
revoke_admin_sessions id =
    update_where (λ u. u.id == id) (λ u. record u { token_version = u.token_version + 1 })
