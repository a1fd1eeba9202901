-- ===== src/Access/Tests.antt =====
-- Runs and witnesses for who may call the API.
use zyranet_api.Base.{◌≡◌, ◌≢◌, refl, false, none, some, List, [], ◌∷◌}
use zyranet_api.Text.{bytes, text_eq, trim_space, trim_left, trim_right, to_lower}
use zyranet_api.Text.Cut.{cut_suffix, cut_last}
use zyranet_api.Utils.Subdomain.{
  normalize_subdomain, subdomain_from_host, check_label, clean_host, clean_base, matches_label,
  is_reserved_label, subdomain_in,
}
use zyranet_api.Access.Tenant.{
  AccessConfig, portal_subdomain, request_host, lookup_tenant, is_platform_host,
}
use zyranet_api.Access.Sessions.{
  Claims, User, AccessEnv, Request, granted, admin_auth, admin_claims, extract_and_validate,
  admin_cookie, revoke_admin_sessions,
}
use zyranet_api.Access.Laws.{admin_auth-IsCurrent, IsCurrent, IsAtHome, IsFromToken}
use zyranet_api.Access.Revoked.{revoked_refused, revoke_all}

abbrev config : AccessConfig
config = record {
  app_env = bytes "production";
  base_domain = bytes "zyra.net";
  allowed_origins = [];
  parse_url = λ s. some (record {
    scheme = bytes "https";
    host = bytes "isp.zyra.net";
    hostname = bytes "isp.zyra.net";
  });
}

abbrev manager : User
manager = record {
  id = 7;
  role = bytes "manager";
  zone_id = none;
  organization_id = 2;
  status = bytes "active";
  token_version = 3;
}

abbrev env_of : List User → AccessEnv
env_of us = record {
  now = 100;
  config = config;
  claims_of = λ t. some (record {
    user_id = 7;
    customer_id = 0;
    platform_user_id = 0;
    role = bytes "admin";
    zone_id = none;
    organization_id = 2;
    kind = bytes "admin";
    auth_method = [];
    token_version = 3;
  });
  users = us;
  platform_users = [];
  portals = record { id = 2; subdomain = bytes "isp"; status = bytes "active" } ∷ [];
  zones = [];
  query_fails = false;
}

abbrev call : Request
call = record {
  cookie = λ name. bytes "token";
  authorization = [];
  origin = bytes "https://isp.zyra.net";
  referer = [];
}

-- The role is the account's, not the token's.
abbrev as_manager : Claims
as_manager = record {
  user_id = 7;
  customer_id = 0;
  platform_user_id = 0;
  role = bytes "manager";
  zone_id = none;
  organization_id = 2;
  kind = bytes "admin";
  auth_method = [];
  token_version = 3;
}

let_through : (admin_auth (env_of (manager ∷ [])) call []).0 ≡ granted as_manager
unfolding admin_auth extract_and_validate text_eq portal_subdomain request_host lookup_tenant
    is_platform_host subdomain_from_host subdomain_in normalize_subdomain check_label matches_label
    is_reserved_label trim_space trim_left trim_right to_lower cut_suffix cut_last clean_host
    clean_base
let_through = refl

admin_auth-IsCurrent_example :
    IsCurrent (env_of (manager ∷ [])) as_manager
    × IsAtHome (env_of (manager ∷ [])) call [] 2
    × ((token : Claims) × (extract_and_validate (env_of (manager ∷ [])) admin_cookie call
          ≡ some token)
        × IsFromToken as_manager token)
admin_auth-IsCurrent_example =
    admin_auth-IsCurrent (env_of (manager ∷ [])) call [] as_manager let_through

abbrev after : AccessEnv
after = env_of (revoke_all (9 ∷ []) (revoke_admin_sessions 7 (manager ∷ [])))

presented :
    extract_and_validate after admin_cookie call
    ≡ some (admin_claims (env_of (manager ∷ [])) 7 (bytes "admin") none 2)
unfolding extract_and_validate admin_claims text_eq
presented = refl

revoked_refused_example : (admin_auth after call []).0 ≢ granted as_manager
revoked_refused_example =
    revoked_refused (env_of (manager ∷ [])) after 7 manager (bytes "admin") none 2 (9 ∷ []) call []
      as_manager refl refl presented
