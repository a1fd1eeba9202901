-- ===== src/Access/Laws.antt =====
-- What a granted session of staff is (middleware/auth.go: `AdminAuth`).
use zyranet_api.Base.{
  ℕ, ◌≡◌, true, false, some, List, [], ◌==◌, arith, Bool-cases, inl, inr, find_first, Option-cases,
  ap,
}
use zyranet_api.Text.{Text, bytes, text_eq}
use zyranet_api.Access.Tenant.{TenantEntry, lookup_tenant, portal_subdomain, request_host}
use zyranet_api.Access.Sessions.{
  Claims, User, AccessEnv, granted, admin_auth, admin_access, portal_access, staff_access,
  account_access, extract_and_validate, admin_cookie, Request, is_foreign, user_by_id,
}

-- The account that a session acts for, which is active and agrees with the token.
abbrev pub IsAccountOf : Claims → User → Type 0
IsAccountOf c u =
    (text_eq u.status (bytes "active") ≡ true)
    × (u.token_version == c.token_version ≡ true)
    × (u.organization_id == c.organization_id ≡ true)
    × (u.role ≡ c.role)
    × (u.zone_id ≡ c.zone_id)

abbrev pub IsCurrent : AccessEnv → Claims → Type 0
IsCurrent env c =
    (u : User) × (find_first (λ v. v.id == c.user_id) env.users ≡ some u) × IsAccountOf c u

granted-found :
    (env : AccessEnv) (claims c : Claims) (u : User)
    → account_access env claims (some u) ≡ granted c
    → (c ≡ record claims { role = u.role; zone_id = u.zone_id }) × IsAccountOf c u
granted-found env claims c u e = ground arith

abbrev pub IsFromToken : Claims → Claims → Type 0
IsFromToken c token =
    (c.user_id ≡ token.user_id)
    × (c.token_version ≡ token.token_version)
    × (c.organization_id ≡ token.organization_id)

user_by_id_found :
    (env : AccessEnv) (id : ℕ) (u : User)
    → user_by_id env id ≡ some u
    → find_first (λ v. v.id == id) env.users ≡ some u
user_by_id_found env id u e = ground arith

staff_access-IsCurrent :
    (env : AccessEnv) (claims c : Claims)
    → staff_access env claims ≡ granted c
    → IsCurrent env c × IsFromToken c claims
staff_access-IsCurrent env claims c e = elim (Option-cases (user_by_id env claims.user_id)) [
  | inl missing ↦ absurd (ground arith)
  | inr (u, seen) ↦
      let found = granted-found env claims c u (rw seen at e) in
      let at : c.user_id ≡ claims.user_id = ap (λ d. d.user_id) found.0 in
      (
        (u, rw at (user_by_id_found env claims.user_id u seen), found.1),
        (at, ap (λ d. d.token_version) found.0, ap (λ d. d.organization_id) found.0),
      )
]

-- The subdomain of the portal that the request came from, and its ISP.
abbrev pub portal_of : AccessEnv → Request → Text
portal_of env req = portal_subdomain env.config (request_host env.config req.origin req.referer)

abbrev pub tenant_at : AccessEnv → List TenantEntry → Text → TenantEntry
tenant_at env cache sub = (lookup_tenant env.now env.query_fails env.portals sub cache).0

abbrev pub IsAtHome : AccessEnv → Request → List TenantEntry → ℕ → Type 0
IsAtHome env req cache org =
    text_eq (portal_of env req) [] ≡ false
    → ((tenant_at env cache (portal_of env req)).found ≡ true)
      × ((tenant_at env cache (portal_of env req)).id ≡ org)

portal_access-granted :
    (env : AccessEnv) (claims c : Claims) (sub : Text) (cache : List TenantEntry)
    → (portal_access env claims sub cache).0 ≡ granted c
    → (staff_access env claims ≡ granted c)
      × (text_eq sub [] ≡ false → is_foreign env claims (tenant_at env cache sub) ≡ false)
portal_access-granted env claims c sub cache e = elim (Bool-cases (text_eq sub [])) [
  | inl here ↦ (rw here at e, λ h. absurd (ground arith))
  | inr away ↦ let at_portal = rw away at e in (ground arith, λ _. ground arith)
]

home :
    (env : AccessEnv) (claims : Claims) (e : TenantEntry)
    → is_foreign env claims e ≡ false
    → (e.found ≡ true) × (e.id ≡ claims.organization_id)
home env claims e h = (ground arith, ground arith)

admin_access-granted :
    (env : AccessEnv) (claims c : Claims) (req : Request) (cache : List TenantEntry)
    → (admin_access env (some claims) req cache).0 ≡ granted c
    → (staff_access env claims ≡ granted c)
      × (text_eq (portal_of env req) [] ≡ false
          → is_foreign env claims (tenant_at env cache (portal_of env req)) ≡ false)
admin_access-granted env claims c req cache e =
    elim (Bool-cases (text_eq claims.kind (bytes "admin"))) [
      | inl staff ↦ portal_access-granted env claims c (portal_of env req) cache (rw staff at e)
      | inr other ↦ absurd (ground arith)
    ]

-- A request that the guard of the staff's routes lets through carries a valid token of an active
-- account, whose token version and ISP are the token's and whose role and zone the handler sees; a
-- request that came from an ISP's portal is only let through for an account of that ISP.
pub admin_auth-IsCurrent :
    (env : AccessEnv) (req : Request) (cache : List TenantEntry) (c : Claims)
    → (admin_auth env req cache).0 ≡ granted c
    → IsCurrent env c
      × IsAtHome env req cache c.organization_id
      × ((token : Claims) × (extract_and_validate env admin_cookie req ≡ some token)
          × IsFromToken c token)
unfolding admin_auth
admin_auth-IsCurrent env req cache c e =
    elim (Option-cases (extract_and_validate env admin_cookie req)) [
      | inl missing ↦ absurd (ground arith)
      | inr (claims, seen) ↦
          let at_portal = admin_access-granted env claims c req cache (rw seen at e) in
          let current = staff_access-IsCurrent env claims c at_portal.0 in
          (
            current.0,
            λ away.
                rw (current.1.2)
                  (home env claims (tenant_at env cache (portal_of env req)) (at_portal.1 away)),
            (claims, seen, current.1),
          )
    ]
