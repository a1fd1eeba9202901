-- ===== src/Access/Revoked.antt =====
-- Sessions that were ended (middleware/auth.go: `RevokeAdminSessions`, `GenerateAdminToken`).
use zyranet_api.Base.{
  ◌≢◌, ℕ, ◌+◌, suc, ◌≡◌, Option, some, List, [], ◌∷◌, ◌==◌, ◌≤◌, arith, Bool-cases, inl, inr,
  find_first, ap, sym, ◌∙◌, some-injective,
}
use zyranet_api.Text.{Text}
use zyranet_api.Access.Tenant.{TenantEntry}
use zyranet_api.Access.Sessions.{
  Claims, User, AccessEnv, granted, admin_auth, extract_and_validate, admin_cookie, Request,
  revoke_admin_sessions, version_of, admin_claims,
}
use zyranet_api.Access.Laws.{admin_auth-IsCurrent, IsAccountOf}

abbrev pub revoke_all : List ℕ → List User → List User
revoke_all [] us = us
revoke_all (id ∷ ids) us = revoke_all ids (revoke_admin_sessions id us)

-- The account with this id, whose counter is this one at least.
abbrev pub HasVersion : ℕ → ℕ → List User → Type 0
HasVersion id version us =
    (u : User) × (find_first (λ w. w.id == id) us ≡ some u) × (version ≤ u.token_version)

revoke_admin_sessions-HasVersion :
    (by id version : ℕ) (us : List User)
    → HasVersion id version us
    → HasVersion id version (revoke_admin_sessions by us)
unfolding revoke_admin_sessions
revoke_admin_sessions-HasVersion by id version [] (u, e, h) = absurd (ground arith)
revoke_admin_sessions-HasVersion by id version (w ∷ us) (u, e, h) = elim (Bool-cases (w.id == id)) [
  | inl hit ↦ elim (Bool-cases (w.id == by)) [
    | inl own ↦ (record w { token_version = w.token_version + 1 }, ground arith, ground arith)
    | inr other ↦ (w, ground arith, ground arith)
  ]
  | inr miss ↦
      let rest = revoke_admin_sessions-HasVersion by id version us (u, ground arith, h) in
      (rest.0, ground arith, rest.2)
]

revoke_admin_sessions-bumps :
    (id : ℕ) (us : List User) (u : User)
    → find_first (λ w. w.id == id) us ≡ some u
    → HasVersion id (suc u.token_version) (revoke_admin_sessions id us)
unfolding revoke_admin_sessions
revoke_admin_sessions-bumps id [] u e = absurd (ground arith)
revoke_admin_sessions-bumps id (w ∷ us) u e = elim (Bool-cases (w.id == id)) [
  | inl hit ↦ (record w { token_version = w.token_version + 1 }, ground arith, ground arith)
  | inr miss ↦
      let rest = revoke_admin_sessions-bumps id us u (ground arith) in
      (rest.0, ground arith, rest.2)
]

revoke_all-HasVersion :
    (ids : List ℕ) (id version : ℕ) (us : List User)
    → HasVersion id version us
    → HasVersion id version (revoke_all ids us)
revoke_all-HasVersion [] id version us h = h
revoke_all-HasVersion (by ∷ ids) id version us h =
    revoke_all-HasVersion ids id version (revoke_admin_sessions by us)
      (revoke_admin_sessions-HasVersion by id version us h)

-- The counter that a token is issued with is at most the account's.
version_of_below :
    (env : AccessEnv) (id : ℕ) (u : User)
    → find_first (λ w. w.id == id) env.users ≡ some u
    → version_of env id ≤ u.token_version
version_of_below env id u e = elim (Bool-cases env.query_fails) [
  | inl failing ↦ ground arith
  | inr fine ↦ ground arith
]

outdated :
    (version : ℕ) (c : Claims) (us : List User)
    → HasVersion c.user_id (suc version) us
    → (u : User) × (find_first (λ w. w.id == c.user_id) us ≡ some u) × IsAccountOf c u
    → c.token_version ≤ version
    → ⊥
outdated version c us (v, seen, above) (u, found, agrees) below = ground arith

-- A token that was issued to an account of the staff is refused on every route of the staff once the
-- account's sessions have been ended, and after any further accounts' sessions are ended too, whatever
-- the token's role and ISP, whatever portal the request comes from and whatever else has changed than
-- the accounts.
pub revoked_refused :
    (issued later : AccessEnv) (id : ℕ) (u : User) (role : Text) (place : Option ℕ) (org : ℕ)
    (ids : List ℕ) (req : Request) (cache : List TenantEntry) (c : Claims)
    → find_first (λ w. w.id == id) issued.users ≡ some u
    → later.users ≡ revoke_all ids (revoke_admin_sessions id issued.users)
    → extract_and_validate later admin_cookie req ≡ some (admin_claims issued id role place org)
    → (admin_auth later req cache).0 ≢ granted c
unfolding admin_claims
revoked_refused issued later id u role place org ids req cache c found users token e =
    let session = admin_auth-IsCurrent later req cache c e in
    let token_at = session.2.2 in
    let same : session.2.0 ≡ admin_claims issued id role place org =
      some-injective session.2.0 (admin_claims issued id role place org)
        (sym session.2.1 ∙ token) in
    let owner : c.user_id ≡ id = token_at.0 ∙ ap (λ d. d.user_id) same in
    let issued_at : c.token_version ≡ version_of issued id =
      token_at.1 ∙ ap (λ d. d.token_version) same in
    let ended =
      revoke_all-HasVersion ids id (suc u.token_version) (revoke_admin_sessions id issued.users)
        (revoke_admin_sessions-bumps id issued.users u found) in
    outdated u.token_version c later.users (rw (users, owner) ended) session.0
      (rw issued_at (version_of_below issued id u found))
