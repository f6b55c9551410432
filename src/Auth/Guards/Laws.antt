-- ===== src/Auth/Guards/Laws.antt =====
-- What passes the guards.
use saa_s_app_be.Prelude.{
  ℕ, ◌+◌, ◌<◌, String, ◌≡◌, Bool, true, false, some, arith, Bool-cases, inl, inr, is_empty, ◌↔◌,
}
use saa_s_app_be.Action.{ok}
use saa_s_app_be.Host.{Host, admin, AccessClaims}
use saa_s_app_be.Auth.Model.{RequestUser, User, Draw}
use saa_s_app_be.Auth.Session.{access_claims, session_of, role_unless}
use saa_s_app_be.Auth.Login.{same_role}
use saa_s_app_be.Auth.Guards.{
  TokenClaims, Verified, claims, Request, extract_access_token, authenticate, tenant_admin_guard,
  platform_admin_guard,
}

-- the claims of an access token that the application signed
abbrev pub signed : AccessClaims → TokenClaims
signed c = record {
  type_is_access = true;
  sub = some c.sub;
  email = some c.email;
  tenant_id = some c.tenant_id;
  platform_admin = some c.platform_admin;
  tenant_role = c.tenant_role;
}

-- the user that a request of a user's session is let in as
abbrev pub request_user : User → RequestUser
request_user user = record {
  user_id = user.id;
  email = user.email;
  tenant_id = user.tenant_id;
  platform_admin = user.is_platform_admin;
  tenant_role = role_unless user.is_platform_admin user.role;
}

platform_admin_guard_lem :
    (user : User)
    → platform_admin_guard (some (request_user user)) ≡ ok tt ↔ user.is_platform_admin ≡ true
unfolding platform_admin_guard
platform_admin_guard_lem user = (λ h. ground arith, λ h. ground arith)

tenant_admin_guard_lem :
    (user : User)
    → tenant_admin_guard (some (request_user user)) ≡ ok tt
      ↔ (user.is_platform_admin ≡ false) × (same_role user.role admin ≡ true)
unfolding tenant_admin_guard
tenant_admin_guard_lem user = (λ h. ground arith, λ h. ground arith)

module _ (host : Host) where
  admitted :
      (verify : String → Verified) (is_production : Bool) (request : Request) (token : String)
      (user : User)
      → extract_access_token request ≡ some token
      → verify token ≡ claims (signed (access_claims host user))
      → is_empty user.id ≡ false
      → authenticate verify is_production request ≡ ok (request_user user)
  unfolding authenticate access_claims
  admitted verify is_production request token user has_token verified filled =
      elim (Bool-cases user.is_platform_admin) [
        | inl operator ↦ ground arith
        | inr other ↦ ground arith
      ]

  -- A request with the access token of a session that was issued to a user is let in as that user, if
  -- the user's identifier is not empty and the lifetime of the token is not over; then the guard of
  -- platform operators lets it pass exactly if the user is one, and the guard of organization
  -- administrators exactly if the user is none and is an administrator. It is assumed that the
  -- verifier reads the signed claims from an access token of the user as long as the lifetime lasts.
  pub access_token_admits :
      (verify : (now : ℕ) → String → Verified) (lifetime : ℕ) (is_production : Bool)
      (issued now : ℕ) (draw : Draw) (request : Request) (user : User)
      → ((signed_at t : ℕ)
          → t < signed_at + lifetime
          → verify t (host.sign_access_token (access_claims host user) signed_at)
            ≡ claims (signed (access_claims host user)))
      → extract_access_token request ≡ some (session_of host issued draw user).access_token
      → now < issued + lifetime
      → is_empty user.id ≡ false
      → (authenticate (verify now) is_production request ≡ ok (request_user user))
        × (platform_admin_guard (some (request_user user)) ≡ ok tt ↔ user.is_platform_admin ≡ true)
        × (tenant_admin_guard (some (request_user user)) ≡ ok tt
            ↔ (user.is_platform_admin ≡ false) × (same_role user.role admin ≡ true))
  unfolding authenticate session_of
  access_token_admits verify lifetime is_production issued now draw request user reads has_token
        early filled =
      let verified = reads issued now early in
      (
        admitted (verify now) is_production request
            (host.sign_access_token (access_claims host user) issued) user has_token verified
            filled,
        platform_admin_guard_lem user,
        tenant_admin_guard_lem user,
      )
