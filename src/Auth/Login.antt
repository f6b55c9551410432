-- ===== src/Auth/Login.antt =====
-- auth/auth.service.ts: sign-in with a password, with an emailed code, and the second step.
pub mod Laws
use saa_s_app_be.Prelude.{
  ℕ, ◌+◌, ◌*◌, String, Bool, true, false, not, Option, none, some, List, [], ◌∷◌, ◌++◌, ◌&&◌, ◌||◌,
  ◌==◌, leb, is_some, is_filled, is_empty, or_default, if◌then◌else◌,
}
use saa_s_app_be.Text.{trim}
use saa_s_app_be.Action.{
  Exception, Action, unauthorized, bad_request, not_found, text, pure, throw, gets, modify,
  or_throw, throw_if, ◌>>=◌, ◌>>◌,
}
use saa_s_app_be.Host.{Host, Role, admin, member}
use saa_s_app_be.Auth.Config.{read_positive_integer}
use saa_s_app_be.Auth.Model.{
  Scope, tenant, platform, Purpose, Method, User, MfaChallenge, UserMfa, Mail, Draw, Db,
}
use saa_s_app_be.Auth.Repositories.RefreshTokens
use saa_s_app_be.Auth.Repositories.UserMfas
use saa_s_app_be.Auth.Repositories.Users
use saa_s_app_be.Auth.Challenge
use saa_s_app_be.Auth.Challenge.{IssueChallengeInput, IssuedChallenge, invalid_challenge}
use saa_s_app_be.Auth.Factor
use saa_s_app_be.Auth.Session.{AuthSession, tenant_has_pending_email_verification, issue_token_pair}

abbrev pub invalid_credentials : Exception
invalid_credentials = unauthorized (text "Invalid credentials")

-- `LoginDto`
pub record LoginDto : Type 0 where
  pub email : String
  pub password : String
  pub auth_scope : Scope
  pub tenant_role : Option Role

-- `RequestLoginCodeDto`
pub record RequestLoginCodeDto : Type 0 where
  pub email : String
  pub auth_scope : Scope
  pub tenant_role : Option Role

-- `MfaRequiredPayload`
pub record MfaRequired : Type 0 where
  pub challenge_token : String
  pub methods : List Method
  pub expires_at : ℕ

-- `LoginResult`
pub data LoginResult : Type 0 where
  session : AuthSession → LoginResult
  mfa_required : MfaRequired → LoginResult

abbrev pub same_role : Role → Role → Bool
same_role admin admin = true
same_role member member = true
same_role _ _ = false

abbrev pub role_is : Option Role → Role → Bool
role_is none role = false
role_is (some expected) role = same_role role expected

abbrev pub is_tenant_scope : Scope → Bool
is_tenant_scope tenant = true
is_tenant_scope platform = false

abbrev pub is_email_purpose : Purpose → Bool
is_email_purpose Purpose.email_code = true
is_email_purpose Purpose.totp = false

abbrev pub is_enabled : Option UserMfa → Bool
is_enabled none = false
is_enabled (some mfa) = mfa.is_totp_enabled

abbrev pub allows_email_code : Option UserMfa → Bool
allows_email_code none = true
allows_email_code (some mfa) = mfa.is_email_code_login_enabled

-- the challenge that `login` asks for
unfoldable pub challenge_input : LoginDto → User → IssueChallengeInput
challenge_input dto user = record {
  user_id = some user.id;
  tenant_id = user.tenant_id;
  purpose = Purpose.totp;
  auth_scope = dto.auth_scope;
  tenant_role = dto.tenant_role;
  code_hash = none;
  ttl_minutes = none;
}

abbrev portal_message : Role → String
portal_message admin =
    "This page is for organization administrators only. Use the team member sign-in page."
portal_message member =
    "This page is for team members only. Use the organization admin sign-in page."

module _ {S : Type 0} where
  -- `assertLoginScopeMatchesUser`
  unfoldable pub assert_login_scope_matches_user : Scope → User → Action S Unit
  assert_login_scope_matches_user platform user = throw_if (not user.is_platform_admin) (
      unauthorized
        (text "This account is not a platform operator. Use the organization sign-in page."))
  assert_login_scope_matches_user tenant user = do
    throw_if user.is_platform_admin
        (unauthorized (text "Platform operators must sign in via the admin portal."))
    throw_if (is_empty (trim user.tenant_id))
        (unauthorized (text "This account cannot sign in on the organization portal."))

  -- `assertTenantLoginPortalMatchesRole`
  unfoldable pub assert_tenant_login_portal_matches_role :
      Scope → Option Role → User → Action S Unit
  assert_tenant_login_portal_matches_role platform expected user = pure tt
  assert_tenant_login_portal_matches_role tenant none user = throw invalid_credentials
  assert_tenant_login_portal_matches_role tenant (some expected) user =
      throw_if (not (same_role user.role expected)) (unauthorized (text (portal_message expected)))

module _ (host : Host) where
  open host use {config, bcrypt_hash, bcrypt_compare}

  -- the gates of `login` in front of the second factor
  unfoldable pub check_credentials : LoginDto → User → Action (Db host) Unit
  check_credentials dto user = do
    throw_if (not (is_filled user.password_hash)) invalid_credentials
    assert_login_scope_matches_user dto.auth_scope user
    throw_if (not user.is_active) (
        unauthorized (
          text
            "Account is pending activation. Please accept your invitation email to set a password."))
    throw_if (is_tenant_scope dto.auth_scope && tenant_has_pending_email_verification user) (
        unauthorized (
          text
            "Verify your email address before signing in. Check your inbox for the verification link."))
    throw_if (not (bcrypt_compare dto.password (or_default user.password_hash "")))
        invalid_credentials
    assert_tenant_login_portal_matches_role dto.auth_scope dto.tenant_role user

  -- the end of `login`: a challenge if a second factor is enabled, else the token pair
  unfoldable pub second_step :
      (now : ℕ) → Draw → LoginDto → User → Bool → Action (Db host) LoginResult
  second_step now draw dto user true = do
    challenge ← Challenge.issue host now draw (challenge_input dto user)
    pure (
        mfa_required (record {
          challenge_token = challenge.challenge_token;
          methods = Method.totp ∷ Method.backup_code ∷ [];
          expires_at = challenge.expires_at;
        }))
  second_step now draw dto user false = do
    issued ← issue_token_pair host now draw user none
    pure (session issued)

  unfoldable pub login : (now : ℕ) → Draw → LoginDto → Action (Db host) LoginResult
  login now draw dto = do
    found ← gets (Users.find_by_email host dto.email)
    user ← or_throw found invalid_credentials
    check_credentials dto user
    mfa ← gets (UserMfas.find_by_user_id host user.id)
    second_step now draw dto user (is_enabled mfa)
