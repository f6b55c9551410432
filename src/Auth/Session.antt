-- ===== src/Auth/Session.antt =====
-- auth/auth.service.ts: the token pair, its rotation and its end.
pub mod Laws
pub mod Rotation
use saa_s_app_be.Prelude.{
  ℕ, ◌+◌, ◌*◌, String, Bool, true, false, not, Option, none, some, ◌&&◌, ◌==◌, leb, is_some,
  is_filled, is_empty, or_default, if◌then◌else◌,
}
use saa_s_app_be.Text.{trim}
use saa_s_app_be.Text.Token.{OpaqueToken, parse_token, format_token}
use saa_s_app_be.Action.{
  Exception, Action, unauthorized, text, pure, throw, gets, or_throw, throw_if, ◌>>=◌, ◌>>◌,
}
use saa_s_app_be.Host.{Host, Role, AccessClaims}
use saa_s_app_be.Auth.Config.{read_positive_integer, access_expires_in_seconds}
use saa_s_app_be.Auth.Model.{User, RefreshToken, RequestUser, Draw, Db}
use saa_s_app_be.Auth.Repositories.RefreshTokens
use saa_s_app_be.Auth.Repositories.Users

-- `tenantHasPendingEmailVerification`
unfoldable pub tenant_has_pending_email_verification : User → Bool
tenant_has_pending_email_verification u =
    is_filled u.email_verify_token_hash && not u.is_email_verified

-- `AuthSessionPayload['user']`
pub record SessionUser : Type 0 where
  pub id : String
  pub email : String
  pub tenant_id : String
  pub platform_admin : Bool
  pub tenant_role : Option Role
  pub display_name : Option String

-- `AuthSessionPayload`, without the constant `tokenType`
pub record AuthSession : Type 0 where
  pub access_token : String
  pub refresh_token : String
  pub expires_in : ℕ
  pub user : SessionUser

-- a name that is not blank, trimmed
abbrev pub shown_name : Option String → Option String
shown_name none = none
shown_name (some raw) = if is_empty (trim raw) then none else some (trim raw)

abbrev pub role_unless : Bool → Role → Option Role
role_unless true role = none
role_unless false role = some role

abbrev pub invalid_refresh : Exception
invalid_refresh = unauthorized (text "Invalid refresh token")

module _ (host : Host) where
  open host use {config, bcrypt_hash, bcrypt_compare, sign_access_token}

  -- `TenantService.assertTenantActiveForAuth`
  unfoldable pub assert_tenant_active_for_auth : String → Action (Db host) Unit
  assert_tenant_active_for_auth tenant_id s =
      throw_if (not (is_some (Users.find_active_tenant host tenant_id s)))
        (unauthorized (text "Organization is unavailable")) s

  -- the gate of `issueTokenPair` for users of an organization
  unfoldable pub assert_may_hold_session : User → Action (Db host) Unit
  assert_may_hold_session user = if user.is_platform_admin then pure tt else (do
    assert_tenant_active_for_auth user.tenant_id
    throw_if (tenant_has_pending_email_verification user)
        (unauthorized (text "Verify your email address before using this account.")))

  -- `getRefreshExpiresAt`
  unfoldable pub refresh_expires_at : (now : ℕ) → ℕ
  refresh_expires_at now =
      now
      + read_positive_integer (some (or_default (config "JWT_REFRESH_EXPIRES_DAYS") "7")) 7
        * 86400000

  unfoldable pub access_claims : User → AccessClaims
  access_claims user = record {
    sub = user.id;
    email = user.email;
    tenant_id = user.tenant_id;
    platform_admin = user.is_platform_admin;
    tenant_role = role_unless user.is_platform_admin user.role;
  }

  unfoldable pub refresh_record : (now : ℕ) → Draw → User → Option String → RefreshToken
  refresh_record now draw user existing_family_id = record {
    jti = draw.jti;
    user_id = user.id;
    tenant_id = user.tenant_id;
    secret_hash = bcrypt_hash draw.salt draw.secret;
    family_id = or_default existing_family_id draw.family;
    expires_at = refresh_expires_at now;
  }

  unfoldable pub session_of : (now : ℕ) → Draw → User → AuthSession
  unfolding access_claims
  session_of now draw user = record {
    access_token = sign_access_token (access_claims user) now;
    refresh_token = format_token draw.jti draw.secret;
    expires_in = access_expires_in_seconds (config "JWT_ACCESS_EXPIRES_IN");
    user = record {
      id = user.id;
      email = user.email;
      tenant_id = user.tenant_id;
      platform_admin = user.is_platform_admin;
      tenant_role = role_unless user.is_platform_admin user.role;
      display_name = shown_name user.display_name;
    };
  }

  unfoldable pub issue_token_pair :
      (now : ℕ) → Draw → User → Option String → Action (Db host) AuthSession
  issue_token_pair now draw user existing_family_id = do
    assert_may_hold_session user
    RefreshTokens.create_token host (refresh_record now draw user existing_family_id)
    pure (session_of now draw user)

  -- the end of `refresh`, on the user that the record names
  unfoldable pub rotate_for :
      (now : ℕ) → Draw → OpaqueToken → RefreshToken → Option User → Action (Db host) AuthSession
  rotate_for now draw parsed stored none = do
    RefreshTokens.delete_by_jti host parsed.jti
    throw (unauthorized (text "User no longer exists"))
  rotate_for now draw parsed stored (some user) = do
    RefreshTokens.delete_by_jti host parsed.jti
    issue_token_pair now draw user (some stored.family_id)

  -- `refresh` on the stored record
  unfoldable pub rotate :
      (now : ℕ) → Draw → OpaqueToken → RefreshToken → Action (Db host) AuthSession
  rotate now draw parsed stored =
      if leb stored.expires_at now
      then (do
        RefreshTokens.delete_by_jti host parsed.jti
        throw (unauthorized (text "Refresh token expired")))
      else if not (bcrypt_compare parsed.secret stored.secret_hash)
      then throw invalid_refresh
      else (do
        found ← gets (Users.find_by_id host stored.user_id)
        rotate_for now draw parsed stored found)

  unfoldable pub refresh : (now : ℕ) → Draw → String → Action (Db host) AuthSession
  refresh now draw raw_refresh_token = do
    parsed ← or_throw (parse_token raw_refresh_token) invalid_refresh
    found ← gets (RefreshTokens.find_by_jti host parsed.jti)
    stored ← or_throw found invalid_refresh
    rotate now draw parsed stored

  end_session : OpaqueToken → Option RefreshToken → Action (Db host) Unit
  end_session parsed none = pure tt
  end_session parsed (some stored) =
      if bcrypt_compare parsed.secret stored.secret_hash
      then RefreshTokens.delete_by_jti host parsed.jti
      else throw invalid_refresh

  end_parsed : Option OpaqueToken → Action (Db host) Unit
  unfolding end_session
  end_parsed none = pure tt
  end_parsed (some parsed) = do
    found ← gets (RefreshTokens.find_by_jti host parsed.jti)
    end_session parsed found

  unfoldable pub logout : Option String → Action (Db host) Unit
  unfolding end_parsed
  logout none = pure tt
  logout (some raw_refresh_token) =
      let normalized = trim raw_refresh_token in
      if is_empty normalized then pure tt else end_parsed (parse_token normalized)

  -- `getMe`
  unfoldable pub get_me : RequestUser → Db host → SessionUser
  get_me user s =
      let doc : Option String = elim (Users.find_by_id host user.user_id s) [
        | none ↦ none
        | some u ↦ u.display_name
      ] in
      record {
        id = user.user_id;
        email = user.email;
        tenant_id = user.tenant_id;
        platform_admin = user.platform_admin;
        tenant_role = user.tenant_role;
        display_name = if user.platform_admin then none else shown_name doc;
      }
