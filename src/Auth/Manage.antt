-- ===== src/Auth/Manage.antt =====
-- auth/mfa/mfa.service.ts: enrolment and management of a user's own second factor.
pub mod Laws
pub mod Codes
pub mod Enrollment
use saa_s_app_be.Prelude.{
  ℕ, ◌+◌, ◌*◌, String, Bool, true, false, not, Option, none, some, List, [], ◌∷◌, ◌++◌, ◌&&◌, leb,
  ltb, is_some, is_empty, is_filled, or_default, if◌then◌else◌,
}
use saa_s_app_be.Text.{trim}
use saa_s_app_be.Action.{
  Exception, Action, unauthorized, conflict, text, pure, throw, gets, lift, modify, or_throw,
  throw_if, ◌>>=◌, ◌>>◌,
}
use saa_s_app_be.Crypto.{encrypt_secret}
use saa_s_app_be.Host.{Host}
use saa_s_app_be.Auth.Model.{MfaBackupCode, UserMfa, Mail, security_change, RequestUser, Draw, Db}
use saa_s_app_be.Auth.Repositories.RefreshTokens
use saa_s_app_be.Auth.Repositories.UserMfas
use saa_s_app_be.Auth.Repositories.Users
use saa_s_app_be.Auth.Challenge
use saa_s_app_be.Auth.Factor
use saa_s_app_be.Auth.Login.{is_enabled}

-- `MfaStatusPayload`
pub record MfaStatus : Type 0 where
  pub is_totp_enabled : Bool
  pub totp_enabled_at : Option ℕ
  pub has_pending_enrollment : Bool
  pub backup_codes_remaining : ℕ
  pub is_email_code_login_enabled : Bool

-- `TotpEnrollmentPayload`
pub record TotpEnrollment : Type 0 where
  pub secret : String
  pub otpauth_uri : String
  pub qr_code_data_url : String
  pub expires_at : ℕ

-- the recovery codes that are not used
unfoldable pub count_unused : List MfaBackupCode → ℕ
count_unused [] = 0
count_unused (c ∷ cs) = (if is_some c.used_at then 0 else 1) + count_unused cs

abbrev pub is_open : ℕ → Option ℕ → Bool
is_open now none = true
is_open now (some expires_at) = ltb now expires_at

-- `buildStatus`
unfoldable pub build_status : (now : ℕ) → Option UserMfa → MfaStatus
build_status now none = record {
  is_totp_enabled = false;
  totp_enabled_at = none;
  has_pending_enrollment = false;
  backup_codes_remaining = 0;
  is_email_code_login_enabled = true;
}
build_status now (some mfa) = record {
  is_totp_enabled = mfa.is_totp_enabled;
  totp_enabled_at = mfa.totp_enabled_at;
  has_pending_enrollment =
      is_filled mfa.pending_totp_secret_encrypted && is_open now mfa.pending_totp_expires_at;
  backup_codes_remaining = count_unused mfa.backup_codes;
  is_email_code_login_enabled = mfa.is_email_code_login_enabled;
}

abbrev no_pending : Exception
no_pending =
    unauthorized (text "Start setup again — no pending authenticator enrollment was found.")

abbrev wrong_password : Exception
wrong_password = unauthorized (text "Password confirmation failed.")

-- the pending secret of a record, and when it expires
abbrev pending_secret : Option UserMfa → Option String
pending_secret none = none
pending_secret (some mfa) =
    if is_filled mfa.pending_totp_secret_encrypted then mfa.pending_totp_secret_encrypted else none

abbrev pending_expiry : Option UserMfa → Option ℕ
pending_expiry none = none
pending_expiry (some mfa) = mfa.pending_totp_expires_at

module _ (host : Host) where
  open host use {node, config, bcrypt_compare, otp_uri, qr_data_url}

  -- `getIssuer` of totp.service.ts
  unfoldable pub get_issuer : String
  get_issuer =
      let configured =
        trim
          (or_default (config "MFA_TOTP_ISSUER") (or_default (config "PLATFORM_BRAND_NAME") "")) in
      if is_empty configured then "SaaS Application" else configured

  unfoldable pub get_status : (now : ℕ) → RequestUser → Db host → MfaStatus
  get_status now user s = build_status now (UserMfas.find_by_user_id host user.user_id s)

  -- `notifySecurityChange`: a failed delivery is caught, so it changes nothing
  unfoldable pub notify_security_change : (email subject_line : String) → Action (Db host) Unit
  notify_security_change email subject_line =
      modify (λ s. record s { outbox = s.outbox ++ security_change email subject_line ∷ [] })

  unfoldable pub assert_password_matches : RequestUser → String → Action (Db host) Unit
  assert_password_matches user password = do
    found ← gets (Users.find_by_email host user.email)
    account ← or_throw found wrong_password
    throw_if (not (is_filled account.password_hash)) wrong_password
    throw_if (not (bcrypt_compare password (or_default account.password_hash ""))) wrong_password

  unfoldable pub start_totp_enrollment :
      (now : ℕ) → Draw → RequestUser → Action (Db host) TotpEnrollment
  start_totp_enrollment now draw user = do
    existing ← gets (UserMfas.find_by_user_id host user.user_id)
    throw_if (is_enabled existing) (
        conflict (
          text
            "Two-factor authentication is already enabled. Disable it first to enroll a new device."))
    let otpauth_uri = otp_uri get_issuer user.email draw.totp_secret
    let expires_at = now + 15 * 60000
    key ← lift (Factor.encryption_key host)
    let encrypted = encrypt_secret node draw.iv draw.totp_secret key
    _ ← UserMfas.start_totp_enrollment host user.user_id user.tenant_id encrypted expires_at
    pure (record {
      secret = draw.totp_secret;
      otpauth_uri = otpauth_uri;
      qr_code_data_url = qr_data_url otpauth_uri;
      expires_at = expires_at;
    })

  -- `enableTotp`, which returns the recovery codes
  unfoldable pub enable_totp :
      (now : ℕ) → Draw → RequestUser → (code : String) → Action (Db host) (List String)
  enable_totp now draw user code = do
    found ← gets (UserMfas.find_by_user_id host user.user_id)
    throw_if (is_enabled found) (conflict (text "Two-factor authentication is already enabled."))
    pending ← or_throw (pending_secret found) no_pending
    throw_if (not (is_open now (pending_expiry found)))
        (unauthorized (text "This setup request expired. Start setup again to get a new QR code."))
    secret ← Factor.decrypt host pending
    _ ←
        or_throw (Factor.verify_totp host now code secret none) (
          unauthorized
            (text "That code did not match. Check your authenticator app and try again."))
    hashed_codes ← Factor.generate_backup_codes host draw.backup_codes
    activated ← UserMfas.activate_totp host now user.user_id pending hashed_codes
    _ ← or_throw activated no_pending
    notify_security_change user.email "Two-factor authentication is on"
    pure draw.backup_codes

  unfoldable pub disable_totp :
      (now : ℕ) → RequestUser → (password code : String) → Action (Db host) MfaStatus
  disable_totp now user password code = do
    found ← gets (UserMfas.find_by_user_id host user.user_id)
    throw_if (not (is_enabled found))
        (conflict (text "Two-factor authentication is not enabled for this account."))
    assert_password_matches user password
    method ← Factor.verify host now user.user_id code
    _ ← or_throw method (
        unauthorized
          (text "That code did not match. Use your authenticator app or a recovery code."))
    _ ← UserMfas.disable_totp host user.user_id
    Challenge.clear_for_user host user.user_id
    _ ← RefreshTokens.delete_by_user_id host user.user_id none
    notify_security_change user.email "Two-factor authentication is off"
    gets (get_status now user)

  unfoldable pub regenerate_backup_codes :
      (now : ℕ) → Draw → RequestUser → (password : String) → Action (Db host) (List String)
  regenerate_backup_codes now draw user password = do
    found ← gets (UserMfas.find_by_user_id host user.user_id)
    throw_if (not (is_enabled found))
        (conflict (text "Enable two-factor authentication before generating recovery codes."))
    assert_password_matches user password
    hashed_codes ← Factor.generate_backup_codes host draw.backup_codes
    _ ← UserMfas.replace_backup_codes host now user.user_id hashed_codes
    notify_security_change user.email "New recovery codes were generated"
    pure draw.backup_codes

  unfoldable pub update_preferences : (now : ℕ) → RequestUser → Bool → Action (Db host) MfaStatus
  update_preferences now user enabled = do
    _ ← UserMfas.set_email_code_login_enabled host user.user_id user.tenant_id enabled
    gets (get_status now user)
