-- ===== src/Auth/Model.antt =====
-- The documents that src/auth reads and writes (user/schemas/user.schema.ts, auth/schemas,
-- auth/mfa/schemas) and its state. An optional field is an `Option`; a `Date` is its milliseconds.
use saa_s_app_be.Prelude.{ℕ, String, Bool, Option, List}
use saa_s_app_be.Host.{Host, Role}

-- `AuthLoginScope`
pub data Scope : Type 0 where
  tenant platform : Scope

-- `MfaChallengePurpose`
pub data Purpose : Type 0 where
  totp email_code : Purpose

-- `MfaChallengeMethod`
pub data Method : Type 0 where
  totp backup_code email_code : Method

pub record User : Type 0 where
  pub id : String
  pub tenant_id : String
  pub email : String
  pub password_hash : Option String
  pub is_email_verified : Bool
  pub email_verify_token_hash : Option String
  pub email_verify_expires_at : Option ℕ
  pub is_platform_admin : Bool
  pub display_name : Option String
  pub role : Role
  pub is_active : Bool

-- The part of a tenant document that `findActiveByTenantId` looks at.
pub record Tenant : Type 0 where
  pub tenant_id : String
  pub deleted_at : Option ℕ

pub record RefreshToken : Type 0 where
  pub jti : String
  pub user_id : String
  pub tenant_id : String
  pub secret_hash : String
  pub family_id : String
  pub expires_at : ℕ

pub record MfaChallenge : Type 0 where
  pub jti : String
  pub secret_hash : String
  pub user_id : Option String
  pub tenant_id : String
  pub purpose : Purpose
  pub auth_scope : Scope
  pub tenant_role : Option Role
  pub code_hash : Option String
  pub attempt_count : ℕ
  pub max_attempts : ℕ
  pub consumed_at : Option ℕ
  pub expires_at : ℕ

pub record MfaBackupCode : Type 0 where
  pub code_hash : String
  pub used_at : Option ℕ

pub record UserMfa : Type 0 where
  pub user_id : String
  pub tenant_id : String
  pub totp_secret_encrypted : Option String
  pub pending_totp_secret_encrypted : Option String
  pub pending_totp_expires_at : Option ℕ
  pub is_totp_enabled : Bool
  pub totp_enabled_at : Option ℕ
  pub last_used_totp_step : Option ℕ
  pub backup_codes : List MfaBackupCode
  pub backup_codes_generated_at : Option ℕ
  pub is_email_code_login_enabled : Bool

-- What leaves the process: the mails that `EmailService` is asked to send.
pub data Mail : Type 0 where
  login_code : (to code : String) (expires_in_minutes : ℕ) → Mail
  security_change : (to subject_line : String) → Mail

-- `AuthenticatedRequestUser`
pub record RequestUser : Type 0 where
  pub user_id : String
  pub email : String
  pub tenant_id : String
  pub platform_admin : Bool
  pub tenant_role : Option Role

-- The random values that one request draws: `randomUUID`, `randomBytes`, `randomInt`, bcrypt's salt.
pub record Draw : Type 0 where
  pub jti : String
  pub secret : String
  pub family : String
  pub login_code : ℕ
  pub salt : ℕ
  pub iv : List ℕ
  pub totp_secret : String
  pub backup_codes : List String

pub record Db (host : Host) : Type 0 where
  pub users : host.mongo.Coll User
  pub tenants : host.mongo.Coll Tenant
  pub refresh_tokens : host.mongo.Coll RefreshToken
  pub challenges : host.mongo.Coll MfaChallenge
  pub user_mfa : host.mongo.Coll UserMfa
  pub outbox : List Mail
