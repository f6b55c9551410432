-- ===== src/Auth/Sample.antt =====
-- A small database and the values that the examples run on.
use saa_s_app_be.Prelude.{String, ◌==◌, true, false, Option, none, some, [], ◌∷◌, if◌then◌else◌}
use saa_s_app_be.Text.{upper_alphanumeric}
use saa_s_app_be.Mongo.Memory.{Store, empty}
use saa_s_app_be.Crypto.{Bytes, encrypt_secret}
use saa_s_app_be.Host.{Host, admin}
use saa_s_app_be.Host.Sample.{toy_host}
use saa_s_app_be.Auth.Model.{User, Tenant, UserMfa, Draw, Db, RequestUser}

abbrev key_text : String
key_text = "bbbbbbbbbbbbbbbbbbbbbbbbbbbbbbbb"

abbrev env : String → Option String
env key = if key == "SECRET_ENCRYPTION_KEY" then some key_text else none

abbrev pub host : Host
host = toy_host env

abbrev pub alice : User
alice = record {
  id = "u1";
  tenant_id = "t1";
  email = "a@x";
  password_hash = some "#pw";
  is_email_verified = true;
  email_verify_token_hash = none;
  email_verify_expires_at = none;
  is_platform_admin = false;
  display_name = some " Alice ";
  role = admin;
  is_active = true;
}

abbrev pub acme : Tenant
acme = record { tenant_id = "t1"; deleted_at = none }

abbrev one : {D : Type 0} → String → D → Store D
one k d = (k ∷ [], λ j. if k == j then some d else none)

-- Alice alone, without a second factor.
abbrev pub plain_db : Db host
plain_db = record {
  users = one "u1" alice;
  tenants = one "t1" acme;
  refresh_tokens = empty;
  challenges = empty;
  user_mfa = empty;
  outbox = [];
}

abbrev pub draw : String → Draw
draw jti = record {
  jti = jti;
  secret = "s";
  family = "f";
  login_code = 123456;
  salt = 0;
  iv = 1 ∷ 2 ∷ 3 ∷ 4 ∷ 5 ∷ 6 ∷ 7 ∷ 8 ∷ 9 ∷ 10 ∷ 11 ∷ 12 ∷ [];
  totp_secret = "seed";
  backup_codes = "AAAA-BBBB-CCCC" ∷ [];
}

abbrev pub requester : RequestUser
requester = record {
  user_id = "u1";
  email = "a@x";
  tenant_id = "t1";
  platform_admin = false;
  tenant_role = some admin;
}

-- Alice with an authenticator, whose secret is "seed", and one recovery code, 0000-0000-0000.
abbrev key : Bytes
key = host.node.from_base64 key_text

abbrev factor : UserMfa
factor = record {
  user_id = "u1";
  tenant_id = "t1";
  totp_secret_encrypted = some (encrypt_secret host.node (draw "").iv "seed" key);
  pending_totp_secret_encrypted = none;
  pending_totp_expires_at = none;
  is_totp_enabled = true;
  totp_enabled_at = some 0;
  last_used_totp_step = some 5;
  backup_codes =
      record { code_hash = host.node.hmac_sha256 [] (1 ∷ []); used_at = none }
      ∷ record {
        code_hash = host.node.hmac_sha256 key (upper_alphanumeric "0000-0000-0000");
        used_at = none;
      }
      ∷ [];
  backup_codes_generated_at = some 0;
  is_email_code_login_enabled = true;
}

abbrev pub factor_db : Db host
factor_db = record plain_db { user_mfa = one "u1" factor }
