-- ===== src/Auth/Repositories/UserMfas.antt =====
-- auth/mfa/repositories/user-mfa.repository.ts
use saa_s_app_be.Prelude.{
  ℕ, String, Bool, true, false, not, ◌&&◌, ◌||◌, Option, none, some, List, [], ◌∷◌, ◌==◌, ltb,
  is_some, if◌then◌else◌,
}
use saa_s_app_be.Action.{Action, ok, err, plain, text}
use saa_s_app_be.Host.{Host}
use saa_s_app_be.Auth.Model.{MfaBackupCode, UserMfa, Db}

-- `{ codeHash, usedAt: { $exists: false } }`
abbrev pub is_unused : String → MfaBackupCode → Bool
is_unused hash c = c.code_hash == hash && not (is_some c.used_at)

abbrev pub any_unused : String → List MfaBackupCode → Bool
any_unused hash [] = false
any_unused hash (c ∷ cs) = is_unused hash c || any_unused hash cs

-- `'backupCodes.$.usedAt'`: the first element that matched
abbrev pub spend_first : String → ℕ → List MfaBackupCode → List MfaBackupCode
spend_first hash now [] = []
spend_first hash now (c ∷ cs) =
    if is_unused hash c then record c { used_at = some now } ∷ cs else c ∷ spend_first hash now cs

-- `{ $or: [{ lastUsedTotpStep: { $exists: false } }, { lastUsedTotpStep: { $lt: step } }] }`
abbrev pub is_before : ℕ → Option ℕ → Bool
is_before step none = true
is_before step (some last) = ltb last step

-- the fields that an insert of `user_mfa` takes from the schema's defaults
abbrev pub new_user_mfa : String → UserMfa
new_user_mfa user_id = record {
  user_id = user_id;
  tenant_id = "";
  totp_secret_encrypted = none;
  pending_totp_secret_encrypted = none;
  pending_totp_expires_at = none;
  is_totp_enabled = false;
  totp_enabled_at = none;
  last_used_totp_step = none;
  backup_codes = [];
  backup_codes_generated_at = none;
  is_email_code_login_enabled = true;
}

abbrev pub promoted : ℕ → String → List MfaBackupCode → UserMfa → UserMfa
promoted now secret codes d = record d {
  totp_secret_encrypted = some secret;
  is_totp_enabled = true;
  totp_enabled_at = some now;
  backup_codes = codes;
  backup_codes_generated_at = some now;
  pending_totp_secret_encrypted = none;
  pending_totp_expires_at = none;
  last_used_totp_step = none;
}

abbrev pub stripped : UserMfa → UserMfa
stripped d = record d {
  is_totp_enabled = false;
  backup_codes = [];
  totp_secret_encrypted = none;
  pending_totp_secret_encrypted = none;
  pending_totp_expires_at = none;
  totp_enabled_at = none;
  last_used_totp_step = none;
  backup_codes_generated_at = none;
}

abbrev pub with_pending : String → String → ℕ → UserMfa → UserMfa
with_pending tenant_id secret expires_at d = record d {
  tenant_id = tenant_id;
  pending_totp_secret_encrypted = some secret;
  pending_totp_expires_at = some expires_at;
}

abbrev pub with_step : ℕ → UserMfa → UserMfa
with_step step d = record d { last_used_totp_step = some step }

abbrev pub with_spent : String → ℕ → UserMfa → UserMfa
with_spent hash now d = record d { backup_codes = spend_first hash now d.backup_codes }

abbrev pub with_codes : ℕ → List MfaBackupCode → UserMfa → UserMfa
with_codes now codes d = record d { backup_codes = codes; backup_codes_generated_at = some now }

abbrev pub with_email_login : String → Bool → UserMfa → UserMfa
with_email_login tenant_id enabled d = record d {
  is_email_code_login_enabled = enabled;
  tenant_id = tenant_id;
}

abbrev pub any_user_mfa : UserMfa → Bool
any_user_mfa d = true

module _ (host : Host) where
  open host use {mongo, is_object_id, lower_case}
  open mongo use {find_one, find_where, insert, update_one, upsert, delete_one, delete_many}

  -- `findByUserId` and `findByUserIdWithSecrets`, which differ in the fields that are selected
  unfoldable pub find_by_user_id : String → Db host → Option UserMfa
  find_by_user_id user_id s = if is_object_id user_id then find_one user_id s.user_mfa else none

  -- a write behind `requireObjectId`, with the document after it
  unfoldable pub put_user_mfa :
      String
      → (host.mongo.Coll UserMfa → host.mongo.Coll UserMfa)
      → Action (Db host) (Option UserMfa)
  put_user_mfa user_id write s =
      let user_mfa = write s.user_mfa in
      if is_object_id user_id
      then (ok (find_one user_id user_mfa), record s { user_mfa = user_mfa })
      else (err (plain (text "Invalid user id")), s)

  unfoldable pub start_totp_enrollment :
      (user_id tenant_id pending_secret : String) (expires_at : ℕ)
      → Action (Db host) (Option UserMfa)
  unfolding put_user_mfa
  start_totp_enrollment user_id tenant_id secret expires_at =
      put_user_mfa user_id
        (upsert user_id (new_user_mfa user_id) (with_pending tenant_id secret expires_at))

  unfoldable pub activate_totp :
      (now : ℕ) (user_id secret : String) → List MfaBackupCode → Action (Db host) (Option UserMfa)
  unfolding put_user_mfa
  activate_totp now user_id secret codes =
      put_user_mfa user_id (λ c. (update_one user_id any_user_mfa (promoted now secret codes) c).0)

  unfoldable pub disable_totp : String → Action (Db host) (Option UserMfa)
  unfolding put_user_mfa
  disable_totp user_id = put_user_mfa user_id (λ c. (update_one user_id any_user_mfa stripped c).0)

  unfoldable pub try_consume_totp_step : String → ℕ → Action (Db host) Bool
  try_consume_totp_step user_id step s =
      let (user_mfa, modified) =
        update_one user_id (λ d. is_before step d.last_used_totp_step) (with_step step)
          s.user_mfa in
      if is_object_id user_id
      then (ok modified, record s { user_mfa = user_mfa })
      else (ok false, s)

  unfoldable pub mark_backup_code_used : ℕ → String → String → Action (Db host) Bool
  mark_backup_code_used now user_id hash s =
      let (user_mfa, modified) =
        update_one user_id (λ d. any_unused hash d.backup_codes) (with_spent hash now) s.user_mfa in
      if is_object_id user_id
      then (ok modified, record s { user_mfa = user_mfa })
      else (ok false, s)

  unfoldable pub replace_backup_codes :
      (now : ℕ) → String → List MfaBackupCode → Action (Db host) (Option UserMfa)
  unfolding put_user_mfa
  replace_backup_codes now user_id codes =
      put_user_mfa user_id (λ c. (update_one user_id any_user_mfa (with_codes now codes) c).0)

  unfoldable pub set_email_code_login_enabled :
      (user_id tenant_id : String) → Bool → Action (Db host) (Option UserMfa)
  unfolding put_user_mfa
  set_email_code_login_enabled user_id tenant_id enabled =
      put_user_mfa user_id
        (upsert user_id (new_user_mfa user_id) (with_email_login tenant_id enabled))

  unfoldable pub delete_by_user_id : String → Action (Db host) Unit
  delete_by_user_id user_id s =
      if is_object_id user_id
      then (ok tt, record s { user_mfa = delete_one user_id s.user_mfa })
      else (ok tt, s)
