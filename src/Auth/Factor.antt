-- ===== src/Auth/Factor.antt =====
-- auth/mfa/services: the check of a second factor (totp.service.ts, backup-code.service.ts,
-- email-code.service.ts, mfa-verification.service.ts).
pub mod Laws
pub mod Accepted
use Prim.Native.String.{count}
use saa_s_app_be.Prelude.{
  ℕ, String, Bool, true, false, not, Option, none, some, List, [], ◌∷◌, map, eqb, length, is_filled,
  is_empty, if◌then◌else◌,
}
use saa_s_app_be.Text.{only_digits, upper_alphanumeric}
use saa_s_app_be.Action.{Action, Result, ok, pure, lift, gets, ◌>>=◌}
use saa_s_app_be.Crypto.{Bytes, resolve_key, decrypt_secret}
use saa_s_app_be.Host.{Host}
use saa_s_app_be.Auth.Model.{Method, MfaBackupCode, UserMfa, Db}
use saa_s_app_be.Auth.Repositories.UserMfas

-- `looksLikeBackupCode`, on `normalizeBackupCode`
unfoldable pub looks_like_backup_code : String → Bool
looks_like_backup_code code = eqb (length (upper_alphanumeric code)) 12

abbrev when_won : Bool → Method → Option Method
when_won true method = some method
when_won false method = none

module _ (host : Host) where
  open host use {node, config, otp_verify, bcrypt_hash, bcrypt_compare}

  -- `TotpService.verify`: the time step of a valid code
  unfoldable pub verify_totp : (now : ℕ) (code secret : String) → Option ℕ → Option ℕ
  verify_totp now code secret after_time_step =
      let normalized = only_digits code in
      if not (eqb (count normalized) 6)
      then none
      else otp_verify secret normalized now after_time_step

  unfoldable pub encryption_key : Result Bytes
  encryption_key = resolve_key node (config "SECRET_ENCRYPTION_KEY")

  -- `SecretCipherService.decrypt`
  unfoldable pub decrypt : String → Action (Db host) String
  unfolding encryption_key
  decrypt payload = do key ← lift encryption_key; lift (decrypt_secret node payload key)

  -- `BackupCodeService.hash` under a key
  unfoldable pub hash_with : Bytes → String → String
  hash_with key code = node.hmac_sha256 key (upper_alphanumeric code)

  -- `BackupCodeService.hash`
  unfoldable pub hash_backup_code : String → Action (Db host) String
  unfolding encryption_key
  hash_backup_code code = do key ← lift encryption_key; pure (hash_with key code)

  -- `BackupCodeService.generate`, on the codes that `createCode` drew
  unfoldable pub generate_backup_codes : List String → Action (Db host) (List MfaBackupCode)
  unfolding encryption_key
  generate_backup_codes plain_codes = do
    key ← lift encryption_key
    pure (map (λ code. record { code_hash = hash_with key code; used_at = none }) plain_codes)

  -- `EmailCodeService.verify`
  unfoldable pub verify_email_code : String → Option String → Bool
  verify_email_code code none = false
  verify_email_code code (some code_hash) =
      let candidate = only_digits code in
      if is_empty code_hash
      then false
      else if not (eqb (count candidate) 6)
      then false
      else bcrypt_compare candidate code_hash

  -- the branch of a recovery code
  unfoldable pub verify_backup_code :
      (now : ℕ) (user_id submitted_code : String) → Action (Db host) (Option Method)
  verify_backup_code now user_id submitted_code = do
    hash ← hash_backup_code submitted_code
    spent ← UserMfas.mark_backup_code_used host now user_id hash
    pure (when_won spent Method.backup_code)

  -- the claim of the time step of a valid code
  unfoldable pub claim_step : String → Option ℕ → Action (Db host) (Option Method)
  claim_step user_id none = pure none
  claim_step user_id (some step) = do
    claimed ← UserMfas.try_consume_totp_step host user_id step
    pure (when_won claimed Method.totp)

  -- the branch of an authenticator code
  unfoldable pub verify_authenticator_code :
      (now : ℕ) (user_id submitted_code : String)
      → Option String
      → Option ℕ
      → Action (Db host) (Option Method)
  verify_authenticator_code now user_id submitted_code none last = pure none
  verify_authenticator_code now user_id submitted_code (some encrypted_secret) last =
      if is_empty encrypted_secret
      then pure none
      else if not (eqb (count (only_digits submitted_code)) 6)
      then pure none
      else (do
        secret ← decrypt encrypted_secret
        claim_step user_id (verify_totp now submitted_code secret last))

  unfoldable pub verify_with :
      (now : ℕ) (user_id submitted_code : String)
      → Option UserMfa
      → Action (Db host) (Option Method)
  verify_with now user_id submitted_code none = pure none
  verify_with now user_id submitted_code (some mfa) =
      if not mfa.is_totp_enabled
      then pure none
      else if looks_like_backup_code submitted_code
      then verify_backup_code now user_id submitted_code
      else verify_authenticator_code now user_id submitted_code mfa.totp_secret_encrypted
          mfa.last_used_totp_step

  -- `MfaVerificationService.verify`
  unfoldable pub verify :
      (now : ℕ) (user_id submitted_code : String) → Action (Db host) (Option Method)
  verify now user_id submitted_code = do
    found ← gets (UserMfas.find_by_user_id host user_id)
    verify_with now user_id submitted_code found
