-- ===== src/Auth/Factor/Laws.antt =====
-- What the check of a second factor changes.
use saa_s_app_be.Prelude.{
  ℕ, String, true, ◌≡◌, refl, Option, none, some, arith, Option-cases, inl, inr,
}
use saa_s_app_be.Action.{Exception, err, is_fault, Result-cases}
use saa_s_app_be.Crypto.{resolve_key}
use saa_s_app_be.Crypto.Laws.{decrypt_secret-err}
use saa_s_app_be.Host.{Host}
use saa_s_app_be.Auth.Model.{Db, UserMfa}
use saa_s_app_be.Auth.Repositories.UserMfas
use saa_s_app_be.Auth.Repositories.UserMfas.{mark_backup_code_used, try_consume_totp_step}
use saa_s_app_be.Auth.Factor.{
  verify, verify_with, verify_backup_code, verify_authenticator_code, claim_step, hash_backup_code,
  decrypt, encryption_key,
}

module _ (host : Host) where
  encryption_key-fault : (e : Exception) → encryption_key host ≡ err e → is_fault e ≡ true
  unfolding encryption_key resolve_key
  encryption_key-fault e h = ground arith

  decrypt-fault :
      (payload : String) (s : Db host) (e : Exception)
      → (decrypt host payload s).0 ≡ err e
      → is_fault e ≡ true
  unfolding decrypt
  decrypt-fault payload s e h = elim (Result-cases (encryption_key host)) [
    | inr (x, broken) ↦ encryption_key-fault e (ground arith)
    | inl (key, good) ↦ decrypt_secret-err host.node payload key e (rw good at h)
  ]

  challenges-verify_backup_code :
      (now : ℕ) (user_id code : String) (s : Db host)
      → (verify_backup_code host now user_id code s).1.challenges ≡ s.challenges
  unfolding verify_backup_code mark_backup_code_used hash_backup_code
  challenges-verify_backup_code now user_id code s = ground arith

  challenges-claim_step :
      (user_id : String) (step : Option ℕ) (s : Db host)
      → (claim_step host user_id step s).1.challenges ≡ s.challenges
  unfolding claim_step try_consume_totp_step
  challenges-claim_step user_id step s = ground arith

  challenges-verify_authenticator_code :
      (now : ℕ) (user_id code : String) (secret : Option String) (last : Option ℕ) (s : Db host)
      → (verify_authenticator_code host now user_id code secret last s).1.challenges ≡ s.challenges
  unfolding verify_authenticator_code decrypt claim_step try_consume_totp_step
  challenges-verify_authenticator_code now user_id code secret last s = ground arith

  challenges-verify_with :
      (now : ℕ) (user_id code : String) (mfa : Option UserMfa) (s : Db host)
      → (verify_with host now user_id code mfa s).1.challenges ≡ s.challenges
  unfolding verify_with
  challenges-verify_with now user_id code none s = refl
  challenges-verify_with now user_id code (some mfa) s = ground (
    arith,
    challenges-verify_backup_code now user_id code s,
    challenges-verify_authenticator_code now user_id code mfa.totp_secret_encrypted
        mfa.last_used_totp_step s,
  )

  -- The check of a second factor leaves the pending challenges alone.
  pub challenges-verify :
      (now : ℕ) (user_id code : String) (s : Db host)
      → (verify host now user_id code s).1.challenges ≡ s.challenges
  unfolding verify
  challenges-verify now user_id code s =
      challenges-verify_with now user_id code (UserMfas.find_by_user_id host user_id s) s

  verify-fault_backup_code :
      (now : ℕ) (user_id code : String) (s : Db host) (e : Exception)
      → (verify_backup_code host now user_id code s).0 ≡ err e
      → is_fault e ≡ true
  unfolding verify_backup_code mark_backup_code_used hash_backup_code
  verify-fault_backup_code now user_id code s e h = ground (arith, encryption_key-fault e)

  verify-fault_authenticator_code :
      (now : ℕ) (user_id code : String) (secret : Option String) (last : Option ℕ) (s : Db host)
      (e : Exception)
      → (verify_authenticator_code host now user_id code secret last s).0 ≡ err e
      → is_fault e ≡ true
  unfolding verify_authenticator_code claim_step try_consume_totp_step
  verify-fault_authenticator_code now user_id code none last s e h = cc
  verify-fault_authenticator_code now user_id code (some secret) last s e h =
      ground (arith, decrypt-fault secret s e)

  -- The check of a second factor throws only faults: a broken key or a broken stored secret.
  pub verify-fault :
      (now : ℕ) (user_id code : String) (s : Db host) (e : Exception)
      → (verify host now user_id code s).0 ≡ err e
      → is_fault e ≡ true
  unfolding verify verify_with
  verify-fault now user_id code s e h =
      elim (Option-cases (UserMfas.find_by_user_id host user_id s)) [
        | inl missing ↦ absurd (ground arith)
        | inr (mfa, found) ↦ ground (
          arith,
          verify-fault_backup_code now user_id code s e,
          verify-fault_authenticator_code now user_id code mfa.totp_secret_encrypted
              mfa.last_used_totp_step s e,
        )
      ]
