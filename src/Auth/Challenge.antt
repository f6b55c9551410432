-- ===== src/Auth/Challenge.antt =====
-- auth/mfa/services/mfa-challenge.service.ts: the ticket between the first and the second factor.
pub mod Laws
pub mod Issued
use saa_s_app_be.Prelude.{
  ℕ, ◌+◌, ◌-◌, ◌*◌, String, Bool, true, false, not, Option, none, some, ◌==◌, eqb, leb, is_some,
  or_default, if◌then◌else◌,
}
use saa_s_app_be.Text.Token.{OpaqueToken, parse_token, format_token}
use saa_s_app_be.Action.{
  Exception, Result, Action, unauthorized, text, attempts_remaining, pure, throw, gets, or_throw,
  throw_if, ◌>>=◌, ◌>>◌,
}
use saa_s_app_be.Host.{Host, Role}
use saa_s_app_be.Auth.Config.{read_positive_integer}
use saa_s_app_be.Auth.Model.{Scope, Purpose, MfaChallenge, Draw, Db}
use saa_s_app_be.Auth.Repositories.MfaChallenges

abbrev pub invalid_challenge : Exception
invalid_challenge =
    unauthorized (text "This verification request is no longer valid. Please sign in again.")

abbrev pub too_many_attempts : Exception
too_many_attempts = unauthorized (text "Too many incorrect codes. Please sign in again.")

abbrev pub expired_challenge : Exception
expired_challenge =
    unauthorized (text "This verification request has expired. Please sign in again.")

abbrev pub incorrect_code : ℕ → Exception
incorrect_code remaining = unauthorized (attempts_remaining remaining)

pub record IssueChallengeInput : Type 0 where
  pub user_id : Option String
  pub tenant_id : String
  pub purpose : Purpose
  pub auth_scope : Scope
  pub tenant_role : Option Role
  pub code_hash : Option String
  pub ttl_minutes : Option ℕ

pub record IssuedChallenge : Type 0 where
  pub challenge_token : String
  pub expires_at : ℕ

module _ (host : Host) where
  open host use {config, bcrypt_hash, bcrypt_compare}

  unfoldable pub get_ttl_minutes : ℕ
  get_ttl_minutes = read_positive_integer (config "MFA_CHALLENGE_TTL_MINUTES") 5

  unfoldable pub get_max_attempts : ℕ
  get_max_attempts = read_positive_integer (config "MFA_MAX_VERIFY_ATTEMPTS") 5

  -- the document that `issue` stores
  unfoldable pub issued : (now : ℕ) → Draw → IssueChallengeInput → MfaChallenge
  issued now draw input = record {
    jti = draw.jti;
    secret_hash = bcrypt_hash draw.salt draw.secret;
    user_id = input.user_id;
    tenant_id = input.tenant_id;
    purpose = input.purpose;
    auth_scope = input.auth_scope;
    tenant_role = input.tenant_role;
    code_hash = input.code_hash;
    attempt_count = 0;
    max_attempts = get_max_attempts;
    consumed_at = none;
    expires_at = now + or_default input.ttl_minutes get_ttl_minutes * 60000;
  }

  unfoldable pub issue : (now : ℕ) → Draw → IssueChallengeInput → Action (Db host) IssuedChallenge
  unfolding issued
  issue now draw input = do
    MfaChallenges.create host (issued now draw input)
    pure (record {
      challenge_token = format_token draw.jti draw.secret;
      expires_at = now + or_default input.ttl_minutes get_ttl_minutes * 60000;
    })

  -- the tests of `load` on the stored challenge; an expired or exhausted one is deleted
  unfoldable pub check_challenge :
      (now : ℕ) → OpaqueToken → MfaChallenge → Action (Db host) MfaChallenge
  check_challenge now parsed challenge =
      if is_some challenge.consumed_at
      then throw invalid_challenge
      else if leb challenge.expires_at now
      then (do MfaChallenges.delete_by_jti host parsed.jti; throw expired_challenge)
      else if leb challenge.max_attempts challenge.attempt_count
      then (do MfaChallenges.delete_by_jti host parsed.jti; throw too_many_attempts)
      else if bcrypt_compare parsed.secret challenge.secret_hash
      then pure challenge
      else throw invalid_challenge

  unfoldable pub load : (now : ℕ) → String → Action (Db host) MfaChallenge
  load now challenge_token = do
    parsed ← or_throw (parse_token challenge_token) invalid_challenge
    found ← gets (MfaChallenges.find_by_jti_with_code host parsed.jti)
    challenge ← or_throw found invalid_challenge
    check_challenge now parsed challenge

  -- what `registerFailedAttempt` throws, when so many attempts remain
  fail_attempt : {A : Type 0} → MfaChallenge → (remaining : ℕ) → Action (Db host) A
  fail_attempt challenge remaining =
      if eqb remaining 0
      then (do MfaChallenges.delete_by_jti host challenge.jti; throw too_many_attempts)
      else throw (incorrect_code remaining)

  unfoldable pub register_failed_attempt : {A : Type 0} → MfaChallenge → Action (Db host) A
  unfolding fail_attempt
  register_failed_attempt challenge = do
    attempt_count ← MfaChallenges.record_failed_attempt host challenge.jti
    let used = or_default attempt_count challenge.max_attempts
    fail_attempt challenge (challenge.max_attempts - used)

  unfoldable pub consume : (now : ℕ) → MfaChallenge → Action (Db host) Unit
  consume now challenge = do
    won ← MfaChallenges.try_consume host now challenge.jti
    throw_if (not won) invalid_challenge

  unfoldable pub clear_for_user : String → Action (Db host) Unit
  clear_for_user user_id = MfaChallenges.delete_by_user_id host user_id
