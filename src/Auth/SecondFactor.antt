-- ===== src/Auth/SecondFactor.antt =====
-- auth/auth.service.ts: `verifyMfaChallenge`, which completes a sign-in, `resetMfaForUser` and
-- `verifyEmail`.
pub mod Laws
pub mod Budget
pub mod Messages
pub mod Sound
pub mod Guesses
pub mod Once
pub mod Outcome
pub mod Issue
use saa_s_app_be.Prelude.{
  ℕ, String, Bool, true, false, not, Option, none, some, List, [], ◌∷◌, ◌++◌, ◌==◌, leb, is_empty,
  is_filled, or_default, if◌then◌else◌,
}
use saa_s_app_be.Action.{
  Exception, Action, attempts_remaining, unauthorized, bad_request, not_found, text, pure, throw,
  gets, modify, or_throw, throw_if, ◌>>=◌, ◌>>◌,
}
use saa_s_app_be.Host.{Host}
use saa_s_app_be.Auth.Model.{Purpose, Method, User, MfaChallenge, Mail, security_change, Draw, Db}
use saa_s_app_be.Auth.Repositories.RefreshTokens
use saa_s_app_be.Auth.Repositories.UserMfas
use saa_s_app_be.Auth.Repositories.Users
use saa_s_app_be.Auth.Challenge
use saa_s_app_be.Auth.Challenge.{invalid_challenge}
use saa_s_app_be.Auth.Factor
use saa_s_app_be.Auth.Session.{AuthSession, issue_token_pair}
use saa_s_app_be.Auth.Login.{invalid_credentials, is_email_purpose, assert_login_scope_matches_user}

-- `challenge.userId?.toString()`, with the test that it is not empty
abbrev pub filled : Option String → Option String
filled none = none
filled (some s) = if is_empty s then none else some s

abbrev when_matches : Bool → Option Method
when_matches true = some Method.email_code
when_matches false = none

-- The answers to a wrong code: so many attempts are left, or none.
abbrev pub is_wrong_code : Exception → Bool
is_wrong_code (unauthorized (attempts_remaining n)) = true
is_wrong_code (unauthorized (text t)) = t == "Too many incorrect codes. Please sign in again."
is_wrong_code _ = false

module _ (host : Host) where
  open host use {bcrypt_compare}

  -- the second factor that the challenge asks for
  unfoldable pub verify_for :
      (now : ℕ) → MfaChallenge → (user_id code : String) → Action (Db host) (Option Method)
  verify_for now challenge user_id code =
      if is_email_purpose challenge.purpose
      then pure (when_matches (Factor.verify_email_code host code challenge.code_hash))
      else Factor.verify host now user_id code

  -- the end of `verifyMfaChallenge`: a failed attempt is counted, a good one is redeemed
  unfoldable pub finish :
      (now : ℕ)
      → Draw
      → MfaChallenge
      → User
      → (user_id : String) → Option Method
      → Action (Db host) AuthSession
  finish now draw challenge user user_id none = Challenge.register_failed_attempt host challenge
  finish now draw challenge user user_id (some method) = do
    Challenge.consume host now challenge
    issued ← issue_token_pair host now draw user none
    Challenge.clear_for_user host user_id
    pure issued

  -- the part of `verifyMfaChallenge` behind `load`
  unfoldable pub complete :
      (now : ℕ) → Draw → MfaChallenge → (code : String) → Action (Db host) AuthSession
  complete now draw challenge code = do
    user_id ← or_throw (filled challenge.user_id) invalid_challenge
    found ← gets (Users.find_by_id host user_id)
    user ← or_throw found invalid_credentials
    assert_login_scope_matches_user challenge.auth_scope user
    throw_if (not user.is_active) (unauthorized (text "Account is not active."))
    method ← verify_for now challenge user_id code
    finish now draw challenge user user_id method

  -- `verifyMfaChallenge`
  unfoldable pub verify_mfa_challenge :
      (now : ℕ) → Draw → (challenge_token code : String) → Action (Db host) AuthSession
  verify_mfa_challenge now draw challenge_token code = do
    challenge ← Challenge.load host now challenge_token
    complete now draw challenge code

  -- `resetMfaForUser`, with the number of sessions that it ended
  unfoldable pub reset_mfa_for_user : String → Action (Db host) (String × ℕ)
  reset_mfa_for_user user_id = do
    found ← gets (Users.find_by_id host user_id)
    user ← or_throw found (not_found (text "User not found"))
    _ ← UserMfas.disable_totp host user_id
    Challenge.clear_for_user host user_id
    revoked ← RefreshTokens.delete_by_user_id host user_id none
    modify (λ s. record s {
      outbox = s.outbox ++ security_change user.email "Two-factor authentication was reset" ∷ [];
    })
    pure (user.email, revoked)

  -- an expiry that has passed; a user without one never expires
  abbrev is_past : ℕ → Option ℕ → Bool
  is_past now none = false
  is_past now (some expires_at) = leb expires_at now

  -- `verifyEmail` on the stored user
  unfoldable pub verify_email_of : (now : ℕ) (token : String) → User → Action (Db host) Unit
  verify_email_of now token user = if user.is_email_verified then pure tt else (do
    throw_if (not (is_filled user.email_verify_token_hash))
        (bad_request (text "No pending email verification for this address."))
    throw_if (is_past now user.email_verify_expires_at)
        (unauthorized (text "Verification link has expired. Contact support or register again."))
    throw_if (not (bcrypt_compare token (or_default user.email_verify_token_hash "")))
        (unauthorized (text "Invalid verification link."))
    Users.mark_email_verified host user.id)

  -- `verifyEmail`
  unfoldable pub verify_email : (now : ℕ) (email token : String) → Action (Db host) Unit
  verify_email now email token = do
    found ← gets (Users.find_by_email host (Users.normal_email host email))
    user ← or_throw found (unauthorized (text "Invalid verification request."))
    verify_email_of now token user
