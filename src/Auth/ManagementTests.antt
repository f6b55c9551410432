-- ===== src/Auth/ManagementTests.antt =====
-- Runs of sign-in by an emailed code, of factor management and of the guards.
use saa_s_app_be.Prelude.{
  ℕ, arith, String, ◌≡◌, ◌↔◌, refl, ◌==◌, true, false, none, some, leb, if◌then◌else◌,
}
use saa_s_app_be.Text.{
  trim, trim_start, split_dot, only_digits, upper_alphanumeric, behind_word, has_no_space, is_space,
}
use saa_s_app_be.Action.{ok, err}
use saa_s_app_be.Crypto.{resolve_key, parse_encryption_key, encrypt_secret, decrypt_secret}
use saa_s_app_be.Crypto.Sample.Codes.{codes}
use saa_s_app_be.Crypto.Sample.Letters.{letters, from_letters}
use saa_s_app_be.Host.{admin}
use saa_s_app_be.Auth.Model.{UserMfa, tenant}
use saa_s_app_be.Auth.Sample.{host, alice, plain_db, factor_db, draw, requester}
use saa_s_app_be.Auth.Tests.{j1_free, j1_s-IsTokenParts}
use saa_s_app_be.Auth.Repositories.MfaChallenges.{find_by_jti_with_code}
use saa_s_app_be.Auth.Repositories.RefreshTokens
use saa_s_app_be.Auth.Repositories.UserMfas
use saa_s_app_be.Auth.Repositories.Users
use saa_s_app_be.Auth.Challenge.{invalid_challenge, expired_challenge, clear_for_user}
use saa_s_app_be.Auth.Factor.{
  verify, verify_with, verify_totp, verify_authenticator_code, claim_step, looks_like_backup_code,
  decrypt, encryption_key,
}
use saa_s_app_be.Auth.Session.{session_of, access_claims}
use saa_s_app_be.Auth.Login.{is_enabled, RequestLoginCodeDto, same_role}
use saa_s_app_be.Auth.CodeLogin.{request_login_code, eligible_user}
use saa_s_app_be.Auth.CodeLogin.Laws.{target, code_answer, request_login_code_answer, decoy_refused}
use saa_s_app_be.Auth.SecondFactor.{verify_mfa_challenge, reset_mfa_for_user}
use saa_s_app_be.Auth.Manage.Enrollment.{enrolled_secret}
use saa_s_app_be.Auth.Manage.{
  TotpEnrollment, start_totp_enrollment, MfaStatus, disable_totp, assert_password_matches,
  notify_security_change, get_status, build_status,
}
use saa_s_app_be.Auth.Manage.Laws.{IsRevoked, IsTurnedOff, disable_revokes, reset_revokes}
use saa_s_app_be.Auth.Guards.{
  Verified, claims, Request, extract_access_token, authenticate, platform_admin_guard,
  tenant_admin_guard,
}
use saa_s_app_be.Auth.Guards.Laws.{signed, request_user, access_token_admits}

-- nobody's address
abbrev stranger : RequestLoginCodeDto
stranger = record { email = "nobody@x"; auth_scope = tenant; tenant_role = some admin }

request_login_code_answer_example :
    (request_login_code host 0 (draw "j1") stranger plain_db).0
    ≡ ok (code_answer host 0 (draw "j1"))
request_login_code_answer_example =
    request_login_code_answer host 0 (draw "j1") stranger plain_db j1_free

stranger_ineligible : target host stranger plain_db ≡ none
unfolding Users.find_by_email Users.normal_email trim trim_start eligible_user
stranger_ineligible = refl

decoy_refused_example :
    (verify_mfa_challenge host 1
      (draw "d")
      (code_answer host 0 (draw "j1")).challenge_token
      "123456"
      (request_login_code host 0 (draw "j1") stranger plain_db).1).0
    ≡ err (
        if leb (code_answer host 0 (draw "j1")).expires_at 1
        then expired_challenge
        else invalid_challenge)
decoy_refused_example =
    decoy_refused host 0 1 (draw "j1") (draw "d") stranger "123456" plain_db stranger_ineligible
      j1_free j1_s-IsTokenParts

-- the status that is shown when the factor is off
abbrev off : MfaStatus
off = record {
  is_totp_enabled = false;
  totp_enabled_at = none;
  has_pending_enrollment = false;
  backup_codes_remaining = 0;
  is_email_code_login_enabled = true;
}

disable_ok : (disable_totp host 6 requester "pw" "123456" factor_db).0 ≡ ok off
unfolding disable_totp UserMfas.find_by_user_id assert_password_matches Users.find_by_email
    Users.normal_email trim trim_start verify verify_with looks_like_backup_code upper_alphanumeric
    verify_authenticator_code only_digits decrypt encryption_key resolve_key parse_encryption_key
    decrypt_secret encrypt_secret split_dot verify_totp claim_step UserMfas.try_consume_totp_step
    UserMfas.disable_totp UserMfas.put_user_mfa clear_for_user RefreshTokens.delete_by_user_id
    saa_s_app_be.Auth.Repositories.MfaChallenges.delete_by_user_id notify_security_change get_status
    build_status letters from_letters codes saa_s_app_be.Auth.Manage.count_unused
disable_ok = refl

disable_revokes_example :
    IsTurnedOff host 6 requester "pw" "123456" factor_db
      (disable_totp host 6 requester "pw" "123456" factor_db).1
disable_revokes_example = disable_revokes host 6 requester "pw" "123456" factor_db off disable_ok

alice_found : Users.find_by_id host "u1" factor_db ≡ some alice
unfolding Users.find_by_id
alice_found = refl

reset_revokes_example :
    (ended : ℕ) × ((reset_mfa_for_user host "u1" factor_db).0 ≡ ok ("a@x", ended))
    × IsRevoked host "u1" (reset_mfa_for_user host "u1" factor_db).1
reset_revokes_example = reset_revokes host "u1" alice factor_db alice_found

-- a verifier that knows one token, that of Alice
abbrev verify_jwt : (now : ℕ) → String → Verified
verify_jwt now token =
    if token == "jwt" then claims (signed (access_claims host alice)) else Verified.malformed token

abbrev with_header : Request
with_header = record { authorization = some "Bearer  jwt "; access_cookie = none }

header_read :
    extract_access_token with_header ≡ some (session_of host 5 (draw "a") alice).access_token
unfolding session_of extract_access_token behind_word trim trim_start has_no_space is_space
header_read = refl

access_token_admits_example :
    (authenticate (verify_jwt 6) true with_header ≡ ok (request_user alice))
    × (platform_admin_guard (some (request_user alice)) ≡ ok tt ↔ alice.is_platform_admin ≡ true)
    × (tenant_admin_guard (some (request_user alice)) ≡ ok tt
        ↔ (alice.is_platform_admin ≡ false) × (same_role alice.role admin ≡ true))
access_token_admits_example =
    access_token_admits host verify_jwt 900000 true 5 6 (draw "a") with_header alice
      (λ signed_at t early. refl) header_read (ground arith) refl

-- what Alice is shown when she starts an enrolment
abbrev shown : TotpEnrollment
shown = record {
  secret = "seed";
  otpauth_uri = "seed";
  qr_code_data_url = "seed";
  expires_at = 900000;
}

start_ok : (start_totp_enrollment host 0 (draw "e") requester plain_db).0 ≡ ok shown
unfolding start_totp_enrollment UserMfas.find_by_user_id UserMfas.start_totp_enrollment
    UserMfas.put_user_mfa encryption_key resolve_key parse_encryption_key from_letters trim
    trim_start
start_ok = refl

enrolled_secret_example :
    (is_enabled (UserMfas.find_by_user_id host "u1" plain_db) ≡ false)
    × (shown.secret ≡ "seed")
    × ((d : UserMfa) × (sealed : String) × (UserMfas.find_by_user_id host "u1"
            (start_totp_enrollment host 0 (draw "e") requester plain_db).1
          ≡ some d)
        × (d.pending_totp_secret_encrypted ≡ some sealed)
        × (d.pending_totp_expires_at ≡ some shown.expires_at)
        × ((decrypt host sealed (start_totp_enrollment host 0 (draw "e") requester plain_db).1).0
            ≡ ok shown.secret))
enrolled_secret_example = enrolled_secret host 0 (draw "e") requester plain_db shown start_ok refl
