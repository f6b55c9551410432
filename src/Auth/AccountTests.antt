-- ===== src/Auth/AccountTests.antt =====
-- Runs of sign-in, sessions and factor management on a small database.
use saa_s_app_be.Prelude.{ℕ, suc, ◌<◌, ◌≡◌, refl, none, some}
use saa_s_app_be.Text.{trim, trim_start, split_dot, only_digits, upper_alphanumeric}
use saa_s_app_be.Text.Token.{parse_token}
use saa_s_app_be.Action.{ok, err}
use saa_s_app_be.Crypto.{resolve_key, parse_encryption_key, encrypt_secret, decrypt_secret}
use saa_s_app_be.Crypto.Sample.Codes.{codes}
use saa_s_app_be.Crypto.Sample.Letters.{letters, from_letters}
use saa_s_app_be.Host.{admin}
use saa_s_app_be.Auth.Model.{tenant, Method, User, UserMfa, Db}
use saa_s_app_be.Auth.Sample.{host, alice, plain_db, factor_db, draw}
use saa_s_app_be.Auth.Config.{read_positive_integer, parse_int}
use saa_s_app_be.Auth.Repositories.Users.{
  find_by_id, find_by_email, find_active_tenant, normal_email,
}
use saa_s_app_be.Auth.Repositories.UserMfas
use saa_s_app_be.Auth.Repositories.RefreshTokens.{create_token, find_by_jti, delete_by_jti}
use saa_s_app_be.Auth.Factor.{
  verify, verify_with, verify_totp, verify_backup_code, verify_authenticator_code, claim_step,
  hash_backup_code, hash_with, looks_like_backup_code, decrypt, encryption_key,
}
use saa_s_app_be.Auth.Factor.Accepted.{Accepted}
use saa_s_app_be.Auth.Session.{
  session_of, issue_token_pair, assert_may_hold_session, assert_tenant_active_for_auth,
  tenant_has_pending_email_verification, refresh_record, refresh_expires_at, refresh, rotate,
  rotate_for, invalid_refresh,
}
use saa_s_app_be.Auth.Session.Rotation.{IsRotated, refresh_rotates, rotated_token_refused}
use saa_s_app_be.Auth.Login.{
  LoginDto, LoginResult, session, login, check_credentials, second_step,
  assert_login_scope_matches_user, assert_tenant_login_portal_matches_role,
}
use saa_s_app_be.Auth.Login.Laws.{HasPassed, Outcome, login_gates}
use saa_s_app_be.Auth.Manage.{build_status}
use saa_s_app_be.Auth.Manage.Codes.{IsClaimed, backup_code_spent, totp_never_replayed}

-- Alice at the portal of organization administrators
abbrev alice_dto : LoginDto
alice_dto = record { email = "a@x"; password = "pw"; auth_scope = tenant; tenant_role = some admin }

abbrev alice_session : LoginResult
alice_session = session (session_of host 0 (draw "l1") alice)

login_ok : (login host 0 (draw "l1") alice_dto plain_db).0 ≡ ok alice_session
unfolding login find_by_email normal_email trim trim_start check_credentials second_step
    assert_login_scope_matches_user assert_tenant_login_portal_matches_role
    tenant_has_pending_email_verification UserMfas.find_by_user_id issue_token_pair
    assert_may_hold_session assert_tenant_active_for_auth find_active_tenant create_token
    refresh_record
login_ok = refl

login_gates_example :
    (user : User) × (find_by_email host "a@x" plain_db ≡ some user)
    × HasPassed host alice_dto user
    × Outcome host 0 (draw "l1") alice_dto user plain_db alice_session
login_gates_example = login_gates host 0 (draw "l1") alice_dto plain_db alice_session login_ok

totp_ok : (verify host 6 "u1" "123 456" factor_db).0 ≡ ok (some Method.totp)
unfolding verify verify_with UserMfas.find_by_user_id looks_like_backup_code upper_alphanumeric
    verify_authenticator_code only_digits decrypt encryption_key resolve_key parse_encryption_key
    decrypt_secret encrypt_secret split_dot verify_totp claim_step UserMfas.try_consume_totp_step
    trim trim_start letters from_letters codes
totp_ok = refl

totp_again :
    (verify host 7 "u1" "123456" (verify host 6 "u1" "123 456" factor_db).1).0
    ≡ ok (some Method.totp)
unfolding verify verify_with UserMfas.find_by_user_id looks_like_backup_code upper_alphanumeric
    verify_authenticator_code only_digits decrypt encryption_key resolve_key parse_encryption_key
    decrypt_secret encrypt_secret split_dot verify_totp claim_step UserMfas.try_consume_totp_step
    trim trim_start letters from_letters codes
totp_again = refl

totp_never_replayed_example :
    (d : UserMfa) × (e : UserMfa) × (first : ℕ) × (second : ℕ) × (UserMfas.find_by_user_id host "u1"
        factor_db
      ≡ some d)
    × (UserMfas.find_by_user_id host "u1" (verify host 6 "u1" "123 456" factor_db).1 ≡ some e)
    × IsClaimed host 6 "123 456" d
        (UserMfas.find_by_user_id host "u1" (verify host 6 "u1" "123 456" factor_db).1)
        first
    × IsClaimed host 7 "123456" e
        (UserMfas.find_by_user_id host "u1"
          (verify host 7 "u1" "123456" (verify host 6 "u1" "123 456" factor_db).1).1)
        second
    × (first < second)
totp_never_replayed_example =
    totp_never_replayed host 6 7 "u1" "123 456" "123456" factor_db totp_ok totp_again

backup_ok : (verify host 6 "u1" "0000-0000-0000" factor_db).0 ≡ ok (some Method.backup_code)
unfolding verify verify_with UserMfas.find_by_user_id looks_like_backup_code upper_alphanumeric
    verify_backup_code hash_backup_code hash_with encryption_key resolve_key parse_encryption_key
    UserMfas.mark_backup_code_used letters from_letters codes trim trim_start
backup_ok = refl

backup_code_spent_example :
    (build_status 6 (UserMfas.find_by_user_id host "u1" factor_db)).backup_codes_remaining
    ≡ suc
        (build_status 6 (
          UserMfas.find_by_user_id host "u1"
            (verify host 6 "u1" "0000-0000-0000" factor_db).1)).backup_codes_remaining
backup_code_spent_example = backup_code_spent host 6 "u1" "0000-0000-0000" factor_db backup_ok

-- a refresh token of Alice
abbrev token_db : Db host
token_db = (create_token host (refresh_record host 0 (draw "r0") alice none) plain_db).1

refresh_ok :
    (refresh host 1 (draw "r1") "r0.s" token_db).0 ≡ ok (session_of host 1 (draw "r1") alice)
unfolding refresh parse_token trim trim_start split_dot find_by_jti create_token refresh_record
    rotate rotate_for delete_by_jti find_by_id issue_token_pair assert_may_hold_session
    assert_tenant_active_for_auth find_active_tenant tenant_has_pending_email_verification
    refresh_expires_at read_positive_integer parse_int
refresh_ok = refl

r0_parses : parse_token "r0.s" ≡ some (record { jti = "r0"; secret = "s" })
unfolding parse_token trim trim_start split_dot
r0_parses = refl

refresh_rotates_example :
    IsRotated host 1 (draw "r1") "r0.s" token_db (session_of host 1 (draw "r1") alice)
refresh_rotates_example =
    refresh_rotates host 1 (draw "r1") "r0.s" token_db (session_of host 1 (draw "r1") alice)
      refresh_ok

rotated_token_refused_example :
    (refresh host 2 (draw "r2") "r0.s" (refresh host 1 (draw "r1") "r0.s" token_db).1).0
    ≡ err invalid_refresh
rotated_token_refused_example =
    rotated_token_refused host 1 2 (draw "r1") (draw "r2") "r0.s"
      (record { jti = "r0"; secret = "s" }) token_db (session_of host 1 (draw "r1") alice) r0_parses
      refl refresh_ok
