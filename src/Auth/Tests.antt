-- ===== src/Auth/Tests.antt =====
-- Runs of src/auth on a small database.
use saa_s_app_be.Prelude.{◌≤◌, ◌≡◌, refl, none, some, [], ◌∷◌, arith}
use saa_s_app_be.Text.Token.{parse_token, format_token}
use saa_s_app_be.Action.{ok, err}
use saa_s_app_be.Host.{admin}
use saa_s_app_be.Auth.Model.{tenant, Purpose, Db}
use saa_s_app_be.Auth.Sample.{host, alice, plain_db, draw}
use saa_s_app_be.Auth.Config.{read_positive_integer, parse_int}
use saa_s_app_be.Auth.Repositories.MfaChallenges.{create, find_by_jti_with_code, try_consume}
use saa_s_app_be.Auth.Challenge.{
  IssueChallengeInput, issue, issued, invalid_challenge, get_max_attempts, get_ttl_minutes, load,
  check_challenge, consume, clear_for_user,
}
use saa_s_app_be.Auth.Challenge.Laws.{stored}
use saa_s_app_be.Auth.Challenge.Issued.{IsTokenParts, kept, ticket, issue_answer, load-issue}
use saa_s_app_be.Text.{is_space, trim, trim_start, split_dot, only_digits}
use saa_s_app_be.Auth.Repositories.MfaChallenges.{delete_by_user_id}
use saa_s_app_be.Auth.Repositories.RefreshTokens.{create_token}
use saa_s_app_be.Auth.Repositories.Users.{find_by_id, find_active_tenant}
use saa_s_app_be.Auth.Factor.{verify_email_code}
use saa_s_app_be.Auth.Session.{
  AuthSession, session_of, issue_token_pair, assert_may_hold_session, assert_tenant_active_for_auth,
  tenant_has_pending_email_verification, refresh_record,
}
use saa_s_app_be.Auth.Login.{assert_login_scope_matches_user}
use saa_s_app_be.Auth.SecondFactor.{verify_mfa_challenge, complete, verify_for, finish}
use saa_s_app_be.Auth.SecondFactor.Budget.{IsSound, remaining}
use saa_s_app_be.Auth.SecondFactor.Guesses.{Guess, guess, run, count_wrong, count_wrong_bounded}
use saa_s_app_be.Auth.SecondFactor.Issue.{issue-IsSound, issued_budget}
use saa_s_app_be.Auth.SecondFactor.Once.{redeemed_once}
use saa_s_app_be.Auth.SecondFactor.Outcome.{IsRedeemed, session_stands}

-- a challenge for a code by email, whose code is 123456
abbrev by_email : IssueChallengeInput
by_email = record {
  user_id = some "u1";
  tenant_id = "t1";
  purpose = Purpose.email_code;
  auth_scope = tenant;
  tenant_role = some admin;
  code_hash = some "#123456";
  ttl_minutes = none;
}

pub plain_db-IsSound : IsSound host plain_db
unfolding find_by_jti_with_code
plain_db-IsSound = record { keyed = λ j c h. cc; has_attempts = λ j c h. cc }

pub j1_free : stored host "j1" plain_db ≡ none
unfolding find_by_jti_with_code
j1_free = refl

abbrev wrong : Guess
wrong = record { now = 1; draw = draw "r1"; challenge_token = "j1.s"; code = "000000" }

abbrev right : Guess
right = record { now = 2; draw = draw "r2"; challenge_token = "j1.s"; code = "123456" }

issued_ok : (issue host 0 (draw "j1") by_email plain_db).0 ≡ ok (ticket host 0 (draw "j1") by_email)
issued_ok = issue_answer host 0 (draw "j1") by_email plain_db j1_free

issued_budget_example :
    count_wrong host "j1"
      (wrong ∷ right ∷ wrong ∷ [])
      (issue host 0 (draw "j1") by_email plain_db).1
    ≤ get_max_attempts host
issued_budget_example =
    issued_budget host 0 (draw "j1") by_email plain_db (ticket host 0 (draw "j1") by_email)
      (wrong ∷ right ∷ wrong ∷ []) plain_db-IsSound issued_ok

-- the database with the challenge
abbrev asked_db : Db host
asked_db = (issue host 0 (draw "j1") by_email plain_db).1

asked_db-IsSound : IsSound host asked_db
asked_db-IsSound =
    issue-IsSound host 0 (draw "j1") by_email plain_db (ticket host 0 (draw "j1") by_email)
      plain_db-IsSound issued_ok

abbrev session_of_alice : AuthSession
session_of_alice = session_of host 2 (draw "r2") alice

right_ok : (guess host right asked_db).0 ≡ ok session_of_alice
unfolding guess verify_mfa_challenge load check_challenge parse_token trim split_dot issue issued
    create find_by_jti_with_code complete verify_for verify_email_code only_digits finish consume
    try_consume issue_token_pair assert_may_hold_session assert_tenant_active_for_auth
    tenant_has_pending_email_verification find_active_tenant find_by_id create_token refresh_record
    clear_for_user delete_by_user_id assert_login_scope_matches_user get_max_attempts
    get_ttl_minutes read_positive_integer parse_int session_of format_token
right_ok = refl

redeemed_once_example :
    (guess host right (run host (wrong ∷ []) (guess host right asked_db).1)).0
    ≡ err invalid_challenge
redeemed_once_example =
    redeemed_once host right right (wrong ∷ []) asked_db session_of_alice asked_db-IsSound right_ok
      refl

session_stands_example : IsRedeemed host 2 (draw "r2") "j1.s" "123456" asked_db session_of_alice
unfolding guess
session_stands_example =
    session_stands host 2 (draw "r2") "j1.s" "123456" asked_db session_of_alice right_ok

count_wrong_bounded_example :
    count_wrong host "j1" (wrong ∷ wrong ∷ []) asked_db ≤ remaining (stored host "j1" asked_db)
count_wrong_bounded_example =
    count_wrong_bounded host "j1" (wrong ∷ wrong ∷ []) asked_db asked_db-IsSound

pub j1_s-IsTokenParts : IsTokenParts "j1" "s"
unfolding is_space
j1_s-IsTokenParts = record {
  jti_text = (refl, refl, (refl, refl, tt));
  secret_text = (refl, refl, tt);
  jti_filled = refl;
  secret_filled = refl;
}

load-issue_example :
    (load host 7 "j1.s" (issue host 0 (draw "j1") by_email plain_db).1).0
    ≡ ok (kept host 0 (draw "j1") by_email)
unfolding ticket format_token get_ttl_minutes read_positive_integer parse_int trim_start
load-issue_example =
    load-issue host 0 (draw "j1") by_email 7 plain_db (ticket host 0 (draw "j1") by_email)
      j1_s-IsTokenParts issued_ok (omega arith)
