-- ===== src/Auth/CodeLogin.antt =====
-- auth/auth.service.ts and auth/mfa/services/email-code.service.ts: sign-in by an emailed code.
pub mod Laws
use Prim.Native.Char.{Char}
use Prim.Native.String
use saa_s_app_be.Prelude.{
  ℕ, ◌/◌, ◌%◌, ◌^◌, String, Bool, true, false, not, Option, none, some, List, [], ◌∷◌, ◌++◌, ◌||◌,
  eqb, is_empty, or_default, if◌then◌else◌,
}
use saa_s_app_be.Text.{trim}
use saa_s_app_be.Action.{Action, pure, gets, modify, ◌>>=◌, ◌>>◌}
use saa_s_app_be.Host.{Host}
use saa_s_app_be.Auth.Config.{read_positive_integer}
use saa_s_app_be.Auth.Model.{Purpose, Method, User, Mail, login_code, Draw, Db}
use saa_s_app_be.Auth.Repositories.UserMfas
use saa_s_app_be.Auth.Repositories.Users
use saa_s_app_be.Auth.Challenge
use saa_s_app_be.Auth.Challenge.{IssueChallengeInput}
use saa_s_app_be.Auth.Session.{tenant_has_pending_email_verification}
use saa_s_app_be.Auth.Login.{
  RequestLoginCodeDto, MfaRequired, is_tenant_scope, role_is, allows_email_code,
}

abbrev digit_char : ℕ → Char
digit_char n =
    if eqb n 0
    then "0"
    else if eqb n 1
    then "1"
    else if eqb n 2
    then "2"
    else if eqb n 3
    then "3"
    else if eqb n 4
    then "4"
    else if eqb n 5
    then "5"
    else if eqb n 6
    then "6"
    else if eqb n 7
    then "7"
    else if eqb n 8
    then "8"
    else "9"

-- the last `k` digits of `n`, in front of `rest`
last_digits : (k n : ℕ) → String → String
last_digits ℕ.zero n rest = rest
last_digits (ℕ.suc k) n rest = last_digits k (n / 10) (String.◌∷◌ (digit_char (n % 10)) rest)

-- `String(randomInt(0, 10 ** 6)).padStart(6, '0')`, on the number that was drawn
unfoldable pub six_digits : ℕ → String
unfolding last_digits
six_digits n = last_digits 6 n String.[]

module _ (host : Host) where
  open host use {config, bcrypt_hash}

  -- `isEligibleForEmailCodeLogin`
  unfoldable pub is_eligible_for_email_code_login : RequestLoginCodeDto → User → Db host → Bool
  is_eligible_for_email_code_login dto user s =
      if not user.is_active
      then false
      else if (if is_tenant_scope dto.auth_scope
          then user.is_platform_admin
            || is_empty (trim user.tenant_id)
            || not (role_is dto.tenant_role user.role)
            || tenant_has_pending_email_verification user
          else not user.is_platform_admin)
      then false
      else allows_email_code (UserMfas.find_by_user_id host user.id s)

  -- `getEmailCodeTtlMinutes`
  unfoldable pub get_email_code_ttl_minutes : ℕ
  get_email_code_ttl_minutes = read_positive_integer (config "MFA_EMAIL_CODE_TTL_MINUTES") 10

  unfoldable pub eligible_user : RequestLoginCodeDto → Option User → Db host → Option User
  eligible_user dto none s = none
  eligible_user dto (some user) s =
      if is_eligible_for_email_code_login dto user s then some user else none

  -- the challenge that `requestLoginCode` asks for; an ineligible request has a decoy
  unfoldable pub code_challenge : Draw → RequestLoginCodeDto → Option User → IssueChallengeInput
  code_challenge draw dto none = record {
    user_id = none;
    tenant_id = "";
    purpose = Purpose.email_code;
    auth_scope = dto.auth_scope;
    tenant_role = dto.tenant_role;
    code_hash = none;
    ttl_minutes = some get_email_code_ttl_minutes;
  }
  code_challenge draw dto (some user) = record {
    user_id = some user.id;
    tenant_id = user.tenant_id;
    purpose = Purpose.email_code;
    auth_scope = dto.auth_scope;
    tenant_role = dto.tenant_role;
    code_hash = some (bcrypt_hash draw.salt (six_digits draw.login_code));
    ttl_minutes = some get_email_code_ttl_minutes;
  }

  -- the mail of the code; a failed delivery is caught, so it changes nothing
  unfoldable pub send_code : Draw → (email : String) → Option User → Action (Db host) Unit
  send_code draw email none = pure tt
  send_code draw email (some user) = modify (λ s. record s {
    outbox =
        s.outbox ++ login_code email (six_digits draw.login_code) get_email_code_ttl_minutes ∷ [];
  })

  -- `requestLoginCode`
  unfoldable pub request_login_code :
      (now : ℕ) → Draw → RequestLoginCodeDto → Action (Db host) MfaRequired
  unfolding send_code code_challenge
  request_login_code now draw dto = do
    let email = Users.normal_email host dto.email
    user ← gets (λ s. eligible_user dto (Users.find_by_email host email s) s)
    challenge ← Challenge.issue host now draw (code_challenge draw dto user)
    send_code draw email user
    pure (record {
      challenge_token = challenge.challenge_token;
      methods = Method.email_code ∷ [];
      expires_at = challenge.expires_at;
    })
