-- ===== src/Auth/Login/Laws.antt =====
-- What `login` lets pass.
use saa_s_app_be.Prelude.{
  ℕ, ◌≡◌, refl, Bool, true, false, not, ◌&&◌, ◌||◌, none, some, arith, Option-cases, inl, inr, [],
  ◌∷◌, is_filled, or_default, is_empty,
}
use saa_s_app_be.Text.{trim}
use saa_s_app_be.Action.{Result-cases, ok}
use saa_s_app_be.Host.{Host}
use saa_s_app_be.Auth.Model.{Db, User, Draw, Method}
use saa_s_app_be.Auth.Repositories.UserMfas
use saa_s_app_be.Auth.Repositories.Users
use saa_s_app_be.Auth.Challenge.{IssuedChallenge, issue}
use saa_s_app_be.Auth.Session.{issue_token_pair, session_of, tenant_has_pending_email_verification}
use saa_s_app_be.Auth.Session.Laws.{MayHoldSession, issue_token_pair-eq-ok}
use saa_s_app_be.Auth.Login.{
  LoginDto, challenge_input, LoginResult, session, mfa_required, role_is, is_tenant_scope,
  is_enabled, assert_login_scope_matches_user, assert_tenant_login_portal_matches_role,
  check_credentials, second_step, login,
}

-- What the first factor of a user and the portal's gates ask.
pub record HasPassed (host : Host) (dto : LoginDto) (user : User) : Type 0 where
  pub has_password : is_filled user.password_hash ≡ true
  pub password_fits : host.bcrypt_compare dto.password (or_default user.password_hash "") ≡ true
  pub active : user.is_active ≡ true
  pub scope_fits : is_tenant_scope dto.auth_scope ≡ not user.is_platform_admin
  pub has_tenant : (is_tenant_scope dto.auth_scope && is_empty (trim user.tenant_id)) ≡ false
  pub settled :
      (is_tenant_scope dto.auth_scope && tenant_has_pending_email_verification user) ≡ false
  pub portal_fits :
      (not (is_tenant_scope dto.auth_scope) || role_is dto.tenant_role user.role) ≡ true

module _ (host : Host) where
  check_credentials_state :
      (dto : LoginDto) (user : User) (s : Db host) → (check_credentials host dto user s).1 ≡ s
  unfolding check_credentials assert_login_scope_matches_user
      assert_tenant_login_portal_matches_role
  check_credentials_state dto user s = ground arith

  check_credentials-HasPassed :
      (dto : LoginDto) (user : User) (s : Db host)
      → (check_credentials host dto user s).0 ≡ ok tt
      → HasPassed host dto user
  unfolding check_credentials assert_login_scope_matches_user
      assert_tenant_login_portal_matches_role
  check_credentials-HasPassed dto user s h = record {
    has_password = ground arith;
    password_fits = ground arith;
    active = ground arith;
    scope_fits = ground arith;
    has_tenant = ground arith;
    settled = ground arith;
    portal_fits = ground arith;
  }

  -- the answer that asks for a second factor
  abbrev pub asked : IssuedChallenge → LoginResult
  asked issued = mfa_required (record {
    challenge_token = issued.challenge_token;
    methods = Method.totp ∷ Method.backup_code ∷ [];
    expires_at = issued.expires_at;
  })

  -- What the result of `login` says of the user behind it.
  pub data Outcome (now : ℕ) (draw : Draw) (dto : LoginDto) (user : User) (s : Db host)
      : LoginResult → Type 0 where
    signed_in :
        is_enabled (UserMfas.find_by_user_id host user.id s) ≡ false
        → MayHoldSession host user s
        → Outcome now draw dto user s (session (session_of host now draw user))
    challenged :
        is_enabled (UserMfas.find_by_user_id host user.id s) ≡ true
        → (issued : IssuedChallenge)
        → (issue host now draw (challenge_input dto user) s).0 ≡ ok issued
        → Outcome now draw dto user s (asked issued)

  second_step-Outcome :
      (now : ℕ) (draw : Draw) (dto : LoginDto) (user : User) (s : Db host) (r : LoginResult)
      (b : Bool)
      → is_enabled (UserMfas.find_by_user_id host user.id s) ≡ b
      → (second_step host now draw dto user b s).0 ≡ ok r
      → Outcome now draw dto user s r
  unfolding second_step
  second_step-Outcome now draw dto user s r false off h =
      elim (Result-cases (issue_token_pair host now draw user none s).0) [
        | inr (e, refused) ↦ absurd (ground arith)
        | inl (x, issued) ↦
            let (same, may, _, _) = issue_token_pair-eq-ok host now draw user none s x issued in
            let is : session x ≡ r = ground arith in rw (← is, same) (Outcome.signed_in off may)
      ]
  second_step-Outcome now draw dto user s r true on h =
      elim (Result-cases (issue host now draw (challenge_input dto user) s).0) [
        | inr (e, refused) ↦ absurd (ground arith)
        | inl (x, issued) ↦
            let is : asked x ≡ r = ground arith in rw (← is) (Outcome.challenged on x issued)
      ]

  -- When `login` succeeds, the email is that of a stored user whose password, state and role pass
  -- every gate. It returns a session, of that user, only if no authenticator is enabled, and the user
  -- may hold a session; if one is enabled, it returns a challenge that names the user and no session.
  pub login_gates :
      (now : ℕ) (draw : Draw) (dto : LoginDto) (s : Db host) (r : LoginResult)
      → (login host now draw dto s).0 ≡ ok r
      → (user : User) × (Users.find_by_email host dto.email s ≡ some user)
        × HasPassed host dto user
        × Outcome now draw dto user s r
  unfolding login
  login_gates now draw dto s r h = elim (Option-cases (Users.find_by_email host dto.email s)) [
    | inl missing ↦ absurd (ground arith)
    | inr (user, found) ↦ elim (Result-cases (check_credentials host dto user s).0) [
      | inr (e, refused) ↦ absurd (ground arith)
      | inl (_, passed) ↦ (
        user,
        found,
        check_credentials-HasPassed dto user s passed,
        second_step-Outcome now draw dto user s r _ refl
            (rw (found, passed, check_credentials_state dto user s) at h),
      )
    ]
  ]
