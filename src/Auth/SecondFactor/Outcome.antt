-- ===== src/Auth/SecondFactor/Outcome.antt =====
-- What a session of `verifyMfaChallenge` stands on.
use saa_s_app_be.Prelude.{ℕ, String, ◌≡◌, sym, ◌∙◌, true, not, none, some, arith, inl, inr}
use saa_s_app_be.Action.{Result-cases, ok}
use saa_s_app_be.Host.{Host}
use saa_s_app_be.Auth.Model.{Scope, tenant, platform, Db, User, MfaChallenge, Method, Draw}
use saa_s_app_be.Auth.Repositories.Users.{find_by_id}
use saa_s_app_be.Auth.Challenge.{load, consume}
use saa_s_app_be.Auth.Challenge.Laws.{
  IsLive, load-IsLive, load_state, clear_for_user_answer, register_failed_attempt-throws,
}
use saa_s_app_be.Auth.Session.{AuthSession, issue_token_pair, session_of}
use saa_s_app_be.Auth.Session.Laws.{issue_token_pair-eq-ok}
use saa_s_app_be.Auth.Login.{is_tenant_scope, assert_login_scope_matches_user}
use saa_s_app_be.Auth.SecondFactor.{filled, finish, complete, verify_for, verify_mfa_challenge}
use saa_s_app_be.Auth.SecondFactor.Laws.{CompleteCase, complete_cases}

module _ (host : Host) where
  -- The loaded challenge and the user behind a session, and what both have passed.
  pub record IsRedeemed (now : ℕ) (draw : Draw) (token code : String) (s : Db host)
      (r : AuthSession) : Type 0 where
    pub challenge : MfaChallenge
    pub user_id : String
    pub user : User
    pub method : Method
    pub live : IsLive host now token s challenge
    pub names_user : filled challenge.user_id ≡ some user_id
    pub found : find_by_id host user_id s ≡ some user
    pub active : user.is_active ≡ true
    pub scope_fits : is_tenant_scope challenge.auth_scope ≡ not user.is_platform_admin
    pub factor : (verify_for host now challenge user_id code s).0 ≡ ok (some method)
    pub session_is : r ≡ session_of host now draw user

  scope_decides :
      (scope : Scope) (user : User) (s : Db host)
      → (assert_login_scope_matches_user {S = Db host} scope user s).0 ≡ ok tt
      → is_tenant_scope scope ≡ not user.is_platform_admin
  unfolding assert_login_scope_matches_user
  scope_decides tenant user s h = ground arith
  scope_decides platform user s h = ground arith

  redeem-session_of :
      (now : ℕ) (draw : Draw) (c : MfaChallenge) (user : User) (user_id : String) (method : Method)
      (s : Db host) (r : AuthSession)
      → (finish host now draw c user user_id (some method) s).0 ≡ ok r
      → r ≡ session_of host now draw user
  unfolding finish
  redeem-session_of now draw c user user_id method s r h =
      elim (Result-cases (consume host now c s).0) [
        | inr (e, lost) ↦ absurd (ground arith)
        | inl (_, won) ↦
            let t = (consume host now c s).1 in
            elim (Result-cases (issue_token_pair host now draw user none t).0) [
              | inr (e, refused) ↦ absurd (ground arith)
              | inl (x, issued) ↦
                  let same : x ≡ r = ground (
                    arith,
                    clear_for_user_answer host user_id
                        (issue_token_pair host now draw user none t).1,
                  ) in
                  sym same ∙ (issue_token_pair-eq-ok host now draw user none t x issued).0
            ]
      ]

  complete-IsRedeemed :
      (now : ℕ) (draw : Draw) (token code : String) (s : Db host) (r : AuthSession)
      (c : MfaChallenge)
      → IsLive host now token s c
      → (complete host now draw c code s).0 ≡ ok r
      → IsRedeemed now draw token code s r
  unfolding finish
  complete-IsRedeemed now draw token code s r c live h =
      elim (complete_cases host now draw c code s) [
        | CompleteCase.stopped e _ at ↦ absurd (ground arith)
        | CompleteCase.failed user_id e _ at ↦ absurd (ground arith)
        | CompleteCase.reached user_id user none checked at ↦
            absurd (register_failed_attempt-throws host c _ r (rw at at h))
        | CompleteCase.reached user_id user (some method) checked at ↦ record {
          challenge = c;
          user_id = user_id;
          user = user;
          method = method;
          live = live;
          names_user = checked.names_user;
          found = checked.found;
          active = checked.active;
          scope_fits = scope_decides c.auth_scope user s checked.scope_fits;
          factor = checked.checked;
          session_is = redeem-session_of now draw c user user_id method _ r (rw at at h);
        }
      ]

  -- When `verifyMfaChallenge` returns a session, the token is that of a stored challenge which is
  -- neither spent nor expired, has attempts left and whose secret the token carries; the challenge
  -- names a stored, active user who is a platform operator exactly if it was issued at the operators'
  -- portal; the second factor that the challenge asks for accepted the code; and the session is that
  -- user's.
  pub session_stands :
      (now : ℕ) (draw : Draw) (token code : String) (s : Db host) (r : AuthSession)
      → (verify_mfa_challenge host now draw token code s).0 ≡ ok r
      → IsRedeemed now draw token code s r
  unfolding verify_mfa_challenge
  session_stands now draw token code s r h = elim (Result-cases (load host now token s).0) [
    | inr (e, refused) ↦ absurd (ground arith)
    | inl (c, loads) ↦
        complete-IsRedeemed now draw token code s r c (load-IsLive host now token s c loads)
          (rw (loads, load_state host now token s c loads) at h)
  ]
