-- ===== src/Auth/Session/Laws.antt =====
-- The token pair: when it is issued, what it says, and what it changes.
use saa_s_app_be.Prelude.{
  ℕ, String, ◌≡◌, true, false, Option, none, some, arith, eq_refl, is_some, inl, inr, ◌⊎◌,
}
use saa_s_app_be.Action.{ok, Result, Result-cases}
use saa_s_app_be.Host.{Host}
use saa_s_app_be.Auth.Model.{Db, User, Draw}
use saa_s_app_be.Auth.Repositories.RefreshTokens.{create_token, find_by_jti}
use saa_s_app_be.Auth.Repositories.Users.{find_active_tenant}
use saa_s_app_be.Auth.Session.{
  AuthSession, assert_may_hold_session, assert_tenant_active_for_auth, issue_token_pair, session_of,
  refresh_record, tenant_has_pending_email_verification,
}

module _ (host : Host) where
  -- Issuing a token pair leaves the pending challenges alone.
  pub challenges-issue_token_pair :
      (now : ℕ) (draw : Draw) (user : User) (family : Option String) (s : Db host)
      → (issue_token_pair host now draw user family s).1.challenges ≡ s.challenges
  unfolding issue_token_pair assert_may_hold_session assert_tenant_active_for_auth create_token
  challenges-issue_token_pair now draw user family s = ground arith

  -- Of a user who is no platform operator, a token pair asks that the organization is active and
  -- that no verification of the email address is pending.
  abbrev pub MayHoldSession : User → Db host → Type 0
  MayHoldSession user s =
      (user.is_platform_admin ≡ true)
      ⊎ (is_some (find_active_tenant host user.tenant_id s) ≡ true)
        × (tenant_has_pending_email_verification user ≡ false)

  assert_may_hold_session-eq-ok :
      (user : User) (s : Db host)
      → (assert_may_hold_session host user s).0 ≡ ok tt
      → MayHoldSession user s
  unfolding assert_may_hold_session assert_tenant_active_for_auth
  assert_may_hold_session-eq-ok user s h = ground arith

  assert_may_hold_session_step :
      (user : User) (s : Db host) {r : Result Unit}
      → (assert_may_hold_session host user s).0 ≡ r
      → assert_may_hold_session host user s ≡ (r, s)
  unfolding assert_may_hold_session assert_tenant_active_for_auth
  assert_may_hold_session_step user s h = ground arith

  -- A token pair that is issued is the one of the user and the drawn values, the user may hold it,
  -- and the record of the refresh token is stored under an identifier that was free.
  pub issue_token_pair-eq-ok :
      (now : ℕ) (draw : Draw) (user : User) (family : Option String) (s : Db host) (r : AuthSession)
      → (issue_token_pair host now draw user family s).0 ≡ ok r
      → (r ≡ session_of host now draw user)
        × MayHoldSession user s
        × (find_by_jti host draw.jti s ≡ none)
        × (find_by_jti host draw.jti (issue_token_pair host now draw user family s).1
            ≡ some (refresh_record host now draw user family))
  unfolding issue_token_pair create_token find_by_jti refresh_record
  issue_token_pair-eq-ok now draw user family s r h =
      elim (Result-cases (assert_may_hold_session host user s).0) [
        | inr (e, refused) ↦ absurd (ground (arith, assert_may_hold_session_step user s refused))
        | inl (_, may) ↦
            let step = assert_may_hold_session_step user s may in
            let t = refresh_record host now draw user family in
            let done = host.mongo.insert_done draw.jti t s.refresh_tokens in
            (
              ground (arith, step, done),
              assert_may_hold_session-eq-ok user s may,
              ground (arith, step, done),
              ground (
                arith,
                step,
                done,
                host.mongo.find-insert draw.jti draw.jti t s.refresh_tokens,
                eq_refl draw.jti,
              ),
            )
      ]
