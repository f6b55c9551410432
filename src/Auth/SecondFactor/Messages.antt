-- ===== src/Auth/SecondFactor/Messages.antt =====
-- The answers of the second step that are not those of a wrong code.
use saa_s_app_be.Prelude.{
  ℕ, ◌<◌, String, ◌≡◌, refl, Bool, false, Option, none, some, arith, Bool-cases, inl, inr, leb,
  is_some,
}
use saa_s_app_be.Text.Token.{OpaqueToken}
use saa_s_app_be.Action.{Action, ◌>>=◌, Exception, Result, Result-cases, ok, err}
use saa_s_app_be.Host.{Host}
use saa_s_app_be.Auth.Model.{RefreshToken, Db, User, MfaChallenge, Method, Draw}
use saa_s_app_be.Auth.Repositories.MfaChallenges.{try_consume, is_unspent, spent_at, delete_by_jti}
use saa_s_app_be.Auth.Repositories.RefreshTokens.{create_token}
use saa_s_app_be.Auth.Repositories.Users.{find_active_tenant}
use saa_s_app_be.Auth.Challenge.{check_challenge, consume}
use saa_s_app_be.Auth.Challenge.Laws.{clear_for_user_answer}
use saa_s_app_be.Auth.Session.{
  refresh_record, tenant_has_pending_email_verification, issue_token_pair, assert_may_hold_session,
  assert_tenant_active_for_auth,
}
use saa_s_app_be.Auth.SecondFactor.{is_wrong_code, finish}
use saa_s_app_be.Auth.SecondFactor.Laws.{refusal_message}

abbrev pub is_wrong_answer : {A : Type 0} → Result A → Bool
is_wrong_answer (ok r) = false
is_wrong_answer (err e) = is_wrong_code e

module _ (host : Host) where
  pub check_challenge-err :
      (now : ℕ) (p : OpaqueToken) (c : MfaChallenge) (s : Db host) (e : Exception)
      → c.attempt_count < c.max_attempts
      → (check_challenge host now p c s).0 ≡ err e
      → is_wrong_code e ≡ false
  unfolding check_challenge delete_by_jti
  check_challenge-err now p c s e room h = elim (Bool-cases (is_some c.consumed_at)) [
    | inl spent ↦ refusal_message host MfaChallenge _ e (rw spent at h) refl
    | inr unspent ↦ elim (Bool-cases (leb c.expires_at now)) [
      | inl late ↦ refusal_message host MfaChallenge _ e (rw (unspent, late) at h) refl
      | inr early ↦
          let left : leb c.max_attempts c.attempt_count ≡ false = ground arith in
          elim (Bool-cases (host.bcrypt_compare p.secret c.secret_hash)) [
            | inl same ↦ absurd (ground arith)
            | inr other ↦
                refusal_message host MfaChallenge _ e (rw (unspent, early, left, other) at h) refl
          ]
    ]
  ]

  create_token_message :
      (t : RefreshToken) (s : Db host) → is_wrong_answer (create_token host t s).0 ≡ false
  unfolding create_token
  create_token_message t s = elim (Bool-cases (host.mongo.insert t.jti t s.refresh_tokens).1) [
    | inl done ↦ rw done refl
    | inr taken ↦ rw taken refl
  ]

  assert_may_hold_session_message :
      (user : User) (s : Db host) → is_wrong_answer (assert_may_hold_session host user s).0 ≡ false
  unfolding assert_may_hold_session assert_tenant_active_for_auth
      tenant_has_pending_email_verification
  assert_may_hold_session_message user s = elim (Bool-cases user.is_platform_admin) [
    | inl operator ↦ rw operator refl
    | inr other ↦ elim (Bool-cases (is_some (find_active_tenant host user.tenant_id s))) [
      | inr closed ↦ rw (other, closed) refl
      | inl open_tenant ↦ elim (Bool-cases (tenant_has_pending_email_verification user)) [
        | inl pending ↦ rw (other, open_tenant, pending) refl
        | inr settled ↦ rw (other, open_tenant, settled) refl
      ]
    ]
  ]

  -- An exception of the first of two steps, or one of the second.
  then_message :
      {A B : Type 0} (m : Action (Db host) A) (f : A → Action (Db host) B) (s : Db host)
      → is_wrong_answer (m s).0 ≡ false
      → ((a : A) → (m s).0 ≡ ok a → is_wrong_answer (f a (m s).1).0 ≡ false)
      → is_wrong_answer ((m >>= f) s).0 ≡ false
  then_message m f s h k = elim (Result-cases (m s).0) [
    | inl (a, went) ↦ rw went (k a went)
    | inr (e, threw) ↦ rw threw (rw threw at h)
  ]

  issue_token_pair_message :
      (now : ℕ) (draw : Draw) (user : User) (family : Option String) (s : Db host)
      → is_wrong_answer (issue_token_pair host now draw user family s).0 ≡ false
  unfolding issue_token_pair
  issue_token_pair_message now draw user family s =
      then_message (assert_may_hold_session host user) _ s (assert_may_hold_session_message user s)
        (λ _ _.
          then_message (create_token host (refresh_record host now draw user family)) _ _
            (create_token_message (refresh_record host now draw user family) _) (λ _ _. refl))

  consume_message :
      (now : ℕ) (c : MfaChallenge) (s : Db host) → is_wrong_answer (consume host now c s).0 ≡ false
  unfolding consume try_consume
  consume_message now c s =
      elim (Bool-cases (host.mongo.update_one c.jti is_unspent (spent_at now) s.challenges).1) [
        | inl won ↦ rw won refl
        | inr lost ↦ rw lost refl
      ]

  pub redeem_message :
      (now : ℕ) (draw : Draw) (c : MfaChallenge) (user : User) (user_id : String) (method : Method)
      (s : Db host)
      → is_wrong_answer (finish host now draw c user user_id (some method) s).0 ≡ false
  unfolding finish
  redeem_message now draw c user user_id method s =
      then_message (consume host now c) _ s (consume_message now c s) (λ _ _.
        then_message (issue_token_pair host now draw user none) _ _
          (issue_token_pair_message now draw user none _)
          (λ r _. rw (clear_for_user_answer host user_id _) refl))
