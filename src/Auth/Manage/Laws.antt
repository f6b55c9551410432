-- ===== src/Auth/Manage/Laws.antt =====
-- What turning the second factor off leaves behind.
use saa_s_app_be.Prelude.{
  ℕ, String, ◌≡◌, refl, ap, sym, ◌∙◌, Bool, true, false, Option, none, some, arith, Bool-cases,
  Option-cases, inl, inr, eq_refl, ◌==◌, is_filled, or_default,
}
use saa_s_app_be.Action.{Result-cases, ok}
use saa_s_app_be.Host.{Host}
use saa_s_app_be.Mongo.{updated, spared}
use saa_s_app_be.Auth.Model.{Db, User, UserMfa, MfaChallenge, RefreshToken, RequestUser, Method}
use saa_s_app_be.Auth.Repositories.MfaChallenges.{has_user, find_by_jti_with_code}
use saa_s_app_be.Auth.Repositories.RefreshTokens
use saa_s_app_be.Auth.Repositories.RefreshTokens.{of_user, find_by_jti}
use saa_s_app_be.Auth.Repositories.UserMfas
use saa_s_app_be.Auth.Repositories.UserMfas.{find_by_user_id, any_user_mfa, stripped, put_user_mfa}
use saa_s_app_be.Auth.Repositories.Users
use saa_s_app_be.Auth.Challenge.{clear_for_user}
use saa_s_app_be.Auth.Challenge.Laws.{stored}
use saa_s_app_be.Auth.Factor
use saa_s_app_be.Auth.Factor.Accepted.{verify_accepts}
use saa_s_app_be.Auth.Login.{is_enabled}
use saa_s_app_be.Auth.SecondFactor.{reset_mfa_for_user}
use saa_s_app_be.Auth.Manage.{
  MfaStatus, disable_totp, assert_password_matches, notify_security_change,
}

spared-eq-some :
    {D : Type 0} (p : D → Bool) (o : Option D) (d : D) → spared p o ≡ some d → p d ≡ false
spared-eq-some p none d h = cc
spared-eq-some p (some x) d h = ground arith

updated-stripped : (o : Option UserMfa) → is_enabled (updated any_user_mfa stripped o) ≡ false
updated-stripped none = refl
updated-stripped (some d) = refl

module _ (host : Host) where
  -- The user has no second factor, no pending challenge and no refresh token.
  pub record IsRevoked (user_id : String) (t : Db host) : Type 0 where
    pub factor_off : is_enabled (find_by_user_id host user_id t) ≡ false
    pub no_challenge :
        (j : String) (c : MfaChallenge) → stored host j t ≡ some c → has_user user_id c ≡ false
    pub no_token :
        (j : String) (r : RefreshToken)
        → find_by_jti host j t ≡ some r
        → (r.user_id == user_id) ≡ false

  IsRevoked-writes :
      (user_id : String) (s t : Db host)
      → host.is_object_id user_id ≡ true
      → t.user_mfa ≡ (host.mongo.update_one user_id any_user_mfa stripped s.user_mfa).0
      → t.challenges ≡ (host.mongo.delete_many (has_user user_id) s.challenges).0
      → t.refresh_tokens ≡ (host.mongo.delete_many (of_user user_id none) s.refresh_tokens).0
      → IsRevoked user_id t
  unfolding find_by_user_id find_by_jti_with_code find_by_jti
  IsRevoked-writes user_id s t valid factor challenges tokens = record {
    factor_off =
        rw
          (
            valid,
            factor,
            host.mongo.find-update_one user_id user_id any_user_mfa stripped s.user_mfa,
            eq_refl user_id,
          )
          (updated-stripped (host.mongo.find_one user_id s.user_mfa));
    no_challenge = λ j c h.
        spared-eq-some (has_user user_id) (host.mongo.find_one j s.challenges) c (
          sym (host.mongo.find-delete_many j (has_user user_id) s.challenges)
          ∙ ap (host.mongo.find_one j) (sym challenges)
          ∙ h);
    no_token = λ j r h.
        spared-eq-some (of_user user_id none) (host.mongo.find_one j s.refresh_tokens) r (
          sym (host.mongo.find-delete_many j (of_user user_id none) s.refresh_tokens)
          ∙ ap (host.mongo.find_one j) (sym tokens)
          ∙ h);
  }

  found_id :
      (user_id : String) (s : Db host) (d : UserMfa)
      → find_by_user_id host user_id s ≡ some d
      → host.is_object_id user_id ≡ true
  unfolding find_by_user_id
  found_id user_id s d h = ground arith

  found_user_id :
      (user_id : String) (s : Db host) (u : User)
      → Users.find_by_id host user_id s ≡ some u
      → host.is_object_id user_id ≡ true
  unfolding Users.find_by_id
  found_user_id user_id s u h = ground arith

  -- An operator's reset of a stored user's second factor succeeds, and leaves the user without a
  -- second factor, without a pending challenge and without a refresh token.
  pub reset_revokes :
      (user_id : String) (user : User) (s : Db host)
      → Users.find_by_id host user_id s ≡ some user
      → (ended : ℕ) × ((reset_mfa_for_user host user_id s).0 ≡ ok (user.email, ended))
        × IsRevoked user_id (reset_mfa_for_user host user_id s).1
  unfolding reset_mfa_for_user clear_for_user RefreshTokens.delete_by_user_id UserMfas.disable_totp
      put_user_mfa saa_s_app_be.Auth.Repositories.MfaChallenges.delete_by_user_id
  reset_revokes user_id user s found =
      let valid = found_user_id user_id s user found in
      (
        (host.mongo.delete_many (of_user user_id none) s.refresh_tokens).1,
        simp (found, valid),
        IsRevoked-writes user_id s (reset_mfa_for_user host user_id s).1 valid (simp (found, valid))
            (simp (found, valid)) (simp (found, valid)),
      )

  assert_password_matches-eq-ok :
      (user : RequestUser) (password : String) (s : Db host)
      → (assert_password_matches host user password s).0 ≡ ok tt
      → (account : User) × (Users.find_by_email host user.email s ≡ some account)
        × (is_filled account.password_hash ≡ true)
        × (host.bcrypt_compare password (or_default account.password_hash "") ≡ true)
  unfolding assert_password_matches
  assert_password_matches-eq-ok user password s h =
      elim (Option-cases (Users.find_by_email host user.email s)) [
        | inl missing ↦ absurd (ground arith)
        | inr (account, found) ↦ (account, found, ground arith, ground arith)
      ]

  assert_password_matches_state :
      (user : RequestUser) (password : String) (s : Db host)
      → (assert_password_matches host user password s).1 ≡ s
  unfolding assert_password_matches
  assert_password_matches_state user password s =
      elim (Option-cases (Users.find_by_email host user.email s)) [
        | inl missing ↦ ground arith
        | inr (account, found) ↦ ground arith
      ]

  -- What a user has shown who turned the second factor off, and what is left.
  pub record IsTurnedOff (now : ℕ) (user : RequestUser) (password code : String) (s t : Db host)
      : Type 0 where
    pub account : User
    pub method : Method
    pub was_on : is_enabled (find_by_user_id host user.user_id s) ≡ true
    pub known : Users.find_by_email host user.email s ≡ some account
    pub password_fits : host.bcrypt_compare password (or_default account.password_hash "") ≡ true
    pub factor : (Factor.verify host now user.user_id code s).0 ≡ ok (some method)
    pub revoked : IsRevoked user.user_id t

  disable_tail :
      (now : ℕ) (user : RequestUser) (password code : String) (s : Db host) (method : Method)
      → is_enabled (find_by_user_id host user.user_id s) ≡ true
      → (assert_password_matches host user password s).0 ≡ ok tt
      → (Factor.verify host now user.user_id code s).0 ≡ ok (some method)
      → IsRevoked user.user_id (disable_totp host now user password code s).1
  unfolding disable_totp clear_for_user RefreshTokens.delete_by_user_id UserMfas.disable_totp
      put_user_mfa saa_s_app_be.Auth.Repositories.MfaChallenges.delete_by_user_id
      notify_security_change
  disable_tail now user password code s method on passed accepted =
      let (d, found, _, _) = verify_accepts host now user.user_id code s method accepted in
      let valid = found_id user.user_id s d found in
      let kept = assert_password_matches_state user password s in
      let t = (Factor.verify host now user.user_id code s).1 in
      IsRevoked-writes user.user_id t (disable_totp host now user password code s).1 valid
        (simp (on, passed, kept, accepted, valid)) (simp (on, passed, kept, accepted, valid))
        (simp (on, passed, kept, accepted, valid))

  -- When `disableTotp` succeeds, the second factor was enabled, the password is that of the stored
  -- user of the request's email, and the second factor accepted the code; and the user is left
  -- without a second factor, without a pending challenge and without a refresh token.
  pub disable_revokes :
      (now : ℕ) (user : RequestUser) (password code : String) (s : Db host) (status : MfaStatus)
      → (disable_totp host now user password code s).0 ≡ ok status
      → IsTurnedOff now user password code s (disable_totp host now user password code s).1
  unfolding disable_totp
  disable_revokes now user password code s status h =
      elim (Bool-cases (is_enabled (find_by_user_id host user.user_id s))) [
        | inr off ↦ absurd (ground arith)
        | inl on ↦ elim (Result-cases (assert_password_matches host user password s).0) [
          | inr (e, refused) ↦ absurd (ground arith)
          | inl (_, passed) ↦
              let kept = assert_password_matches_state user password s in
              elim (Result-cases (Factor.verify host now user.user_id code s).0) [
                | inr (e, broken) ↦ absurd (ground arith)
                | inl (none, wrong) ↦ absurd (ground arith)
                | inl (some method, accepted) ↦
                    let (account, known, _, fits) =
                      assert_password_matches-eq-ok user password s passed in
                    record {
                      account = account;
                      method = method;
                      was_on = on;
                      known = known;
                      password_fits = fits;
                      factor = accepted;
                      revoked = disable_tail now user password code s method on passed accepted;
                    }
              ]
        ]
      ]
