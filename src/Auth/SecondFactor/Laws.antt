-- ===== src/Auth/SecondFactor/Laws.antt =====
-- The ways that `verifyMfaChallenge` ends, behind `load`.
use saa_s_app_be.Prelude.{
  ℕ, String, ◌≡◌, refl, true, false, Option, some, arith, Bool-cases, Option-cases, inl, inr,
  is_empty,
}
use saa_s_app_be.Text.{trim}
use saa_s_app_be.Action.{Exception, is_fault, Result, Result-cases, ok, err, unauthorized, text}
use saa_s_app_be.Host.{Host}
use saa_s_app_be.Auth.Model.{Scope, platform, tenant, Db, User, MfaChallenge, Method, Draw}
use saa_s_app_be.Auth.Repositories.Users.{find_by_id}
use saa_s_app_be.Auth.Factor.Laws.{challenges-verify, verify-fault}
use saa_s_app_be.Auth.Challenge.{invalid_challenge}
use saa_s_app_be.Auth.Login.{invalid_credentials, assert_login_scope_matches_user}
use saa_s_app_be.Auth.SecondFactor.{is_wrong_code, filled, verify_for, finish, complete}

module _ (host : Host) where
  -- The check of the second factor leaves the pending challenges alone.
  pub challenges-verify_for :
      (now : ℕ) (c : MfaChallenge) (user_id code : String) (s : Db host)
      → (verify_for host now c user_id code s).1.challenges ≡ s.challenges
  unfolding verify_for
  challenges-verify_for now c user_id code s =
      ground (arith, challenges-verify host now user_id code s)

  scope_step :
      (c : MfaChallenge) (user : User) (s : Db host) {r : Result Unit}
      → (assert_login_scope_matches_user {S = Db host} c.auth_scope user s).0 ≡ r
      → assert_login_scope_matches_user {S = Db host} c.auth_scope user s ≡ (r, s)
  unfolding assert_login_scope_matches_user
  scope_step c user s h = ground arith

  abbrev pub refusal : (A : Type 0) → Exception → Result A
  refusal A x = err x

  pub refusal_message :
      (A : Type 0) (x e : Exception)
      → refusal A x ≡ err e
      → is_wrong_code x ≡ false
      → is_wrong_code e ≡ false
  refusal_message A x e h k = cc

  scope_message_of :
      (scope : Scope) (user : User) (s : Db host) (e : Exception)
      → (assert_login_scope_matches_user {S = Db host} scope user s).0 ≡ err e
      → is_wrong_code e ≡ false
  unfolding assert_login_scope_matches_user
  scope_message_of platform user s e h = elim (Bool-cases user.is_platform_admin) [
    | inl operator ↦ absurd (ground arith)
    | inr other ↦ refusal_message Unit _ e (rw other at h) refl
  ]
  scope_message_of tenant user s e h = elim (Bool-cases user.is_platform_admin) [
    | inl operator ↦ refusal_message Unit _ e (rw operator at h) refl
    | inr other ↦ elim (Bool-cases (is_empty (trim user.tenant_id))) [
      | inl homeless ↦ refusal_message Unit _ e (rw (other, homeless) at h) refl
      | inr home ↦ absurd (ground arith)
    ]
  ]

  scope_message :
      (c : MfaChallenge) (user : User) (s : Db host) (e : Exception)
      → (assert_login_scope_matches_user {S = Db host} c.auth_scope user s).0 ≡ err e
      → is_wrong_code e ≡ false
  scope_message c user s e h = scope_message_of c.auth_scope user s e h

  fault_message : (e : Exception) → is_fault e ≡ true → is_wrong_code e ≡ false
  fault_message (unauthorized m) h = cc
  fault_message _ h = refl

  verify_for_message :
      (now : ℕ) (c : MfaChallenge) (user_id code : String) (s : Db host) (e : Exception)
      → (verify_for host now c user_id code s).0 ≡ err e
      → is_wrong_code e ≡ false
  unfolding verify_for
  verify_for_message now c user_id code s e h =
      fault_message e (ground (arith, verify-fault host now user_id code s e))

  module _ (now : ℕ) (draw : Draw) (c : MfaChallenge) (code : String) (s : Db host) where
    -- What holds when the second factor has been checked, with the method that was accepted.
    pub record IsChecked (user_id : String) (user : User) (method : Option Method) : Type 0 where
      pub names_user : filled c.user_id ≡ some user_id
      pub found : find_by_id host user_id s ≡ some user
      pub scope_fits : (assert_login_scope_matches_user {S = Db host} c.auth_scope user s).0 ≡ ok tt
      pub active : user.is_active ≡ true
      pub checked : (verify_for host now c user_id code s).0 ≡ ok method

    pub data CompleteCase : Type 0 where
      stopped :
          (e : Exception)
          → is_wrong_code e ≡ false
          → complete host now draw c code s ≡ (err e, s)
          → CompleteCase
      failed :
          (user_id : String) (e : Exception)
          → is_wrong_code e ≡ false
          → complete host now draw c code s ≡ (err e, (verify_for host now c user_id code s).1)
          → CompleteCase
      reached :
          (user_id : String) (user : User) (method : Option Method)
          → IsChecked user_id user method
          → complete host now draw c code s
            ≡ finish host now draw c user user_id method (verify_for host now c user_id code s).1
          → CompleteCase

    pub complete_cases : CompleteCase
    unfolding complete
    complete_cases = elim (Option-cases (filled c.user_id)) [
      | inl unnamed ↦ CompleteCase.stopped invalid_challenge refl (rw unnamed refl)
      | inr (user_id, named) ↦ elim (Option-cases (find_by_id host user_id s)) [
        | inl missing ↦ CompleteCase.stopped invalid_credentials refl (rw (named, missing) refl)
        | inr (user, found) ↦
            elim (Result-cases
              (assert_login_scope_matches_user {S = Db host} c.auth_scope user s).0) [
                | inr (e, refused) ↦
                    CompleteCase.stopped e (scope_message c user s e refused)
                      (rw (named, found, scope_step c user s refused) refl)
                | inl (_, fits) ↦ elim (Bool-cases user.is_active) [
                  | inr inactive ↦
                      CompleteCase.stopped (unauthorized (text "Account is not active.")) refl
                        (rw (named, found, scope_step c user s fits, inactive) refl)
                  | inl active ↦ elim (Result-cases (verify_for host now c user_id code s).0) [
                    | inr (e, broken) ↦
                        CompleteCase.failed user_id e
                          (verify_for_message now c user_id code s e broken)
                          (rw (named, found, scope_step c user s fits, active, broken) refl)
                    | inl (method, checked) ↦
                        CompleteCase.reached user_id user method
                          (record {
                            names_user = named;
                            found = found;
                            scope_fits = fits;
                            active = active;
                            checked = checked;
                          })
                          (rw (named, found, scope_step c user s fits, active, checked) refl)
                  ]
                ]
              ]
      ]
    ]
