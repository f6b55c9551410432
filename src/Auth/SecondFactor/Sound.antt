-- ===== src/Auth/SecondFactor/Sound.antt =====
-- The stored challenges stay sound when they age, and `load` only lets them age.
use saa_s_app_be.Prelude.{
  ℕ, ◌<◌, String, ◌≡◌, refl, ◌∙◌, Bool, true, false, Option, none, some, arith, Option-cases, inl,
  inr, ◌==◌, if◌then◌else◌, ◌⊎◌,
}
use saa_s_app_be.Text.Token.{OpaqueToken, parse_token}
use saa_s_app_be.Action.{Exception, err}
use saa_s_app_be.Host.{Host}
use saa_s_app_be.Auth.Model.{Db, MfaChallenge}
use saa_s_app_be.Auth.Repositories.MfaChallenges.{find_by_jti_with_code, delete_by_jti}
use saa_s_app_be.Auth.Challenge.{load, check_challenge}
use saa_s_app_be.Auth.Challenge.Laws.{stored}
use saa_s_app_be.Auth.SecondFactor.{is_wrong_code}
use saa_s_app_be.Auth.SecondFactor.Laws.{refusal_message}
use saa_s_app_be.Auth.SecondFactor.Budget.{IsSound, Ages, Ages-refl, Aged}
use saa_s_app_be.Auth.SecondFactor.Messages.{check_challenge-err}

module _ (host : Host) where
  IsSound-Ages :
      (j : String) (o p : Option MfaChallenge)
      → Ages o p
      → ((c : MfaChallenge) → o ≡ some c → (c.jti ≡ j) × (c.attempt_count < c.max_attempts))
      → (d : MfaChallenge) → p ≡ some d
      → (d.jti ≡ j) × (d.attempt_count < d.max_attempts)
  IsSound-Ages j o none h k d e = cc
  IsSound-Ages j none (some x) h k d e = absurd h
  IsSound-Ages j (some c) (some x) h k d e =
      let was = k c refl in (ground (arith, e, h.0 ∙ was.0), ground (arith, e, h.3 was.1))

  pub IsSound-Aged : (s t : Db host) → IsSound host s → Aged host s t → IsSound host t
  IsSound-Aged s t sound aged = record {
    keyed = λ j d e. (step j d e).0;
    has_attempts = λ j d e. (step j d e).1;
  }
    where
      step :
          (j : String) (d : MfaChallenge)
          → stored host j t ≡ some d
          → (d.jti ≡ j) × (d.attempt_count < d.max_attempts)
      step j =
          IsSound-Ages j (stored host j s) (stored host j t) (aged j)
            (λ c e. (sound.keyed j c e, sound.has_attempts j c e))

  Ages-gone : (b : Bool) (o : Option MfaChallenge) → Ages o (if b then none else o)
  Ages-gone true o = tt
  Ages-gone false o = Ages-refl o

  stored-delete_by_jti :
      (j k : String) (s : Db host)
      → stored host j (delete_by_jti host k s).1 ≡ (if k == j then none else stored host j s)
  unfolding delete_by_jti find_by_jti_with_code
  stored-delete_by_jti j k s = host.mongo.find-delete_one j k s.challenges

  Aged-delete_by_jti : (k : String) (s : Db host) → Aged host s (delete_by_jti host k s).1
  Aged-delete_by_jti k s j = rw (stored-delete_by_jti j k s) (Ages-gone (k == j) (stored host j s))

  check_challenge_state :
      (now : ℕ) (p : OpaqueToken) (c : MfaChallenge) (s : Db host)
      → ((check_challenge host now p c s).1 ≡ s)
        ⊎ ((check_challenge host now p c s).1 ≡ (delete_by_jti host p.jti s).1)
  unfolding check_challenge delete_by_jti
  check_challenge_state now p c s = ground arith

  Aged-check_challenge :
      (now : ℕ) (p : OpaqueToken) (c : MfaChallenge) (s : Db host)
      → Aged host s (check_challenge host now p c s).1
  Aged-check_challenge now p c s = elim (check_challenge_state now p c s) [
    | inl same ↦ rw same (λ j. Ages-refl (stored host j s))
    | inr gone ↦ rw gone (Aged-delete_by_jti p.jti s)
  ]

  -- What `load` does when it throws: the challenges age, and the answer is not that of a wrong code.
  pub load-err :
      (now : ℕ) (token : String) (s : Db host) (e : Exception)
      → IsSound host s
      → (load host now token s).0 ≡ err e
      → (is_wrong_code e ≡ false) × Aged host s (load host now token s).1
  unfolding load
  load-err now token s e sound h = elim (Option-cases (parse_token token)) [
    | inl unparsed ↦ (
      refusal_message host MfaChallenge _ e (rw unparsed at h) refl,
      rw unparsed (λ j. Ages-refl (stored host j s)),
    )
    | inr (p, parses) ↦ elim (Option-cases (stored host p.jti s)) [
      | inl missing ↦ (
        refusal_message host MfaChallenge _ e (rw (parses, missing) at h) refl,
        rw (parses, missing) (λ j. Ages-refl (stored host j s)),
      )
      | inr (c, found) ↦ (
        check_challenge-err host now p c s e (sound.has_attempts p.jti c found)
            (rw (parses, found) at h),
        rw (parses, found) (Aged-check_challenge now p c s),
      )
    ]
  ]
