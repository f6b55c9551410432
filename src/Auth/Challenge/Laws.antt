-- ===== src/Auth/Challenge/Laws.antt =====
-- What `load` accepts, and what the other operations do to the stored challenge.
use saa_s_app_be.Prelude.{
  ℕ, ◌+◌, ◌-◌, ◌<◌, String, ◌≡◌, true, Option, none, some, arith, eq_iff, ◌==◌, Option-cases, inl,
  inr, if◌then◌else◌, eq_refl, leb, ap, ◌∙◌,
}
use saa_s_app_be.Text.Token.{OpaqueToken, parse_token}
use saa_s_app_be.Action.{ok, err}
use saa_s_app_be.Host.{Host}
use saa_s_app_be.Mongo.{updated, spared}
use saa_s_app_be.Auth.Model.{Db, MfaChallenge}
use saa_s_app_be.Auth.Repositories.MfaChallenges.{
  find_by_jti_with_code, delete_by_jti, delete_by_user_id, record_failed_attempt, try_consume,
  one_more, any_challenge, has_user, spent_at, is_unspent,
}
use saa_s_app_be.Auth.Challenge.{
  load, check_challenge, register_failed_attempt, fail_attempt, consume, clear_for_user,
  too_many_attempts, incorrect_code,
}

-- The stored challenge after a failed attempt of a budget.
abbrev pub after_failure : ℕ → Option MfaChallenge → Option MfaChallenge
after_failure budget none = none
after_failure budget (some d) = if leb budget (d.attempt_count + 1) then none else some (one_more d)

module _ (host : Host) where
  open host use {bcrypt_compare}

  -- the stored challenge of an identifier
  abbrev pub stored : String → Db host → Option MfaChallenge
  stored jti s = find_by_jti_with_code host jti s

  -- What a challenge passes when `load` returns it.
  pub record IsLive (now : ℕ) (token : String) (s : Db host) (c : MfaChallenge) : Type 0 where
    pub parsed : OpaqueToken
    pub parses : parse_token token ≡ some parsed
    pub is_stored : stored parsed.jti s ≡ some c
    pub unspent : c.consumed_at ≡ none
    pub unexpired : now < c.expires_at
    pub has_attempts : c.attempt_count < c.max_attempts
    pub secret_fits : bcrypt_compare parsed.secret c.secret_hash ≡ true

  check_challenge-eq-ok :
      (now : ℕ) (p : OpaqueToken) (c d : MfaChallenge) (s : Db host)
      → (check_challenge host now p c s).0 ≡ ok d
      → (c ≡ d)
        × (c.consumed_at ≡ none)
        × (now < c.expires_at)
        × (c.attempt_count < c.max_attempts)
        × (bcrypt_compare p.secret c.secret_hash ≡ true)
        × ((check_challenge host now p c s).1 ≡ s)
  unfolding check_challenge
  check_challenge-eq-ok now p c d s h = ground arith

  pub load-IsLive :
      (now : ℕ) (token : String) (s : Db host) (c : MfaChallenge)
      → (load host now token s).0 ≡ ok c
      → IsLive now token s c
  unfolding load
  load-IsLive now token s c h = elim (Option-cases (parse_token token)) [
    | inl unparsed ↦ absurd (ground arith)
    | inr (p, parses) ↦ elim (Option-cases (stored p.jti s)) [
      | inl missing ↦ absurd (ground arith)
      | inr (d, found) ↦
          let (same, unspent, unexpired, has_attempts, secret_fits, _) =
            check_challenge-eq-ok now p d c s (ground arith) in
          record {
            parsed = p;
            parses = parses;
            is_stored = found ∙ ap some same;
            unspent = rw same at unspent;
            unexpired = rw same at unexpired;
            has_attempts = rw same at has_attempts;
            secret_fits = rw same at secret_fits;
          }
    ]
  ]

  -- A challenge that is loaded leaves the database as it was.
  pub load_state :
      (now : ℕ) (token : String) (s : Db host) (c : MfaChallenge)
      → (load host now token s).0 ≡ ok c
      → (load host now token s).1 ≡ s
  unfolding load
  load_state now token s c h = elim (Option-cases (parse_token token)) [
    | inl unparsed ↦ absurd (ground arith)
    | inr (p, parses) ↦ elim (Option-cases (stored p.jti s)) [
      | inl missing ↦ absurd (ground arith)
      | inr (d, found) ↦
          rw (parses, found) (check_challenge-eq-ok now p d c s (rw (parses, found) at h)).5
    ]
  ]

  -- A failed attempt counts one more against the challenge, or deletes it if that was the last.
  pub stored-register_failed_attempt :
      (A : Type 0) (j : String) (c : MfaChallenge) (s : Db host)
      → stored j (register_failed_attempt host {A = A} c s).1
        ≡ (if c.jti == j then after_failure c.max_attempts (stored j s) else stored j s)
  unfolding register_failed_attempt record_failed_attempt delete_by_jti find_by_jti_with_code
  stored-register_failed_attempt A j c s = ground (
    arith,
    host.mongo.find-update_one j c.jti any_challenge one_more s.challenges,
    host.mongo.find-update_one c.jti c.jti any_challenge one_more s.challenges,
    host.mongo.find-delete_one j c.jti
        (host.mongo.update_one c.jti any_challenge one_more s.challenges).0,
    eq_refl c.jti,
    eq_iff c.jti j,
  )

  -- What a failed attempt answers: how many are left, or that there are none.
  pub register_failed_attempt_answer :
      (A : Type 0) (c d : MfaChallenge) (s : Db host)
      → stored c.jti s ≡ some d
      → (register_failed_attempt host {A = A} c s).0 ≡ (
          if leb c.max_attempts (d.attempt_count + 1)
          then err too_many_attempts
          else err (incorrect_code (c.max_attempts - (d.attempt_count + 1))))
  unfolding register_failed_attempt record_failed_attempt delete_by_jti find_by_jti_with_code
  register_failed_attempt_answer A c d s h = ground (
    arith,
    host.mongo.find-update_one c.jti c.jti any_challenge one_more s.challenges,
    eq_refl c.jti,
  )

  -- A failed attempt always throws.
  pub register_failed_attempt-throws :
      {A : Type 0} (c : MfaChallenge) (s : Db host) (a : A)
      → (register_failed_attempt host {A = A} c s).0 ≡ ok a
      → ⊥
  unfolding register_failed_attempt fail_attempt
  register_failed_attempt-throws c s a h = ground arith

  pub stored-consume :
      (now : ℕ) (j : String) (c : MfaChallenge) (s : Db host)
      → stored j (consume host now c s).1
        ≡ (if c.jti == j then updated is_unspent (spent_at now) (stored j s) else stored j s)
  unfolding consume try_consume find_by_jti_with_code
  stored-consume now j c s =
      ground (arith, host.mongo.find-update_one j c.jti is_unspent (spent_at now) s.challenges)

  -- Consuming succeeds exactly for a challenge that is stored and not spent.
  pub consume_answer :
      (now : ℕ) (c d : MfaChallenge) (s : Db host)
      → stored c.jti s ≡ some d
      → d.consumed_at ≡ none
      → (consume host now c s).0 ≡ ok tt
  unfolding consume try_consume find_by_jti_with_code
  consume_answer now c d s h k =
      ground (arith, host.mongo.update_one_done c.jti is_unspent (spent_at now) s.challenges)

  pub stored-clear_for_user :
      (j user_id : String) (s : Db host)
      → stored j (clear_for_user host user_id s).1
        ≡ (if host.is_object_id user_id then spared (has_user user_id) (stored j s) else stored j s)
  unfolding clear_for_user delete_by_user_id find_by_jti_with_code
  stored-clear_for_user j user_id s =
      ground (arith, host.mongo.find-delete_many j (has_user user_id) s.challenges)

  pub clear_for_user_answer :
      (user_id : String) (s : Db host) → (clear_for_user host user_id s).0 ≡ ok tt
  unfolding clear_for_user delete_by_user_id
  clear_for_user_answer user_id s = ground arith
