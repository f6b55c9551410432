-- ===== src/Auth/Repositories/MfaChallenges.antt =====
-- auth/mfa/repositories/mfa-challenge.repository.ts
use saa_s_app_be.Prelude.{
  ℕ, ◌+◌, String, Bool, true, false, not, Option, none, some, ◌==◌, is_some, if◌then◌else◌,
}
use saa_s_app_be.Action.{Action, ok, err, plain, text}
use saa_s_app_be.Host.{Host}
use saa_s_app_be.Auth.Model.{MfaChallenge, Db}

abbrev pub has_user : String → MfaChallenge → Bool
has_user user_id c = elim c.user_id [ none ↦ false | some u ↦ u == user_id ]

-- `consumedAt: { $exists: false }`
abbrev pub is_unspent : MfaChallenge → Bool
is_unspent c = not (is_some c.consumed_at)

abbrev pub one_more : MfaChallenge → MfaChallenge
one_more c = record c { attempt_count = c.attempt_count + 1 }

abbrev pub spent_at : ℕ → MfaChallenge → MfaChallenge
spent_at now c = record c { consumed_at = some now }

abbrev pub any_challenge : MfaChallenge → Bool
any_challenge c = true

-- `userId` is stored only if it is an object id
abbrev pub stored_user_id : (String → Bool) → Option String → Option String
stored_user_id valid none = none
stored_user_id valid (some u) = if valid u then some u else none

module _ (host : Host) where
  open host use {mongo, is_object_id, lower_case}
  open mongo use {find_one, find_where, insert, update_one, upsert, delete_one, delete_many}

  unfoldable pub create : MfaChallenge → Action (Db host) Unit
  create input s =
      let c = record input { user_id = stored_user_id is_object_id input.user_id } in
      let (challenges, done) = insert c.jti c s.challenges in
      if done
      then (ok tt, record s { challenges = challenges })
      else (err (plain (text "duplicate key")), s)

  unfoldable pub find_by_jti_with_code : String → Db host → Option MfaChallenge
  find_by_jti_with_code jti s = find_one jti s.challenges

  -- the count after the increment; `none` if the challenge is gone
  unfoldable pub record_failed_attempt : String → Action (Db host) (Option ℕ)
  record_failed_attempt jti s =
      let (challenges, _) = update_one jti any_challenge one_more s.challenges in
      let after : Option ℕ = elim (find_one jti challenges) [
        | none ↦ none
        | some c ↦ some c.attempt_count
      ] in
      (ok after, record s { challenges = challenges })

  unfoldable pub try_consume : ℕ → String → Action (Db host) Bool
  try_consume now jti s =
      let (challenges, modified) = update_one jti is_unspent (spent_at now) s.challenges in
      (ok modified, record s { challenges = challenges })

  unfoldable pub delete_by_jti : String → Action (Db host) Unit
  delete_by_jti jti s = (ok tt, record s { challenges = delete_one jti s.challenges })

  unfoldable pub delete_by_user_id : String → Action (Db host) Unit
  delete_by_user_id user_id s =
      if is_object_id user_id
      then (ok tt, record s { challenges = (delete_many (has_user user_id) s.challenges).0 })
      else (ok tt, s)
