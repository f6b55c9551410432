-- ===== src/Auth/Repositories/RefreshTokens.antt =====
-- auth/repositories/refresh-token.repository.ts
use saa_s_app_be.Prelude.{
  ℕ, String, Bool, not, ◌&&◌, ◌||◌, Option, none, some, ◌==◌, is_empty, if◌then◌else◌,
}
use saa_s_app_be.Action.{Action, ok, err, plain, text}
use saa_s_app_be.Host.{Host}
use saa_s_app_be.Auth.Model.{RefreshToken, Db}

abbrev pub in_family : String → RefreshToken → Bool
in_family family_id t = t.family_id == family_id

-- `{ userId, familyId: { $ne: exceptFamilyId } }`, the second part if a family is given
abbrev pub of_user : String → Option String → RefreshToken → Bool
of_user user_id none t = t.user_id == user_id
of_user user_id (some kept) t = t.user_id == user_id && (is_empty kept || not (t.family_id == kept))

module _ (host : Host) where
  open host use {mongo, is_object_id, lower_case}
  open mongo use {find_one, find_where, insert, update_one, upsert, delete_one, delete_many}

  unfoldable pub find_by_jti : String → Db host → Option RefreshToken
  find_by_jti jti s = find_one jti s.refresh_tokens

  unfoldable pub create_token : RefreshToken → Action (Db host) Unit
  create_token t s =
      let (refresh_tokens, done) = insert t.jti t s.refresh_tokens in
      if done
      then (ok tt, record s { refresh_tokens = refresh_tokens })
      else (err (plain (text "duplicate key")), s)

  unfoldable pub delete_by_jti : String → Action (Db host) Unit
  delete_by_jti jti s = (ok tt, record s { refresh_tokens = delete_one jti s.refresh_tokens })

  unfoldable pub delete_by_family_id : String → Action (Db host) Unit
  delete_by_family_id family_id s =
      (ok tt, record s { refresh_tokens = (delete_many (in_family family_id) s.refresh_tokens).0 })

  -- `deleteByUserId`, with the number of sessions that it ended
  unfoldable pub delete_by_user_id : String → Option String → Action (Db host) ℕ
  delete_by_user_id user_id except_family_id s =
      let (refresh_tokens, count) =
        delete_many (of_user user_id except_family_id) s.refresh_tokens in
      if is_object_id user_id
      then (ok count, record s { refresh_tokens = refresh_tokens })
      else (ok 0, s)
