-- ===== src/Auth/Repositories/Users.antt =====
-- The reads of user/repositories/user.repository.ts and tenant/repositories/tenant.repository.ts that
-- src/auth makes, and the write of `verifyEmail`.
use saa_s_app_be.Prelude.{String, Bool, true, Option, none, some, ◌==◌, if◌then◌else◌}
use saa_s_app_be.Action.{Action, ok}
use saa_s_app_be.Host.{Host}
use saa_s_app_be.Auth.Model.{User, Tenant, Db}
use saa_s_app_be.Text.{trim}

abbrev pub any_user : User → Bool
any_user u = true

abbrev pub verified : User → User
verified u = record u {
  is_email_verified = true;
  email_verify_token_hash = none;
  email_verify_expires_at = none;
}

module _ (host : Host) where
  open host use {mongo, is_object_id, lower_case}
  open mongo use {find_one, find_where, insert, update_one, upsert, delete_one, delete_many}

  -- `email.toLowerCase().trim()`
  unfoldable pub normal_email : String → String
  normal_email email = trim (lower_case email)

  -- `findByEmail`, `findByEmailWithCredentials`, `findByEmailWithEmailVerificationFields`: one query,
  -- with more fields selected
  unfoldable pub find_by_email : String → Db host → Option User
  unfolding normal_email
  find_by_email email s = find_where (λ u. u.email == normal_email email) s.users

  -- `findById` and `findByIdForTokenRefresh`
  unfoldable pub find_by_id : String → Db host → Option User
  find_by_id id s = if is_object_id id then find_one id s.users else none

  unfoldable pub mark_email_verified : String → Action (Db host) Unit
  mark_email_verified id s =
      if is_object_id id
      then (ok tt, record s { users = (update_one id any_user verified s.users).0 })
      else (ok tt, s)

  abbrev active_tenant : Option Tenant → Option Tenant
  active_tenant none = none
  active_tenant (some t) = elim t.deleted_at [ none ↦ some t | some _ ↦ none ]

  -- `findActiveByTenantId`
  unfoldable pub find_active_tenant : String → Db host → Option Tenant
  find_active_tenant tenant_id s = active_tenant (find_one tenant_id s.tenants)
