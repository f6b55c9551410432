-- ===== src/Workspaces/Step/Checks.antt =====
-- The checks of `updateTask`: they write nothing, and what passes them.
use saa_s_app_be.Prelude.{
  String, ◌≡◌, inl, inr, true, not, ◌||◌, none, some, [], arith, eq_iff, or_default, Option-cases,
}
use saa_s_app_be.Auth.Model.{RequestUser}
use saa_s_app_be.Action.{Result, ok}
use saa_s_app_be.Files.Cloud.{FileHost}
use saa_s_app_be.Workspaces.Model.{Task, UpdateTaskDto, Board, is_done}
use saa_s_app_be.Workspaces.Service.{
  is_tenant_member, assert_workspace_belongs_to_tenant, assert_assigned_user_in_tenant,
}
use saa_s_app_be.Workspaces.Update.{check_update, check_request}

module _ (fh : FileHost) where
  module _ (user : RequestUser) (workspace_id : String) (body : UpdateTaskDto) (s : Board fh) where
    abbrev checked : Result Unit × Board fh
    checked = check_request fh user workspace_id body s

    pub update_checks : (a : Task) → (check_update fh user body a s).1 ≡ s
    unfolding check_update assert_assigned_user_in_tenant
    update_checks a = ground arith

    pub checked_state : checked.1 ≡ s
    unfolding check_request assert_workspace_belongs_to_tenant
    checked_state = ground arith

    pub checks_done :
        (a : Task)
        → (check_update fh user body a s).0 ≡ ok tt
        → (not (is_done a.status) || is_done (or_default body.status a.status)) ≡ true
    unfolding check_update assert_assigned_user_in_tenant
    checks_done a h = ground arith

    pub checks_own :
        (a : Task)
        → is_tenant_member user ≡ true
        → (check_update fh user body a s).0 ≡ ok tt
        → a.assigned_to ≡ some user.user_id
    unfolding check_update assert_assigned_user_in_tenant
    checks_own a member h = elim (Option-cases a.assigned_to) [
      | inl nobody ↦ absurd (ground arith)
      | inr (b, somebody) ↦ ground (arith, eq_iff b user.user_id)
    ]

    pub checks_member :
        is_tenant_member user ≡ true
        → checked.0 ≡ ok tt
        → (body.assigned_to ≡ none)
          × (body.attachment_urls ≡ none)
          × (or_default body.temp_attachment_public_ids [] ≡ [])
    unfolding check_request
    checks_member member h = (ground arith, ground arith, ground arith)
