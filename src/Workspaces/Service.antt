-- ===== src/Workspaces/Service.antt =====
-- workspace/workspace.service.ts: the helpers, and workspaces.
use saa_s_app_be.Prelude.{
  ℕ, String, ◌==◌, Bool, true, false, not, ◌&&◌, Option, none, some, List, ◌∷◌, ◌++◌, map, is_some,
  is_empty, if◌then◌else◌,
}
use saa_s_app_be.Text.{trim}
use saa_s_app_be.Lists.{unique, filled_items}
use saa_s_app_be.Mongo.{holds}
use saa_s_app_be.Action.{
  Action, bad_request, forbidden, not_found, text, pure, gets, modify, lift, throw_if, ◌>>=◌, ◌>>◌,
}
use saa_s_app_be.Host.{Role}
use saa_s_app_be.Auth.Model.{User, RequestUser}
use saa_s_app_be.Billing.{assert_within_workspace_limit}
use saa_s_app_be.Files.Cloud.{FileHost}
use saa_s_app_be.Files.Model.{FileState, FinalizedAssetItem}
use saa_s_app_be.Workspaces.Model.{Task, Workspace, TaskEvent, Push, Board}
use saa_s_app_be.Workspaces.Repository.{
  soft_delete_all_by_workspace, create_workspace_document, find_workspace,
  delete_workspace_document, count_workspaces, execute_in_transaction,
}

abbrev is_member_role : Option Role → Bool
is_member_role none = false
is_member_role (some Role.admin) = false
is_member_role (some Role.member) = true

-- `isTenantMember`
abbrev pub is_tenant_member : RequestUser → Bool
is_tenant_member user = not user.platform_admin && is_member_role user.tenant_role

unfoldable pub merge_attachment_urls : (base appended : List String) → List String
merge_attachment_urls base appended = unique (filled_items base ++ filled_items appended)

abbrev in_tenant : (tenant_id : String) → User → Bool
in_tenant tenant_id user = user.tenant_id == tenant_id

abbrev pub secure_urls : List FinalizedAssetItem → List String
secure_urls items = map (λ i. i.secure_url) items

module _ (fh : FileHost) where
  open fh use {host}
  open host use {mongo, is_object_id}

  -- the query of `assertTaskExistsInTenant`
  abbrev pub stored_task : mongo.Coll Task → (tenant_id task_id : String) → Bool
  stored_task tasks tenant_id task_id =
      holds (λ t. (t.tenant_id == tenant_id) && not (is_some t.deleted_at))
        (mongo.find_one task_id tasks)

  -- an action of the file service; its task model reads the tasks of the same transaction
  abbrev pub with_files :
      {A : Type 0}
      → ((tasks : String → String → Bool) → Action (FileState fh) A)
      → Action (Board fh) A
  with_files action s =
      let (r, files) = action (stored_task s.tasks) s.files in (r, record s { files = files })

  abbrev pub emit : TaskEvent → Action (Board fh) Unit
  emit event = modify (λ s. record s { events = event ∷ s.events })

  abbrev pub publish : Push → Action (Board fh) Unit
  publish push = modify (λ s. record s { pushes = push ∷ s.pushes })

  -- `publishMemberMyTasksInboxRefresh`
  unfoldable pub publish_member_my_tasks_inbox_refresh :
      (tenant_id : String) → Option String → Action (Board fh) Unit
  publish_member_my_tasks_inbox_refresh tenant_id none = pure tt
  publish_member_my_tasks_inbox_refresh tenant_id (some user_id) =
      if is_empty (trim user_id) then pure tt else publish (Push.my_tasks_changed tenant_id user_id)

  unfoldable pub assert_workspace_belongs_to_tenant :
      (workspace_id tenant_id : String) → Action (Board fh) Unit
  assert_workspace_belongs_to_tenant workspace_id tenant_id s =
      throw_if (not (is_some (find_workspace fh workspace_id tenant_id s)))
        (not_found (text "Workspace not found")) s

  unfoldable pub assert_assigned_user_in_tenant :
      (tenant_id user_id : String) → Action (Board fh) Unit
  assert_assigned_user_in_tenant tenant_id user_id s =
      throw_if
        (not (is_object_id user_id && holds (in_tenant tenant_id) (mongo.find_one user_id s.users)))
        (bad_request (text "Assigned user must belong to the tenant")) s

  unfoldable pub create_workspace :
      (now : ℕ) (id : String) → RequestUser → (name : String) → Action (Board fh) Workspace
  create_workspace now id user name = do
    throw_if (is_tenant_member user) (forbidden (text "Only tenant admins can create workspaces"))
    current_count ← gets (count_workspaces fh user.tenant_id)
    (λ s.
        lift (assert_within_workspace_limit host user.tenant_id current_count s.files.catalog).0 s)
    create_workspace_document fh (record {
      id = id;
      tenant_id = user.tenant_id;
      name = trim name;
      created_at = now;
      updated_at = now;
    })

  -- the transaction of `deleteWorkspace`
  unfoldable pub delete_workspace_and_tasks :
      (now : ℕ) → RequestUser → (workspace_id : String) → Action (Board fh) Unit
  delete_workspace_and_tasks now user workspace_id = do
    soft_delete_all_by_workspace fh now workspace_id user.tenant_id
    deleted ← delete_workspace_document fh workspace_id user.tenant_id
    throw_if (not deleted) (not_found (text "Workspace not found"))

  unfoldable pub delete_workspace :
      (now : ℕ) → RequestUser → (workspace_id : String) → Action (Board fh) Unit
  delete_workspace now user workspace_id = do
    throw_if (is_tenant_member user) (forbidden (text "Only tenant admins can delete workspaces"))
    assert_workspace_belongs_to_tenant workspace_id user.tenant_id
    execute_in_transaction fh (delete_workspace_and_tasks now user workspace_id)
