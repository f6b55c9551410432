-- ===== src/Workspaces/Tasks.antt =====
-- workspace/workspace.service.ts: `createTask` and `deleteTask`.
use saa_s_app_be.Prelude.{
  ℕ, String, ◌==◌, Bool, true, false, not, ◌&&◌, Option, none, some, List, [], ◌∷◌, is_empty,
  or_default, if◌then◌else◌,
}
use saa_s_app_be.Text.{trim}
use saa_s_app_be.Action.{
  Action, bad_request, forbidden, not_found, text, pure, gets, or_throw, throw_if, when, ◌>>=◌,
  ◌>>◌,
}
use saa_s_app_be.Auth.Model.{RequestUser}
use saa_s_app_be.Files.Cloud.{FileHost}
use saa_s_app_be.Files.Finalize.{finalize_temporary_assets}
use saa_s_app_be.Workspaces.Model.{TaskStatus, Task, CreateTaskDto, TaskEvent, Push, Board, is_done}
use saa_s_app_be.Workspaces.Repository.{
  UpdateTaskRecordInput, create_task_document, find_active_by_id_and_workspace,
  update_by_id_and_workspace, soft_delete_by_id_and_workspace, execute_in_transaction,
}
use saa_s_app_be.Workspaces.Service.{
  is_tenant_member, merge_attachment_urls, secure_urls, with_files, emit, publish,
  publish_member_my_tasks_inbox_refresh, assert_workspace_belongs_to_tenant,
  assert_assigned_user_in_tenant,
}

-- `a.length === b.length && a.every((value, index) => value === b[index])`
abbrev pub same_texts : List String → List String → Bool
same_texts [] [] = true
same_texts [] (y ∷ ys) = false
same_texts (x ∷ xs) [] = false
same_texts (x ∷ xs) (y ∷ ys) = let rest = same_texts xs ys in (x == y) && rest

abbrev trimmed : Option String → Option String
trimmed none = none
trimmed (some s) = some (trim s)

-- the document of a new task, under the `_id` that Mongoose draws
abbrev pub draft_task :
    (now : ℕ) (id : String) → RequestUser → (workspace_id : String) → CreateTaskDto → Task
draft_task now id user workspace_id body = record {
  id = id;
  title = trim body.title;
  description = trimmed body.description;
  attachment_urls = or_default body.attachment_urls [];
  status = or_default body.status TaskStatus.todo;
  assigned_to = body.assigned_to;
  tenant_id = user.tenant_id;
  workspace_id = workspace_id;
  created_by = user.user_id;
  deleted_at = none;
  created_at = now;
  updated_at = now;
}

-- `{ attachmentUrls }`
abbrev pub only_attachments : List String → UpdateTaskRecordInput
only_attachments urls = record {
  title = none;
  description = none;
  attachment_urls = some urls;
  status = none;
  assigned_to = none;
}

module _ (fh : FileHost) where
  abbrev attach : (now : ℕ) (workspace_id : String) → Task → List String → Action (Board fh) Task
  attach now workspace_id draft merged =
      if same_texts merged draft.attachment_urls then pure draft else (do
        found ←
            update_by_id_and_workspace fh now draft.id workspace_id draft.tenant_id
              (only_attachments merged)
        or_throw found (not_found (text "Task not found after creation")))

  abbrev check_assignee : (tenant_id : String) → Option String → Action (Board fh) Unit
  check_assignee tenant_id none = pure tt
  check_assignee tenant_id (some user_id) =
      if is_empty user_id then pure tt else assert_assigned_user_in_tenant fh tenant_id user_id

  -- the transaction of `createTask`
  unfoldable pub create_task_in_transaction :
      (now : ℕ) (id : String) (uuid : String → String)
      → RequestUser
      → (workspace_id : String) → CreateTaskDto
      → Action (Board fh) Task
  create_task_in_transaction now id uuid user workspace_id body = do
    draft ← create_task_document fh (draft_task now id user workspace_id body)
    finalized_assets ← with_files fh (λ tasks. finalize_temporary_assets fh tasks now uuid (record {
      tenant_id = user.tenant_id;
      task_id = draft.id;
      temporary_public_ids = or_default body.temp_attachment_public_ids [];
      scope = "workspace-tasks";
      in_session = true;
    }))
    attach now workspace_id draft
        (merge_attachment_urls draft.attachment_urls (secure_urls finalized_assets))

  abbrev emit_assigned :
      RequestUser → (workspace_id : String) → Task → Option String → Action (Board fh) Unit
  emit_assigned user workspace_id task none = pure tt
  emit_assigned user workspace_id task (some assignee) =
      if is_empty assignee
      then pure tt
      else emit fh (TaskEvent.assigned task.id workspace_id task.tenant_id assignee user.user_id)

  -- what `createTask` emits and publishes behind its transaction
  unfoldable pub announce_created :
      RequestUser → (workspace_id : String) → Task → Action (Board fh) Unit
  announce_created user workspace_id created = do
    emit fh (
        TaskEvent.created created.id workspace_id created.tenant_id user.user_id created.assigned_to
          created.status)
    emit_assigned user workspace_id created created.assigned_to
    when (is_done created.status)
        (emit fh (TaskEvent.completed created.id workspace_id created.tenant_id user.user_id))
    publish fh (Push.tasks_changed user.tenant_id workspace_id)
    publish_member_my_tasks_inbox_refresh fh user.tenant_id created.assigned_to

  -- the checks of `createTask` in front of its transaction
  unfoldable pub check_creation :
      RequestUser → (workspace_id : String) → CreateTaskDto → Action (Board fh) Unit
  check_creation user workspace_id body = do
    throw_if (is_tenant_member user) (forbidden (text "Members cannot create workspace tasks"))
    assert_workspace_belongs_to_tenant fh workspace_id user.tenant_id
    check_assignee user.tenant_id body.assigned_to

  unfoldable pub create_task :
      (now : ℕ) (id : String) (uuid : String → String)
      → RequestUser
      → (workspace_id : String) → CreateTaskDto
      → Action (Board fh) Task
  create_task now id uuid user workspace_id body = do
    check_creation user workspace_id body
    created ←
        execute_in_transaction fh (create_task_in_transaction now id uuid user workspace_id body)
    announce_created user workspace_id created
    pure created

  -- `deleteTask` behind its checks
  unfoldable pub delete_existing :
      (now : ℕ) → RequestUser → (workspace_id task_id : String) → Task → Action (Board fh) Unit
  delete_existing now user workspace_id task_id existing = do
    deleted ← soft_delete_by_id_and_workspace fh now task_id workspace_id user.tenant_id
    throw_if (not deleted) (not_found (text "Task not found"))
    publish fh (Push.tasks_changed user.tenant_id workspace_id)
    publish_member_my_tasks_inbox_refresh fh user.tenant_id existing.assigned_to

  unfoldable pub delete_task :
      (now : ℕ) → RequestUser → (workspace_id task_id : String) → Action (Board fh) Unit
  delete_task now user workspace_id task_id = do
    throw_if (is_tenant_member user) (forbidden (text "Members cannot delete workspace tasks"))
    assert_workspace_belongs_to_tenant fh workspace_id user.tenant_id
    found ← gets (find_active_by_id_and_workspace fh task_id workspace_id user.tenant_id)
    existing ← or_throw found (not_found (text "Task not found"))
    throw_if (is_done existing.status) (bad_request (text "Completed tasks cannot be deleted"))
    delete_existing now user workspace_id task_id existing
