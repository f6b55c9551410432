-- ===== src/Workspaces/Update.antt =====
-- workspace/workspace.service.ts: `updateTask`.
use saa_s_app_be.Prelude.{
  ℕ, String, ◌==◌, Bool, true, false, not, ◌&&◌, ◌||◌, Option, none, some, List, [], is_some,
  is_nil, is_empty, or_default, if◌then◌else◌,
}
use saa_s_app_be.Text.{trim}
use saa_s_app_be.Action.{
  Action, Message, bad_request, forbidden, not_found, text, pure, gets, or_throw, throw_if, when,
  ◌>>=◌, ◌>>◌,
}
use saa_s_app_be.Auth.Model.{RequestUser}
use saa_s_app_be.Files.Cloud.{FileHost}
use saa_s_app_be.Files.Model.{FinalizedAssetItem}
use saa_s_app_be.Files.Finalize.{finalize_temporary_assets}
use saa_s_app_be.Workspaces.Model.{
  TaskStatus, Task, UpdateTaskDto, TaskEvent, Push, Board, is_done, same_status,
}
use saa_s_app_be.Workspaces.Repository.{
  UpdateTaskRecordInput, find_active_by_id_and_workspace, update_by_id_and_workspace,
  execute_in_transaction,
}
use saa_s_app_be.Workspaces.Service.{
  is_tenant_member, merge_attachment_urls, secure_urls, with_files, emit, publish,
  publish_member_my_tasks_inbox_refresh, assert_workspace_belongs_to_tenant,
  assert_assigned_user_in_tenant,
}

abbrev pub is_status_transition_allowed : (from to : TaskStatus) → Bool
is_status_transition_allowed from to = same_status from to || not (is_done from)

-- `a === b` on identifiers that may be null
abbrev pub same_id : Option String → Option String → Bool
same_id none none = true
same_id none (some b) = false
same_id (some a) none = false
same_id (some a) (some b) = a == b

abbrev trimmed : Option String → Option String
trimmed none = none
trimmed (some s) = some (trim s)

-- `body.attachmentUrls !== undefined || (body.tempAttachmentPublicIds ?? []).length > 0`
abbrev pub changes_attachments : UpdateTaskDto → Bool
changes_attachments body =
    is_some body.attachment_urls || not (is_nil (or_default body.temp_attachment_public_ids []))

abbrev pub is_empty_update : UpdateTaskDto → Bool
is_empty_update body = not (
    is_some body.title
    || (is_some body.description
        || (is_some body.attachment_urls
            || (is_some body.temp_attachment_public_ids
                || (is_some body.status || is_some body.assigned_to)))))

-- `updatePatch`
abbrev pub update_patch : UpdateTaskDto → Task → List FinalizedAssetItem → UpdateTaskRecordInput
update_patch body existing finalized_assets = record {
  title = trimmed body.title;
  description = body.description;
  attachment_urls =
      if is_some body.attachment_urls || not (is_nil finalized_assets)
      then some (
          merge_attachment_urls (or_default body.attachment_urls existing.attachment_urls)
            (secure_urls finalized_assets))
      else none;
  status = body.status;
  assigned_to = body.assigned_to;
}

abbrev transition_message : TaskStatus → Message
transition_message from =
    if is_done from
    then text "Completed tasks cannot change status"
    else text "Invalid status transition"

-- what the transaction of `updateTask` returns
pub record UpdateTransactionResult : Type 0 where
  pub previous_assigned_to : Option String
  pub previous_status : TaskStatus
  pub updated : Task

module _ (fh : FileHost) where
  -- `body.assignedTo && body.assignedTo !== existing.assignedTo`
  abbrev check_new_assignee :
      (tenant_id : String) → Option (Option String) → Option String → Action (Board fh) Unit
  check_new_assignee tenant_id none existing = pure tt
  check_new_assignee tenant_id (some none) existing = pure tt
  check_new_assignee tenant_id (some (some user_id)) existing =
      if is_empty user_id || same_id (some user_id) existing
      then pure tt
      else assert_assigned_user_in_tenant fh tenant_id user_id

  abbrev check_transition : (from : TaskStatus) → Option TaskStatus → Action (Board fh) Unit
  check_transition from none = pure tt
  check_transition from (some to) =
      throw_if (not (is_status_transition_allowed from to)) (bad_request (transition_message from))

  -- the checks of the transaction on the stored task
  unfoldable pub check_update : RequestUser → UpdateTaskDto → Task → Action (Board fh) Unit
  check_update user body existing = do
    throw_if (is_tenant_member user && not (same_id existing.assigned_to (some user.user_id)))
        (forbidden (text "You can only update tasks assigned to you"))
    check_new_assignee user.tenant_id body.assigned_to existing.assigned_to
    check_transition existing.status body.status

  -- the transaction of `updateTask`
  unfoldable pub update_task_in_transaction :
      (now : ℕ) (uuid : String → String)
      → RequestUser
      → (workspace_id task_id : String) → UpdateTaskDto
      → Action (Board fh) UpdateTransactionResult
  update_task_in_transaction now uuid user workspace_id task_id body = do
    found ← gets (find_active_by_id_and_workspace fh task_id workspace_id user.tenant_id)
    existing ← or_throw found (not_found (text "Task not found"))
    check_update user body existing
    finalized_assets ← with_files fh (λ tasks. finalize_temporary_assets fh tasks now uuid (record {
      tenant_id = user.tenant_id;
      task_id = task_id;
      temporary_public_ids = or_default body.temp_attachment_public_ids [];
      scope = "workspace-tasks";
      in_session = true;
    }))
    changed ←
        update_by_id_and_workspace fh now task_id workspace_id user.tenant_id
          (update_patch body existing finalized_assets)
    updated ← or_throw changed (not_found (text "Task not found"))
    pure (record {
      previous_assigned_to = existing.assigned_to;
      previous_status = existing.status;
      updated = updated;
    })

  abbrev emit_reassigned :
      RequestUser → (workspace_id : String) → Task → Option String → Action (Board fh) Unit
  emit_reassigned user workspace_id task none = pure tt
  emit_reassigned user workspace_id task (some assignee) =
      if is_empty assignee
      then pure tt
      else emit fh (TaskEvent.assigned task.id workspace_id task.tenant_id assignee user.user_id)

  -- `body.assignedTo !== undefined && body.assignedTo !== previousAssignedTo`
  abbrev reassigns : Option (Option String) → (previous : Option String) → Bool
  reassigns none previous = false
  reassigns (some next) previous = not (same_id next previous)

  abbrev is_truthy : Option String → Bool
  is_truthy none = false
  is_truthy (some s) = not (is_empty s)

  -- what `updateTask` emits behind its transaction
  unfoldable pub emit_updated :
      RequestUser
      → (workspace_id : String) → UpdateTaskDto
      → UpdateTransactionResult
      → Action (Board fh) Unit
  emit_updated user workspace_id body r = do
    when (reassigns body.assigned_to r.previous_assigned_to)
        (emit_reassigned user workspace_id r.updated r.updated.assigned_to)
    when (not (is_done r.previous_status) && is_done r.updated.status)
        (emit fh (TaskEvent.completed r.updated.id workspace_id r.updated.tenant_id user.user_id))

  -- what it publishes then
  unfoldable pub publish_updated :
      RequestUser → (workspace_id : String) → UpdateTransactionResult → Action (Board fh) Unit
  publish_updated user workspace_id r = do
    publish fh (Push.tasks_changed user.tenant_id workspace_id)
    publish_member_my_tasks_inbox_refresh fh user.tenant_id r.updated.assigned_to
    when
        (is_truthy r.previous_assigned_to
          && not (same_id r.previous_assigned_to r.updated.assigned_to))
        (publish_member_my_tasks_inbox_refresh fh user.tenant_id r.previous_assigned_to)

  unfoldable pub announce_updated :
      RequestUser
      → (workspace_id : String) → UpdateTaskDto
      → UpdateTransactionResult
      → Action (Board fh) Unit
  announce_updated user workspace_id body r = do
    emit_updated user workspace_id body r
    publish_updated user workspace_id r

  -- the checks of `updateTask` in front of its transaction
  unfoldable pub check_request :
      RequestUser → (workspace_id : String) → UpdateTaskDto → Action (Board fh) Unit
  check_request user workspace_id body = do
    throw_if (is_tenant_member user && is_some body.assigned_to)
        (forbidden (text "Members cannot reassign tasks"))
    throw_if (is_tenant_member user && changes_attachments body)
        (forbidden (text "Members cannot change task attachments"))
    throw_if (is_empty_update body) (bad_request (text "No fields to update"))
    assert_workspace_belongs_to_tenant fh workspace_id user.tenant_id

  unfoldable pub update_task :
      (now : ℕ) (uuid : String → String)
      → RequestUser
      → (workspace_id task_id : String) → UpdateTaskDto
      → Action (Board fh) Task
  update_task now uuid user workspace_id task_id body = do
    check_request user workspace_id body
    result ←
        execute_in_transaction fh
          (update_task_in_transaction now uuid user workspace_id task_id body)
    announce_updated user workspace_id body result
    pure result.updated
