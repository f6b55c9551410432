-- ===== src/Workspaces/Repository.antt =====
-- workspace/repositories/task.repository.ts and workspace.repository.ts: the writes, and the reads of one
-- document.
use saa_s_app_be.Prelude.{
  ℕ, String, ◌==◌, Bool, true, false, not, ◌&&◌, Option, none, some, List, is_some, length,
  or_default, if◌then◌else◌,
}
use saa_s_app_be.Action.{Result, Action, ok, err}
use saa_s_app_be.Files.Cloud.{FileHost}
use saa_s_app_be.Files.Model.{duplicate_key}
use saa_s_app_be.Workspaces.Model.{TaskStatus, Task, Workspace, Board}

-- `UpdateTaskRecordInput`
pub record UpdateTaskRecordInput : Type 0 where
  pub title : Option String
  pub description : Option (Option String)
  pub attachment_urls : Option (List String)
  pub status : Option TaskStatus
  pub assigned_to : Option (Option String)

-- `{ workspaceId, tenantId, deletedAt: null }`
abbrev pub is_live_in : (workspace_id tenant_id : String) → Task → Bool
is_live_in workspace_id tenant_id t =
    (t.workspace_id == workspace_id) && ((t.tenant_id == tenant_id) && not (is_some t.deleted_at))

abbrev pub is_workspace_of : (tenant_id : String) → Workspace → Bool
is_workspace_of tenant_id w = w.tenant_id == tenant_id

-- `{ $set: input }`; Mongoose leaves out what is undefined, and keeps `updatedAt`
abbrev pub patched : (now : ℕ) → UpdateTaskRecordInput → Task → Task
patched now input t = record t {
  title = or_default input.title t.title;
  description = or_default input.description t.description;
  attachment_urls = or_default input.attachment_urls t.attachment_urls;
  status = or_default input.status t.status;
  assigned_to = or_default input.assigned_to t.assigned_to;
  updated_at = now;
}

abbrev pub soft_deleted : (now : ℕ) → Task → Task
soft_deleted now t = record t { deleted_at = some now; updated_at = now }

-- a document that fits a filter
abbrev pub fitting : {D : Type 0} → (D → Bool) → Option D → Option D
fitting guard none = none
fitting guard (some d) = if guard d then some d else none

module _ (fh : FileHost) where
  open fh use {host}
  open host use {mongo, is_object_id}
  open mongo use {find_one, insert, update_one, update_many, delete_one, find_many}

  -- `create` of the task repository, for the document with its new `_id`
  unfoldable pub create_task_document : Task → Action (Board fh) Task
  create_task_document t s =
      let (c, inserted) = insert t.id t s.tasks in
      if inserted then (ok t, record s { tasks = c }) else (err duplicate_key, s)

  unfoldable pub find_active_by_id_and_workspace :
      (task_id workspace_id tenant_id : String) → Board fh → Option Task
  find_active_by_id_and_workspace task_id workspace_id tenant_id s =
      if is_object_id task_id
      then fitting (is_live_in workspace_id tenant_id) (find_one task_id s.tasks)
      else none

  -- `updateByIdAndWorkspace`, which returns the document after the update
  unfoldable pub update_by_id_and_workspace :
      (now : ℕ) (task_id workspace_id tenant_id : String)
      → UpdateTaskRecordInput
      → Action (Board fh) (Option Task)
  unfolding find_active_by_id_and_workspace
  update_by_id_and_workspace now task_id workspace_id tenant_id input s =
      elim (find_active_by_id_and_workspace task_id workspace_id tenant_id s) [
        | none ↦ (ok none, s)
        | some t ↦ (
          ok (some (patched now input t)),
          record s {
            tasks =
                (update_one task_id (is_live_in workspace_id tenant_id) (patched now input)
                  s.tasks).0;
          },
        )
      ]

  unfoldable pub soft_delete_by_id_and_workspace :
      (now : ℕ) (task_id workspace_id tenant_id : String) → Action (Board fh) Bool
  soft_delete_by_id_and_workspace now task_id workspace_id tenant_id s =
      let (c, modified) =
        update_one task_id (is_live_in workspace_id tenant_id) (soft_deleted now) s.tasks in
      if is_object_id task_id then (ok modified, record s { tasks = c }) else (ok false, s)

  unfoldable pub soft_delete_all_by_workspace :
      (now : ℕ) (workspace_id tenant_id : String) → Action (Board fh) Unit
  soft_delete_all_by_workspace now workspace_id tenant_id s = (
    ok tt,
    record s { tasks = update_many (is_live_in workspace_id tenant_id) (soft_deleted now) s.tasks },
  )

  -- `create` of the workspace repository
  unfoldable pub create_workspace_document : Workspace → Action (Board fh) Workspace
  create_workspace_document w s =
      let (c, inserted) = insert w.id w s.workspaces in
      if inserted then (ok w, record s { workspaces = c }) else (err duplicate_key, s)

  unfoldable pub find_workspace : (workspace_id tenant_id : String) → Board fh → Option Workspace
  find_workspace workspace_id tenant_id s =
      if is_object_id workspace_id
      then fitting (is_workspace_of tenant_id) (find_one workspace_id s.workspaces)
      else none

  -- `deleteByIdAndTenant`: whether a document was deleted
  unfoldable pub delete_workspace_document :
      (workspace_id tenant_id : String) → Action (Board fh) Bool
  unfolding find_workspace
  delete_workspace_document workspace_id tenant_id s =
      elim (find_workspace workspace_id tenant_id s) [
        | none ↦ (ok false, s)
        | some w ↦ (ok true, record s { workspaces = delete_one workspace_id s.workspaces })
      ]

  -- `countByTenantId`
  unfoldable pub count_workspaces : (tenant_id : String) → Board fh → ℕ
  count_workspaces tenant_id s = length (find_many (is_workspace_of tenant_id) s.workspaces)

  -- A transaction that ends well makes its writes visible to the others.
  abbrev pub commit : Board fh → Board fh
  commit s = record s { files = record s.files { committed = s.files.assets } }

  -- One that is aborted leaves the documents as they were; what was written without its session stays.
  abbrev pub abort : (opening now : Board fh) → Board fh
  abort opening s = record s {
    tasks = opening.tasks;
    workspaces = opening.workspaces;
    files = record s.files { assets = s.files.committed };
  }

  abbrev pub close : {A : Type 0} → Result A → (opening now : Board fh) → Board fh
  close (ok a) opening s = commit s
  close (err e) opening s = abort opening s

  unfoldable pub execute_in_transaction : {A : Type 0} → Action (Board fh) A → Action (Board fh) A
  execute_in_transaction operation s = let (r, s') = operation s in (r, close r s s')
