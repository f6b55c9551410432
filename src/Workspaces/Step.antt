-- ===== src/Workspaces/Step.antt =====
-- The board as its users see it: the requests of workspace.service.ts that write, as steps on the tasks
-- by their identifiers and on the count of `task.completed` events.
pub mod Announcement
pub mod Checks
pub mod Creation
pub mod Revision
pub mod Removal
pub mod Refinement
pub mod Rights
pub mod History
use saa_s_app_be.Prelude.{
  ℕ, ◌+◌, ◌≤◌, String, ◌==◌, ◌≡◌, ◌⊎◌, Bool, true, false, not, ◌&&◌, ◌||◌, Option, none, some, List,
  [], ◌∷◌, is_some, if◌then◌else◌,
}
use saa_s_app_be.Mongo.{updated}
use saa_s_app_be.Action.{Result, Action, ok, err}
use saa_s_app_be.Auth.Model.{RequestUser}
use saa_s_app_be.Files.Cloud.{FileHost}
use saa_s_app_be.Workspaces.Model.{
  TaskStatus, Task, CreateTaskDto, UpdateTaskDto, TaskEvent, Board, is_done,
}
use saa_s_app_be.Workspaces.Repository.{is_live_in, soft_deleted}
use saa_s_app_be.Workspaces.Service
use saa_s_app_be.Workspaces.Tasks
use saa_s_app_be.Workspaces.Service.{is_tenant_member}
use saa_s_app_be.Workspaces.Update

-- A request that writes, with the clock and the identifiers that it draws.
pub data Request : Type 0 where
  create_workspace : (now : ℕ) (id : String) (user : RequestUser) (name : String) → Request
  delete_workspace : (now : ℕ) (user : RequestUser) (workspace_id : String) → Request
  create_task :
      (now : ℕ) (id : String) (uuid : String → String) (user : RequestUser) (workspace_id : String)
      (body : CreateTaskDto)
      → Request
  update_task :
      (now : ℕ) (uuid : String → String) (user : RequestUser) (workspace_id task_id : String)
      (body : UpdateTaskDto)
      → Request
  delete_task : (now : ℕ) (user : RequestUser) (workspace_id task_id : String) → Request

abbrev pub actor : Request → RequestUser
actor (Request.create_workspace now id user name) = user
actor (Request.delete_workspace now user workspace_id) = user
actor (Request.create_task now id uuid user workspace_id body) = user
actor (Request.update_task now uuid user workspace_id task_id body) = user
actor (Request.delete_task now user workspace_id task_id) = user

abbrev pub discard : {A : Type 0} → Result A → Result Unit
discard (ok a) = ok tt
discard (err e) = err e

-- an event that says that a task is done
abbrev is_completion : (task_id : String) → TaskEvent → Bool
is_completion task_id (TaskEvent.created i w t by to status) = false
is_completion task_id (TaskEvent.assigned i w t to by) = false
is_completion task_id (TaskEvent.completed i w t by) = i == task_id

abbrev pub completions : (task_id : String) → List TaskEvent → ℕ
completions task_id [] = 0
completions task_id (e ∷ es) = (if is_completion task_id e then 1 else 0) + completions task_id es

-- A task that is revised stays where it is, and one that is done stays done.
pub record IsRevision (a b : Task) : Type 0 where
  pub same_id : b.id ≡ a.id
  pub same_tenant : b.tenant_id ≡ a.tenant_id
  pub same_workspace : b.workspace_id ≡ a.workspace_id
  pub same_author : b.created_by ≡ a.created_by
  pub still_live : b.deleted_at ≡ a.deleted_at
  pub done_stays : (not (is_done a.status) || is_done b.status) ≡ true

-- What a member may revise: a task of his own, but not who has it nor what is attached to it.
pub record IsOwnRevision (user_id : String) (a b : Task) : Type 0 where
  pub own : a.assigned_to ≡ some user_id
  pub same_assignee : b.assigned_to ≡ a.assigned_to
  pub same_attachments : b.attachment_urls ≡ a.attachment_urls

module _ (fh : FileHost) where
  open fh use {host}

  abbrev discarded : {A : Type 0} → Result A × Board fh → Result Unit × Board fh
  discarded (r, s) = (discard r, s)

  abbrev pub perform : Request → Action (Board fh) Unit
  perform (Request.create_workspace now id user name) s =
      discarded (Service.create_workspace fh now id user name s)
  perform (Request.delete_workspace now user workspace_id) s =
      Service.delete_workspace fh now user workspace_id s
  perform (Request.create_task now id uuid user workspace_id body) s =
      discarded (Tasks.create_task fh now id uuid user workspace_id body s)
  perform (Request.update_task now uuid user workspace_id task_id body) s =
      discarded (Update.update_task fh now uuid user workspace_id task_id body s)
  perform (Request.delete_task now user workspace_id task_id) s =
      Tasks.delete_task fh now user workspace_id task_id s

  abbrev pub task_at : String → Board fh → Option Task
  task_at id s = host.mongo.find_one id s.tasks

  -- What a request may do to the board `s`, `t` being the board after it.
  pub data Change (user : RequestUser) (s t : Board fh) : Type 0 where
    kept : ((j : String) → task_at j t ≡ task_at j s) → t.events ≡ s.events → Change user s t
    -- a new task of the tenant, which is live
    added :
        (a : Task)
        → is_tenant_member user ≡ false
        → a.tenant_id ≡ user.tenant_id
        → a.deleted_at ≡ none
        → task_at a.id s ≡ none
        → ((j : String) → task_at j t ≡ (if a.id == j then some a else task_at j s))
        → ((j : String)
            → completions j t.events
              ≡ (if (a.id == j) && is_done a.status then 1 else 0) + completions j s.events)
        → Change user s t
    -- a live task of the tenant is revised
    revised :
        (k : String) (a b : Task)
        → task_at k s ≡ some a
        → a.tenant_id ≡ user.tenant_id
        → a.deleted_at ≡ none
        → IsRevision a b
        → (is_tenant_member user ≡ false) ⊎ IsOwnRevision user.user_id a b
        → ((j : String) → task_at j t ≡ (if k == j then some b else task_at j s))
        → ((j : String)
            → completions j t.events
              ≡ (if (b.id == j) && (not (is_done a.status) && is_done b.status) then 1 else 0)
                + completions j s.events)
        → Change user s t
    -- a live task of the tenant that is not done is marked as deleted
    removed :
        (k : String) (now : ℕ) (a : Task)
        → is_tenant_member user ≡ false
        → task_at k s ≡ some a
        → a.tenant_id ≡ user.tenant_id
        → a.deleted_at ≡ none
        → is_done a.status ≡ false
        → ((j : String)
            → task_at j t ≡ (
                if k == j
                then some (record a { deleted_at = some now; updated_at = now })
                else task_at j s))
        → t.events ≡ s.events
        → Change user s t
    -- the live tasks of a workspace of the tenant are marked as deleted
    swept :
        (workspace_id : String) (now : ℕ)
        → is_tenant_member user ≡ false
        → ((j : String)
            → task_at j t
              ≡ updated
                  (λ a.
                    (a.workspace_id == workspace_id)
                    && ((a.tenant_id == user.tenant_id) && not (is_some a.deleted_at)))
                  (λ a. record a { deleted_at = some now; updated_at = now })
                  (task_at j s))
        → t.events ≡ s.events
        → Change user s t
