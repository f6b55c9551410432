-- ===== src/Workspaces/Model.antt =====
-- workspace/schemas, workspace/types, workspace/dto and common/domain-events/task.domain-events.ts.
use saa_s_app_be.Prelude.{ℕ, String, Bool, true, false, Option, List}
use saa_s_app_be.Auth.Model.{User}
use saa_s_app_be.Files.Cloud.{FileHost}
use saa_s_app_be.Files.Model.{FileState}

-- `TASK_STATUS_VALUES`
pub data TaskStatus : Type 0 where
  todo in_progress blocked done : TaskStatus

abbrev pub is_done : TaskStatus → Bool
is_done TaskStatus.done = true
is_done _ = false

abbrev pub same_status : TaskStatus → TaskStatus → Bool
same_status TaskStatus.todo TaskStatus.todo = true
same_status TaskStatus.in_progress TaskStatus.in_progress = true
same_status TaskStatus.blocked TaskStatus.blocked = true
same_status TaskStatus.done TaskStatus.done = true
same_status _ _ = false

-- A document of `workspace_tasks`. Dates are milliseconds.
pub record Task : Type 0 where
  pub id : String
  pub title : String
  pub description : Option String
  pub attachment_urls : List String
  pub status : TaskStatus
  pub assigned_to : Option String
  pub tenant_id : String
  pub workspace_id : String
  pub created_by : String
  pub deleted_at : Option ℕ
  pub created_at : ℕ
  pub updated_at : ℕ

-- A document of `workspaces`.
pub record Workspace : Type 0 where
  pub id : String
  pub tenant_id : String
  pub name : String
  pub created_at : ℕ
  pub updated_at : ℕ

pub record CreateTaskDto : Type 0 where
  pub title : String
  pub description : Option String
  pub attachment_urls : Option (List String)
  pub temp_attachment_public_ids : Option (List String)
  pub status : Option TaskStatus
  pub assigned_to : Option String

-- `none` is `undefined`, `some none` is `null`.
pub record UpdateTaskDto : Type 0 where
  pub title : Option String
  pub description : Option (Option String)
  pub attachment_urls : Option (List String)
  pub temp_attachment_public_ids : Option (List String)
  pub status : Option TaskStatus
  pub assigned_to : Option (Option String)

pub record ListTasksQueryDto : Type 0 where
  pub status : Option TaskStatus
  pub assigned_to : Option String
  pub search : Option String
  pub page : Option ℕ
  pub limit : Option ℕ

-- `TaskEventName` with its payloads
pub data TaskEvent : Type 0 where
  created :
      (task_id workspace_id tenant_id created_by : String) (assigned_to : Option String)
      (status : TaskStatus)
      → TaskEvent
  assigned : (task_id workspace_id tenant_id assigned_to assigned_by : String) → TaskEvent
  completed : (task_id workspace_id tenant_id completed_by : String) → TaskEvent

-- what `WorkspaceBoardRealtimePublisher` sends
pub data Push : Type 0 where
  tasks_changed : (tenant_id workspace_id : String) → Push
  my_tasks_changed : (tenant_id user_id : String) → Push

-- What the service reads and writes; the latest event and the latest push come first.
pub record Board (fh : FileHost) : Type 0 where
  pub workspaces : fh.host.mongo.Coll Workspace
  pub tasks : fh.host.mongo.Coll Task
  pub users : fh.host.mongo.Coll User
  pub files : FileState fh
  pub events : List TaskEvent
  pub pushes : List Push
