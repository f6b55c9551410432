-- ===== src/Workspaces/Step/Refinement.antt =====
-- Every request of the board is a step, and one that is refused is none.
use saa_s_app_be.Prelude.{◌≡◌, ap, arith}
use saa_s_app_be.Action.{Exception, Result, ok, err}
use saa_s_app_be.Files.Cloud.{FileHost}
use saa_s_app_be.Workspaces.Model.{Board}
use saa_s_app_be.Workspaces.Step.{Request, actor, perform, discard, Change}
use saa_s_app_be.Workspaces.Step.Creation.{create_task-Change, create_task_refused}
use saa_s_app_be.Workspaces.Step.Revision.{update_task-Change, update_task_refused}
use saa_s_app_be.Workspaces.Step.Removal.{
  create_workspace-Change, delete_workspace-Change, delete_task-Change, create_workspace_refused,
  delete_workspace_refused, delete_task_refused,
}

undiscard : {A : Type 0} {r : Result A} {e : Exception} → discard r ≡ err e → r ≡ err e
undiscard {r = ok a} h = absurd (ground arith)
undiscard {r = err x} h = ground arith

module _ (fh : FileHost) where
  pub perform-Change :
      (request : Request) (s : Board fh) → Change fh (actor request) s (perform fh request s).1
  perform-Change (Request.create_workspace now id user name) s =
      create_workspace-Change fh now id user name s
  perform-Change (Request.delete_workspace now user workspace_id) s =
      delete_workspace-Change fh now user workspace_id s
  perform-Change (Request.create_task now id uuid user workspace_id body) s =
      create_task-Change fh now id uuid user workspace_id body s
  perform-Change (Request.update_task now uuid user workspace_id task_id body) s =
      update_task-Change fh now uuid user workspace_id task_id body s
  perform-Change (Request.delete_task now user workspace_id task_id) s =
      delete_task-Change fh now user workspace_id task_id s

  -- What a refused request leaves as it was.
  pub record IsUntouched (s t : Board fh) : Type 0 where
    pub tasks : t.tasks ≡ s.tasks
    pub workspaces : t.workspaces ≡ s.workspaces
    pub events : t.events ≡ s.events
    pub pushes : t.pushes ≡ s.pushes

  untouched :
      {s t : Board fh}
      → (t.tasks ≡ s.tasks)
        × (t.workspaces ≡ s.workspaces)
        × (t.events ≡ s.events)
        × (t.pushes ≡ s.pushes)
      → IsUntouched s t
  untouched (tasks, workspaces, events, pushes) = record {
    tasks = tasks;
    workspaces = workspaces;
    events = events;
    pushes = pushes;
  }

  -- A request that is refused, with whatever exception, leaves the tasks, the workspaces, the events and
  -- the pushes as they were.
  pub perform-IsUntouched :
      (request : Request) (s : Board fh) (e : Exception)
      → (perform fh request s).0 ≡ err e
      → IsUntouched s (perform fh request s).1
  perform-IsUntouched (Request.create_workspace now id user name) s e h =
      untouched (create_workspace_refused fh now id user name s e (undiscard h))
  perform-IsUntouched (Request.delete_workspace now user workspace_id) s e h =
      untouched (delete_workspace_refused fh now user workspace_id s e h)
  perform-IsUntouched (Request.create_task now id uuid user workspace_id body) s e h =
      untouched (create_task_refused fh now id uuid user workspace_id body s e (undiscard h))
  perform-IsUntouched (Request.update_task now uuid user workspace_id task_id body) s e h =
      untouched (update_task_refused fh now uuid user workspace_id task_id body s e (undiscard h))
  perform-IsUntouched (Request.delete_task now user workspace_id task_id) s e h =
      let same = delete_task_refused fh now user workspace_id task_id s e h in
      record {
        tasks = ap (λ t. t.tasks) same;
        workspaces = ap (λ t. t.workspaces) same;
        events = ap (λ t. t.events) same;
        pushes = ap (λ t. t.pushes) same;
      }
